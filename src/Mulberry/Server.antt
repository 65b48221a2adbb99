-- ===== src/Mulberry/Server.antt =====
-- internal/mulberry/server.go: the gRPC server of the router. A handler is given the fields of its
-- request and returns what the response holds, or the error of the router.
use let_mil_go.Common.{ℕ, String, Bool}
use let_mil_go.Shard.State.{IsolationLevel}
use let_mil_go.Mulberry.Network.{Network}
use let_mil_go.Mulberry.State.{Action, pure, ◌>>=◌}
use let_mil_go.Mulberry.Router
use let_mil_go.Mulberry.TwoPhase

pub record ReadResponse : Type 0 where
  pub value : String
  pub found : Bool

module _ {W C : Type 0} ⦃net : Network W C⦄ where
  unfoldable pub begin_transaction : ℕ → ℕ → IsolationLevel → Action W C String
  begin_transaction now now' iso = do tx_id ← Router.begin_transaction now now' iso; pure tx_id

  unfoldable pub read : (String → ℕ) → String → String → Action W C ReadResponse
  read hash tx_id key = do
    result ← Router.read hash tx_id key
    pure (record { value = result.0; found = result.1 })

  unfoldable pub write : (String → ℕ) → String → String → String → Action W C (Unit {0})
  write hash tx_id key value = do _ ← Router.write hash tx_id key value; pure tt

  unfoldable pub delete : (String → ℕ) → String → String → Action W C (Unit {0})
  delete hash tx_id key = do _ ← Router.delete hash tx_id key; pure tt

  unfoldable pub commit : ℕ → String → Action W C (Unit {0})
  commit now tx_id = do _ ← TwoPhase.commit now tx_id; pure tt

  unfoldable pub abort : String → Action W C (Unit {0})
  abort tx_id = do _ ← TwoPhase.abort tx_id; pure tt
