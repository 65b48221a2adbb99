-- ===== src/Mulberry/State.antt =====
-- internal/mulberry/mulberry.go: the state of the router, and its methods as actions: functions of the
-- router and the network that return a value or an error, and the state as it is then. The router and
-- its topology have one clock, that of the process (hlc.GetClock), which stands in the topology.
use let_mil_go.Common.{ℕ, ◌≡◌, refl, ap, String, Bool, Option, none, some, some-inj, string_eq}
use let_mil_go.GoMap.{Map}
use let_mil_go.GoMap
use let_mil_go.Rpc.{Status, Try, success, failure}
use let_mil_go.Csrs.Registry.{TopologyError}
use let_mil_go.Csrs.{TopologyManager}
use let_mil_go.Shard.State.{IsolationLevel}
use let_mil_go.Mulberry.Connections.{Connections}
use let_mil_go.Mulberry.Connections

pub record TxContext : Type 0 where
  pub tx_id : String
  pub snapshot_time : ℕ
  pub isolation_level : IsolationLevel
  pub involved_shards : Map String Bool

pub record Router (C : Type 0) : Type 0 where
  pub conn_mgr : Connections C
  pub topology : TopologyManager
  pub active_txns : Map String TxContext

unfoldable pub new_router : {C : Type 0} → TopologyManager → Router C
unfolding Connections.new_shard_connection_manager
new_router topology = record {
  conn_mgr = Connections.new_shard_connection_manager;
  topology = topology;
  active_txns = GoMap.empty;
}

-- the errors that the methods make, each with what its text is made of; `panicked` is a nil pointer
-- that is read
pub data RouterError : Type 0 where
  tx_exists tx_missing : String → RouterError
  unroutable : TopologyError → RouterError
  not_in_topology : String → RouterError
  no_stub start_stub prepare_stub : Status → RouterError
  start_failed : String → Status → RouterError
  read_failed write_failed delete_failed : Status → RouterError
  gone_in_commit prepare_failed : String → RouterError
  panicked : RouterError

pub record Sys (W C : Type 0) : Type 0 where
  pub router : Router C
  pub world : W

abbrev pub Action : Type 0 → Type 0 → Type 0 → Type 0
Action W C A = Sys W C → Try RouterError A × Sys W C

-- an error of a callee, wrapped
abbrev pub wrap : {E A : Type 0} → (E → RouterError) → Try E A → Try RouterError A
wrap on_error (success a) = success a
wrap on_error (failure e) = failure (on_error e)

module _ {W C A : Type 0} where
  abbrev pub pure : A → Action W C A
  pure a s = (success a, s)

  abbrev pub raise : RouterError → Action W C A
  raise e s = (failure e, s)

  -- a value that may be nil
  abbrev pub or_raise : RouterError → Option A → Action W C A
  or_raise e none s = (failure e, s)
  or_raise e (some a) s = (success a, s)

  -- a call over the network
  abbrev pub call : (Status → RouterError) → (W → Try Status A × W) → Action W C A
  call on_error rpc s =
      let (reply, w) = rpc s.world in (wrap on_error reply, record s { world = w })

infixl 5 ◌>>=◌ ◌>>◌
abbrev pub ◌>>=◌ : {W C A B : Type 0} → Action W C A → (A → Action W C B) → Action W C B
◌>>=◌ m f s = let (r, s') = m s in elim r [ success a ↦ f a s' | failure e ↦ (failure e, s') ]

abbrev pub ◌>>◌ : {W C B : Type 0} → Action W C (Unit {0}) → Action W C B → Action W C B
m >> k = m >>= λ _. k

-- A value that is there is handed on.
pub or_raise-some :
    {W C A B : Type 0} (e : RouterError) (o : Option A) (a : A) (f : A → Action W C B) (s : Sys W C)
    → o ≡ some a
    → (or_raise e o >>= f) s ≡ f a s
or_raise-some e none a f s h = absurd (cc h)
or_raise-some e (some b) a f s h = ap (λ c. f c s) (some-inj h)

-- A value that is missing is the error.
pub or_raise-none :
    {W C A B : Type 0} (e : RouterError) (o : Option A) (f : A → Action W C B) (s : Sys W C)
    → o ≡ none
    → (or_raise e o >>= f) s ≡ (failure e, s)
or_raise-none e none f s h = refl
or_raise-none e (some b) f s h = absurd (cc h)
