-- ===== src/Mulberry/Cluster.antt =====
-- A network for the router of internal/mulberry that reaches the servers of internal/shard/server.go:
-- a connection is an address, a call that reaches no server is unavailable, and a server whose shard
-- panics is gone.
pub mod Serve
pub mod Ends
use let_mil_go.Common.{ℕ, String, Option, none, some, string_eq}
use let_mil_go.GoMap.{Map}
use let_mil_go.GoMap
use let_mil_go.Rpc.{Status, Try, success, failure, code_unavailable}
use let_mil_go.OpLog.{OpLog}
use let_mil_go.Shard.State.{Shard}
use let_mil_go.Shard.Server.{Fault, status, crash}
use let_mil_go.Shard.Server
use let_mil_go.Mulberry.Network.{Network}

-- the shards by the addresses of their servers; `now` is what their clocks read
pub record Cluster (L : Type 0) : Type 0 where
  pub shards : Map String (Shard L)
  pub now : ℕ

abbrev pub unavailable : Status
unavailable = record { code = code_unavailable; message = "connection refused" }

module _ {L A : Type 0} where
  -- what the client gets, and the cluster after the handler
  abbrev pub settle : String → Cluster L → Try Fault A × Shard L → Try Status A × Cluster L
  settle address c (success a, s) = (success a, record c { shards = GoMap.put c.shards address s })
  settle address c (failure (status e), s) =
      (failure e, record c { shards = GoMap.put c.shards address s })
  settle address c (failure crash, s) =
      (failure unavailable, record c { shards = GoMap.delete c.shards address })

  abbrev pub serve :
      (Shard L → Try Fault A × Shard L) → String → Cluster L → Try Status A × Cluster L
  serve handler address c = elim (GoMap.get c.shards address) [
    | none ↦ (failure unavailable, c)
    | some s ↦ settle address c (handler s)
  ]

instance abbrev pub cluster_network : {L : Type 0} ⦃log : OpLog L⦄ → Network (Cluster L) String
cluster_network = record {
  new_client = λ address c. (success address, c);
  close = λ conn c. (none, c);
  tx_start = λ conn t at c. serve (λ s. Server.tx_start s t at) conn c;
  tx_read = λ conn t key at c. serve (λ s. Server.tx_read c.now s t key at) conn c;
  tx_write = λ conn t key value c. serve (λ s. Server.tx_write c.now s t key value) conn c;
  tx_delete = λ conn t key c. serve (λ s. Server.tx_delete c.now s t key) conn c;
  prepare = λ conn t at iso c. serve (λ s. Server.prepare c.now s t at iso) conn c;
  commit = λ conn t at c. serve (λ s. Server.commit c.now s t at) conn c;
  abort = λ conn t c. serve (λ s. Server.abort c.now s t) conn c;
}
