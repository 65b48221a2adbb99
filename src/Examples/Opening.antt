-- ===== src/Examples/Opening.antt =====
-- A router that opens a transaction beside another.
use let_mil_go.Common.{
  ◌≡◌, refl, sym, inl, inr, String, false, [], arith, ◌==◌, ==_iff, string_eq, Bool-cases,
}
use let_mil_go.GoMap.{is_some, get-put, get-empty}
use let_mil_go.GoMap
use let_mil_go.Csrs.{TopologyManager}
use let_mil_go.Shard.State.{isolation_si, isolation_ser}
use let_mil_go.Mulberry.Connections.{new_shard_connection_manager}
use let_mil_go.Mulberry.State.{TxContext, Sys}
use let_mil_go.Mulberry.Router.{tx_name, begin_transaction}
use let_mil_go.Mulberry.Fresh.{IsNumbered, Opened, begin_transaction-Opened}

abbrev topology : TopologyManager
topology = record {
  registry = record { shards = GoMap.empty };
  hash_ring = record {
    virtual_nodes = 1;
    ring = [];
    node_map = GoMap.empty;
    shard_set = GoMap.empty;
  };
  topology_version = 3;
  clock = record { ts = 4 };
}

abbrev ctx : TxContext
ctx = record {
  tx_id = tx_name 3;
  snapshot_time = 4;
  isolation_level = isolation_si;
  involved_shards = GoMap.empty;
}

abbrev start : Sys (Unit {0}) String
start = record {
  router = record {
    conn_mgr = new_shard_connection_manager;
    topology = topology;
    active_txns = GoMap.put GoMap.empty (tx_name 3) ctx;
  };
  world = tt;
}

nothing_else :
    (t : String) → (tx_name 3 == t) ≡ false → is_some (GoMap.get start.router.active_txns t) ≡ false
nothing_else t other = rw (get-put, other) (rw (get-empty {K = String} {V = TxContext} t) refl)

start-IsNumbered : IsNumbered start.router
start-IsNumbered = record {
  numbered = λ t open_tx. elim (Bool-cases (tx_name 3 == t)) [
    | inl same ↦ (3, omega arith, sym ((==_iff (tx_name 3) t).0 same))
    | inr other ↦ absurd (cc (open_tx, nothing_else t other))
  ];
  current = record { issued = omega arith };
}

begin_transaction-Opened_example :
    Opened isolation_ser start (begin_transaction 0 0 isolation_ser start)
begin_transaction-Opened_example =
    begin_transaction-Opened 0 0 isolation_ser start start-IsNumbered (omega arith) (omega arith)
      (omega arith)
