-- ===== src/Examples/Routing.antt =====
-- A concrete cluster of two shards behind a router of internal/mulberry, and networks that answer all
-- calls alike.
use let_mil_go.Common.{
  ◌≡◌, refl, String, true, false, none, some, List, [], ◌∷◌, length, string_eq, nat_eq,
}
use let_mil_go.GoMap.{Map, is_some, get-empty}
use let_mil_go.GoMap
use let_mil_go.Rpc.{success, failure}
use let_mil_go.OpLog.{NoOpLog, no_op}
use let_mil_go.Csrs.Registry.{ShardInfo, ShardStatus, shard_status_active, pos}
use let_mil_go.Csrs.Registry
use let_mil_go.Csrs.{TopologyManager}
use let_mil_go.Csrs
use let_mil_go.Shard.State.{Shard, new_shard, isolation_si, vote_commit}
use let_mil_go.Shard.Valid.{IsValid}
use let_mil_go.Shard.Valid.Runs.{starts, writes, run, run-IsValid, new_shard-IsValid}
use let_mil_go.Mulberry.Network.{Network}
use let_mil_go.Mulberry.Connections.{Stub, new_shard_connection_manager}
use let_mil_go.Mulberry.Connections.Pool
use let_mil_go.Mulberry.Connections.Pool.{
  IsPaired, PoolCall, gets, removes, shuts, new_pool-IsPaired, run-IsPaired,
}
use let_mil_go.Mulberry.State.{Sys, Router, TxContext, panicked}
use let_mil_go.Mulberry.TwoPhase
use let_mil_go.Mulberry.Journal.{Journal, recording}
use let_mil_go.Mulberry.Decision.{Decided, commit_unanimous}
use let_mil_go.Mulberry.Agreement.{IsAgreeing, commit_agreed}
use let_mil_go.Mulberry.Outcome.{finish_gone}
use let_mil_go.Mulberry.Cluster.{Cluster, cluster_network}
use let_mil_go.Mulberry.Cluster.Serve.{AllValid, put-AllValid}
use let_mil_go.Mulberry.Direct.{IsDirect}
use let_mil_go.Mulberry.Atomic.{AllOrNothing, commit_atomic}

abbrev info : String → String → ShardInfo
info shard_id address = record {
  shard_id = shard_id;
  address = address;
  replica_set = "";
  priority = pos 0;
  status = shard_status_active;
}

-- two virtual nodes of two shards; the hash of a key is its length
abbrev topology : TopologyManager
topology = record {
  registry = record {
    shards = record { entries = ("s1", info "s1" "host:1") ∷ ("s2", info "s2" "host:2") ∷ [] };
  };
  hash_ring = record {
    virtual_nodes = 1;
    ring = 2 ∷ 4 ∷ [];
    node_map = record { entries = (2, "s1") ∷ (4, "s2") ∷ [] };
    shard_set = record { entries = ("s1", true) ∷ ("s2", true) ∷ [] };
  };
  topology_version = 3;
  clock = record { ts = 3 };
}

abbrev ctx : TxContext
ctx = record {
  tx_id = "t";
  snapshot_time = 5;
  isolation_level = isolation_si;
  involved_shards = record { entries = ("s1", true) ∷ ("s2", true) ∷ [] };
}

-- a router in which one transaction is open
abbrev router : {C : Type 0} → Router C
router = record {
  conn_mgr = new_shard_connection_manager;
  topology = topology;
  active_txns = record { entries = ("t", ctx) ∷ [] };
}

-- a shard at which the transaction has written a key
abbrev written : String → String → Shard NoOpLog
written id key = run (starts "t" ∷ writes 5 "t" key "v" ∷ []) (new_shard id)

written-IsValid : (id key : String) → IsValid (written id key)
written-IsValid id key =
    run-IsValid (starts "t" ∷ writes 5 "t" key "v" ∷ []) (new_shard id) (new_shard-IsValid id)

abbrev no_shards : Cluster NoOpLog
no_shards = record { shards = GoMap.empty; now = 7 }

abbrev one_shard : Cluster NoOpLog
one_shard = record no_shards { shards = GoMap.put no_shards.shards "host:1" (written "s1" "k") }

abbrev two_shards : Cluster NoOpLog
two_shards = record one_shard { shards = GoMap.put one_shard.shards "host:2" (written "s2" "key") }

two_shards-AllValid : AllValid two_shards
two_shards-AllValid =
    put-AllValid "host:2" (written "s2" "key") one_shard
      (put-AllValid "host:1" (written "s1" "k") no_shards
        (record { at = λ a s found. absurd (cc (found, get-empty {V = Shard NoOpLog} a)) })
        (written-IsValid "s1" "k"))
      (written-IsValid "s2" "key")

abbrev start : Sys (Cluster NoOpLog) String
start = record { router = router; world = two_shards }

start-IsDirect : IsDirect start
unfolding new_shard_connection_manager
start-IsDirect = record {
  shards = two_shards-AllValid;
  stubs = λ a stub found. absurd (cc (found, get-empty {V = Stub String} a));
}

open_tx : (C : Type 0) → GoMap.get (router {C = C}).active_txns "t" ≡ some ctx
unfolding GoMap.get
open_tx C = refl

commit_atomic_example :
    AllOrNothing start "t" ("host:1" ∷ "host:2" ∷ []) (TwoPhase.commit 7 "t" start)
unfolding GoMap.keys Csrs.get_shard_info Registry.get GoMap.get
commit_atomic_example =
    commit_atomic 7 "t" start ctx ("host:1" ∷ "host:2" ∷ []) (open_tx String) start-IsDirect
      ((info "s1" "host:1", refl, refl), ((info "s2" "host:2", refl, refl), tt)) (refl, (refl, tt))

commit_unanimous_example : Decided router 7 "t" (length (GoMap.keys ctx.involved_shards)) (
    TwoPhase.commit ⦃net = recording cluster_network⦄ 7 "t"
      (record { router = router; world = record { world = two_shards; events = [] } }))
commit_unanimous_example =
    commit_unanimous cluster_network 7 "t" router two_shards ctx (open_tx String)

-- a network on which everything succeeds
abbrev agreeable : Network (Unit {0}) String
agreeable = record {
  new_client = λ address w. (success address, w);
  close = λ conn w. (none, w);
  tx_start = λ conn t at w. (success tt, w);
  tx_read = λ conn t key at w. (success (record { value = ""; version = 0; found = false }), w);
  tx_write = λ conn t key value w. (success 0, w);
  tx_delete = λ conn t key w. (success 0, w);
  prepare = λ conn t at iso w. (success (record { vote = vote_commit; prepare_time = 9 }), w);
  commit = λ conn t at w. (success tt, w);
  abort = λ conn t w. (success tt, w);
}

agreeable-IsAgreeing : IsAgreeing agreeable
agreeable-IsAgreeing = record {
  dials = λ address w. (address, refl);
  agrees = λ conn t at iso w. (9, refl);
}

abbrev asked : Sys (Journal (Unit {0}) String) String
asked = record { router = router; world = record { world = tt; events = [] } }

commit_agreed_example : (TwoPhase.commit ⦃net = recording agreeable⦄ 7 "t" asked).0 ≡ success tt
unfolding GoMap.keys Csrs.get_shard_info Registry.get GoMap.get
commit_agreed_example =
    commit_agreed agreeable agreeable-IsAgreeing 7 "t" asked ctx (open_tx String)
      ((info "s1" "host:1", refl), ((info "s2" "host:2", refl), tt))

-- the same router, once a shard has left the topology
abbrev shrunk : Sys (Journal (Unit {0}) String) String
shrunk = record asked {
  router = record asked.router {
    topology = record topology {
      registry = record { shards = record { entries = ("s1", info "s1" "host:1") ∷ [] } };
    };
  };
}

finish_gone_example :
    ((TwoPhase.finish ⦃net = recording agreeable⦄ "t" ctx 9 shrunk).0 ≡ failure panicked)
    × ((TwoPhase.finish ⦃net = recording agreeable⦄ "t" ctx 9 shrunk).1.router.active_txns
        ≡ shrunk.router.active_txns)
unfolding GoMap.get Csrs.get_shard_info Registry.get
finish_gone_example = finish_gone agreeable "t" "s2" 9 ctx shrunk refl refl

abbrev pool_calls : List PoolCall
pool_calls = gets "host:1" ∷ gets "host:2" ∷ removes "host:1" ∷ shuts ∷ []

run-IsPaired_example :
    IsPaired (Pool.run ⦃net = agreeable⦄ pool_calls (new_shard_connection_manager, tt)).0
run-IsPaired_example =
    run-IsPaired ⦃net = agreeable⦄ pool_calls new_shard_connection_manager tt new_pool-IsPaired
