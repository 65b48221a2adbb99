-- ===== src/Examples/Cluster.antt =====
-- A concrete cluster of internal/csrs, with the length of a text as its hash.
use Prim.Native.String.{len}
use let_mil_go.Common.{
  ◌⊎◌, ◌++◌, String, ◌≡◌, ◌≢◌, refl, true, [], ◌∷◌, arith, string_eq, ==-differ, nat_eq,
}
use let_mil_go.GoMap
use let_mil_go.GoMap.{get-put, is_some}
use let_mil_go.Csrs.Registry.{ShardInfo, shard_status_active, pos}
use let_mil_go.Csrs.Ring.{HashRing, get_shard_for_key}
use let_mil_go.Csrs.Ring
use let_mil_go.Csrs.Ring.Successor.{owner, successor, get_shard_for_key_lem}
use let_mil_go.Csrs.Ring.Sorted.{NoRepeat, nodes_from}
use let_mil_go.Csrs.Ring.Growth.{add_shard-moves}
use let_mil_go.Csrs.Ring.Removal.{remove_shard-keeps}
use let_mil_go.Csrs.{TopologyManager, new_topology_manager_with_clock}
use let_mil_go.Csrs.Members.{IsSynced, adds, change, change-IsSynced, new_topology_manager-IsSynced}

abbrev info : ShardInfo
info = record {
  shard_id = "s1";
  address = "host:1";
  replica_set = "";
  priority = pos 0;
  status = shard_status_active;
}

-- two virtual nodes of two shards
abbrev two_shards : HashRing
two_shards = record {
  virtual_nodes = 1;
  ring = 2 ∷ 4 ∷ [];
  node_map = record { entries = (2, "s1") ∷ (4, "s2") ∷ [] };
  shard_set = record { entries = ("s1", true) ∷ ("s2", true) ∷ [] };
}

abbrev cluster : TopologyManager
cluster = record {
  registry = record { shards = record { entries = ("s1", info) ∷ [] } };
  hash_ring = two_shards;
  topology_version = 3;
  clock = record { ts = 3 };
}

get_shard_for_key_lem_example :
    get_shard_for_key len two_shards "abc" ≡ owner two_shards (successor two_shards.ring 3)
get_shard_for_key_lem_example = get_shard_for_key_lem len two_shards "abc"

abc_shard : get_shard_for_key len two_shards "abc" ≡ "s2"
unfolding get_shard_for_key Ring.search Ring.first_not_below GoMap.get
abc_shard = refl

abc_not_s1 : get_shard_for_key len two_shards "abc" ≢ "s1"
abc_not_s1 = rw abc_shard (==-differ {A = String} "s2" "s1" refl)

remove_shard-keeps_example :
    get_shard_for_key len (Ring.remove_shard two_shards "s1").1 "abc"
    ≡ get_shard_for_key len two_shards "abc"
remove_shard-keeps_example =
    remove_shard-keeps len two_shards "s1" "abc" (omega arith, (omega arith, tt)) abc_not_s1

new_node : NoRepeat (two_shards.ring ++ nodes_from len "s3" two_shards.virtual_nodes 0)
unfolding nodes_from Ring.virtual_node_key Ring.rune_string
new_node = (refl, (refl, (refl, tt)))

add_shard-moves_example :
    (get_shard_for_key len (Ring.add_shard len two_shards "s3").1 "abc" ≡ "s3")
    ⊎ (get_shard_for_key len (Ring.add_shard len two_shards "s3").1 "abc"
        ≡ get_shard_for_key len two_shards "abc")
add_shard-moves_example =
    add_shard-moves len two_shards "s3" "abc" (omega arith, (omega arith, tt)) new_node

change-IsSynced_example :
    IsSynced (change len (adds 5 info) (new_topology_manager_with_clock (record { ts = 3 })))
change-IsSynced_example =
    change-IsSynced len (adds 5 info) (new_topology_manager_with_clock (record { ts = 3 }))
      (new_topology_manager-IsSynced (record { ts = 3 }))
