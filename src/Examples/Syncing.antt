-- ===== src/Examples/Syncing.antt =====
-- A router of cmd/mulberry that takes its topology over from a config server, with the length of a text
-- as its hash.
use Prim.Native.String.{len}
use let_mil_go.Common.{
  ◌≡◌, ◌≢◌, refl, inl, inr, String, List, true, none, some, [], ◌∷◌, ◌==◌, ==_iff, ==-differ,
  some-inj, string_eq, if◌then◌else◌, Bool-cases,
}
use let_mil_go.GoMap.{Map, get-put, get-empty}
use let_mil_go.GoMap
use let_mil_go.GoMap.Unique.{put-IsUnique, empty-IsUnique}
use let_mil_go.Rpc.{code_internal, success, failure}
use let_mil_go.Csrs.Registry.{ShardInfo, pos, shard_status_active}
use let_mil_go.Csrs.{TopologyManager}
use let_mil_go.Csrs.Server
use let_mil_go.Mulberry.Sync.{do_sync}
use let_mil_go.Mulberry.Sync.Exact.{address_of, do_sync_exact}
use let_mil_go.Mulberry.Sync.Mirror.{IsNamed, do_sync-register_shard}
use let_mil_go.Mulberry.Sync.Rounds.{
  SyncEvent, elapsed, cancelled, answered, sync_topology, IsWhole, sync_topology-IsWhole,
}

abbrev info : String → String → ShardInfo
info shard_id address = record {
  shard_id = shard_id;
  address = address;
  replica_set = "";
  priority = pos 0;
  status = shard_status_active;
}

-- a topology of one shard
abbrev topology : String → String → TopologyManager
topology shard_id address = record {
  registry = record { shards = GoMap.put GoMap.empty shard_id (info shard_id address) };
  hash_ring = record {
    virtual_nodes = 1;
    ring = 2 ∷ [];
    node_map = record { entries = (2, shard_id) ∷ [] };
    shard_set = record { entries = (shard_id, true) ∷ [] };
  };
  topology_version = 3;
  clock = record { ts = 3 };
}

-- what the router has from before
abbrev known : TopologyManager
known = topology "s2" "host:2"

abbrev announced : Map String String
announced = GoMap.put GoMap.empty "s3" "host:3"

announced_named :
    (id address : String) → GoMap.get announced id ≡ some address → (id ≢ "") × (address ≢ "")
announced_named id address h = elim (Bool-cases ("s3" == id)) [
  | inl same ↦
      let found = rw (get-put, same) at h in
      (
        rw (← (==_iff "s3" id).0 same) (==-differ "s3" "" refl),
        rw (← some-inj found) (==-differ "host:3" "" refl),
      )
  | inr other ↦ absurd (cc (rw (get-put, other) at h, get-empty {V = String} id))
]

do_sync_exact_example :
    ((do_sync len (λ id. 5) known (success announced)).0 ≡ none)
    × ((t : String)
        → address_of (do_sync len (λ id. 5) known (success announced)).1 t ≡ GoMap.get announced t)
do_sync_exact_example =
    do_sync_exact len (λ id. 5) known announced
      (put-IsUnique GoMap.empty "s3" "host:3" empty-IsUnique) announced_named

config-IsNamed : IsNamed (topology "s1" "host:1")
config-IsNamed = record {
  unique = put-IsUnique GoMap.empty "s1" (info "s1" "host:1") empty-IsUnique;
  named = λ id i h. elim (Bool-cases ("s1" == id)) [
    | inl same ↦
        let found = rw (get-put, same) at h in
        (
          rw (← (==_iff "s1" id).0 same) (==-differ "s1" "" refl),
          rw (← some-inj found) (==-differ "host:1" "" refl),
        )
    | inr other ↦ absurd (cc (rw (get-put, other) at h, get-empty {V = ShardInfo} id))
  ];
}

do_sync-register_shard_example :
    address_of
      (do_sync len
        (λ id. 5)
        known
        (success
          (Server.get_shard_address_map
            (Server.register_shard len 7
              (topology "s1" "host:1")
              "s3"
              "host:3"
              ""
              (pos 1)).1).shard_addresses)).1
      "s1"
    ≡ (if ◌==◌ {K = String} "s3" "s1"
        then some "host:3"
        else address_of (topology "s1" "host:1") "s1")
do_sync-register_shard_example =
    do_sync-register_shard len 7 (topology "s1" "host:1") "s3" "host:3" "" (pos 1) (λ id. 5) known
      config-IsNamed (==-differ "s3" "" refl) (==-differ "host:3" "" refl) "s1"

-- the first attempt fails, the second one is answered, then the router is stopped
abbrev events : List SyncEvent
events =
    answered (λ id. 5) (failure (record { code = code_internal; message = "refused" }))
    ∷ elapsed
    ∷ answered (λ id. 6) (success announced)
    ∷ cancelled
    ∷ []

sync_topology-IsWhole_example : IsWhole known events (sync_topology len events known)
sync_topology-IsWhole_example =
    sync_topology-IsWhole len events known (
      tt,
      (tt, ((put-IsUnique GoMap.empty "s3" "host:3" empty-IsUnique, announced_named), (tt, tt))),
    )
