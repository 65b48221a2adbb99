-- ===== src/Csrs/Members.antt =====
-- The shards in the registry and on the hash ring of topology_manager.go, along its operations.
use let_mil_go.Common.{
  ℕ, ◌≡◌, refl, inl, inr, String, Bool, false, ◌||◌, arith, ◌==◌, ==_iff, string_eq, if◌then◌else◌,
  Bool-cases, Option-cases,
}
use let_mil_go.GoMap.{Map, is_some, get-put, get-delete, get-empty}
use let_mil_go.GoMap
use let_mil_go.Hlc.{Clock}
use let_mil_go.Csrs.Registry.{ShardInfo, ShardStatus, ShardRegistry}
use let_mil_go.Csrs.Registry
use let_mil_go.Csrs.Ring.{HashRing, contains, or_false}
use let_mil_go.Csrs.Ring
use let_mil_go.Csrs.{TopologyManager}
use let_mil_go.Csrs

-- a ring has a shard after `AddShard` and `RemoveShard`
contains-add_shard :
    (hash : String → ℕ) (h : HashRing) (t u : String)
    → contains (Ring.add_shard hash h t).1 u ≡ (t == u || contains h u)
unfolding Ring.add_shard contains
contains-add_shard hash h t u = elim (Bool-cases (contains h t)) [
  | inl old ↦ rw old (ground (arith, ==_iff t u))
  | inr new ↦ rw (new, get-put) (ground (arith, ==_iff t u))
]

contains-remove_shard :
    (h : HashRing) (t u : String)
    → contains (Ring.remove_shard h t).1 u ≡ (if t == u then false else contains h u)
unfolding Ring.remove_shard contains
contains-remove_shard h t u = elim (Bool-cases (contains h t)) [
  | inr missing ↦ rw missing (ground (arith, ==_iff t u))
  | inl old ↦ rw (old, get-delete) (ground (arith, ==_iff t u))
]

-- the ring has exactly the registered shards
pub record IsSynced (tm : TopologyManager) : Type 0 where
  pub members : (t : String) → contains tm.hash_ring t ≡ is_some (Registry.get tm.registry t)

pub new_topology_manager-IsSynced :
    (clock : Clock) → IsSynced (Csrs.new_topology_manager_with_clock clock)
unfolding Csrs.new_topology_manager_with_clock Ring.new_hash_ring Ring.new_hash_ring_with_vnodes
    Registry.new_shard_registry Registry.get contains
new_topology_manager-IsSynced clock = record {
  members = λ t. rw (get-empty {V = Bool} t, get-empty {V = ShardInfo} t) refl;
}

-- the calls that change the topology; the first number is the physical time
pub data Change : Type 0 where
  adds : ℕ → ShardInfo → Change
  removes : ℕ → String → Change
  updates : ℕ → String → ShardStatus → Change
  bumps : ℕ → Change

unfoldable pub change : (String → ℕ) → Change → TopologyManager → TopologyManager
change hash (adds now info) tm = (Csrs.add_shard hash now tm info).1
change hash (removes now t) tm = (Csrs.remove_shard now tm t).1
change hash (updates now t status) tm = (Csrs.update_shard_status now tm t status).1
change hash (bumps now) tm = (Csrs.bump_topology_version now tm).1

add_shard-IsSynced :
    (hash : String → ℕ) (now : ℕ) (tm : TopologyManager) (info : ShardInfo)
    → IsSynced tm
    → IsSynced (Csrs.add_shard hash now tm info).1
unfolding Csrs.add_shard Csrs.increment_version Registry.register Registry.get
add_shard-IsSynced hash now tm info h = record {
  members = λ t. ground (
    arith,
    h.members t,
    h.members info.shard_id,
    contains-add_shard hash tm.hash_ring info.shard_id t,
    get-put tm.registry.shards info.shard_id t info,
    ==_iff info.shard_id t,
  );
}

remove_shard-IsSynced :
    (now : ℕ) (tm : TopologyManager) (t : String)
    → IsSynced tm
    → IsSynced (Csrs.remove_shard now tm t).1
unfolding Csrs.remove_shard Csrs.increment_version Registry.unregister Registry.get
remove_shard-IsSynced now tm t h = elim (Option-cases (GoMap.get tm.registry.shards t)) [
  | inl missing ↦ rw (missing, Csrs.remove_shard) h
  | inr (info, found) ↦
      rw (found, Csrs.remove_shard)
        (record {
          members = λ u. ground (
            arith,
            h.members u,
            contains-remove_shard tm.hash_ring t u,
            get-delete tm.registry.shards t u,
          );
        })
]

update_shard_status-IsSynced :
    (now : ℕ) (tm : TopologyManager) (t : String) (status : ShardStatus)
    → IsSynced tm
    → IsSynced (Csrs.update_shard_status now tm t status).1
unfolding Csrs.update_shard_status Csrs.increment_version Registry.update_status Registry.get
update_shard_status-IsSynced now tm t status h =
    elim (Option-cases (GoMap.get tm.registry.shards t)) [
      | inl missing ↦ rw (missing, Csrs.update_shard_status) h
      | inr (info, found) ↦
          rw (found, Csrs.update_shard_status)
            (record {
              members = λ u.
                  rw (Registry.update_status, found, get-put)
                    (ground (arith, h.members u, ==_iff t u, found));
            })
    ]

-- Every change of the topology keeps the ring's shards the registered ones, on every branch, errors
-- included.
pub change-IsSynced :
    (hash : String → ℕ) (c : Change) (tm : TopologyManager)
    → IsSynced tm
    → IsSynced (change hash c tm)
unfolding change
change-IsSynced hash (adds now info) tm h = add_shard-IsSynced hash now tm info h
change-IsSynced hash (removes now t) tm h = remove_shard-IsSynced now tm t h
change-IsSynced hash (updates now t status) tm h = update_shard_status-IsSynced now tm t status h
change-IsSynced hash (bumps now) tm h =
    unfold Csrs.bump_topology_version Csrs.increment_version in record { members = h.members }
