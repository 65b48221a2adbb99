-- ===== src/Csrs.antt =====
-- internal/csrs/topology_manager.go: the topology of the cluster, made of the registry, the hash ring
-- and a clock that issues its versions. `hash` is the hash of the ring, `now` the physical time.
pub mod Registry
pub mod Ring
pub mod Members
pub mod Server
pub mod Versions
use let_mil_go.Common.{
  ℕ, String, Bool, true, false, ◌==◌, string_eq, nat_eq, Option, none, some, List, [], ◌∷◌, length,
  ltb, if◌then◌else◌,
}
use let_mil_go.GoMap.{Map}
use let_mil_go.GoMap
use let_mil_go.Hlc.{Clock}
use let_mil_go.Hlc
use Registry.{
  ShardInfo, ShardStatus, ShardRegistry, TopologyError, empty_shard_id, empty_address, no_shards,
  shard_not_found, not_in_registry, ℤ,
}
use Registry
use Ring.Replicas.{picked}
use Ring.Replicas
use Ring.{HashRing}
use Ring

pub record TopologyManager : Type 0 where
  pub registry : ShardRegistry
  pub hash_ring : HashRing
  pub topology_version : ℕ
  pub clock : Clock

unfoldable pub new_topology_manager_with_clock : Clock → TopologyManager
new_topology_manager_with_clock clock = record {
  registry = Registry.new_shard_registry;
  hash_ring = Ring.new_hash_ring;
  topology_version = 0;
  clock = clock;
}

unfoldable pub increment_version : ℕ → TopologyManager → TopologyManager
increment_version now tm =
    let (version, clock) = Hlc.tick now tm.clock in
    record tm { topology_version = version; clock = clock }

-- what the operations return: the version and the error, nil where there is none
abbrev pub Outcome : Type 0
Outcome = (ℕ × Option TopologyError) × TopologyManager

-- the version that an operation leaves, without an error
abbrev pub done : TopologyManager → Outcome
done tm = ((tm.topology_version, none), tm)

abbrev pub failed : TopologyManager → TopologyError → Outcome
failed tm e = ((tm.topology_version, some e), tm)

unfoldable pub remove_shard : ℕ → TopologyManager → String → Outcome
unfolding increment_version
remove_shard now tm shard_id =
    let (info, registry) = Registry.unregister tm.registry shard_id in
    elim info [
      | none ↦ failed tm (shard_not_found shard_id)
      | some _ ↦ done (
          increment_version now (record tm {
            registry = registry;
            hash_ring = (Ring.remove_shard tm.hash_ring shard_id).1;
          }))
    ]

unfoldable pub update_shard_status : ℕ → TopologyManager → String → ShardStatus → Outcome
unfolding increment_version
update_shard_status now tm shard_id status =
    let (error, registry) = Registry.update_status tm.registry shard_id status in
    elim error [
      | some e ↦ failed tm e
      | none ↦ done (increment_version now (record tm { registry = registry }))
    ]

unfoldable pub get_shard_info : TopologyManager → String → Option ShardInfo
get_shard_info tm shard_id = Registry.get tm.registry shard_id

unfoldable pub get_all_shards : TopologyManager → Map String ShardInfo
get_all_shards tm = Registry.get_all tm.registry

unfoldable pub get_active_shards : TopologyManager → List ShardInfo
get_active_shards tm = Registry.get_active tm.registry

unfoldable pub get_topology_version : TopologyManager → ℕ
get_topology_version tm = tm.topology_version

unfoldable pub is_version_stale : TopologyManager → ℕ → Bool
is_version_stale tm version = ltb version tm.topology_version

pub record TopologySnapshot : Type 0 where
  pub version : ℕ
  pub shards : Map String ShardInfo

unfoldable pub get_topology_snapshot : TopologyManager → TopologySnapshot
get_topology_snapshot tm = record {
  version = tm.topology_version;
  shards = Registry.get_all tm.registry;
}

unfoldable pub shard_count : TopologyManager → ℕ
shard_count tm = Registry.count tm.registry

-- the loop of `GetShardAddressMap`
unfoldable pub address_map : List (String × ShardInfo) → Map String String → Map String String
address_map [] result = result
address_map ((shard_id, info) ∷ rest) result =
    address_map rest (GoMap.put result shard_id info.address)

unfoldable pub get_shard_address_map : TopologyManager → Map String String
unfolding address_map
get_shard_address_map tm = address_map (Registry.get_all tm.registry).entries GoMap.empty

unfoldable pub bump_topology_version : ℕ → TopologyManager → ℕ × TopologyManager
unfolding increment_version
bump_topology_version now tm = let tm' = increment_version now tm in (tm'.topology_version, tm')

module _ (hash : String → ℕ) where
  unfoldable pub add_shard : ℕ → TopologyManager → ShardInfo → Outcome
  unfolding increment_version
  add_shard now tm info =
      if info.shard_id == ""
      then failed tm empty_shard_id
      else if info.address == ""
      then failed tm empty_address
      else let (is_new, registry) = Registry.register tm.registry info in
        if is_new
        then done (
            increment_version now (record tm {
              registry = registry;
              hash_ring = (Ring.add_shard hash tm.hash_ring info.shard_id).1;
            }))
        else done (record tm { registry = registry })

  unfoldable pub get_shard_for_key : TopologyManager → String → String × Option TopologyError
  get_shard_for_key tm key =
      let shard_id = Ring.get_shard_for_key hash tm.hash_ring key in
      if shard_id == "" then ("", some no_shards) else (shard_id, none)

  unfoldable pub get_shard_address_for_key :
      TopologyManager → String → String × Option TopologyError
  get_shard_address_for_key tm key =
      let shard_id = Ring.get_shard_for_key hash tm.hash_ring key in
      if shard_id == ""
      then ("", some no_shards)
      else let address = Registry.get_address tm.registry shard_id in
        if address == "" then ("", some (not_in_registry shard_id)) else (address, none)

  -- `none` where the walk round the ring does not end or panics
  unfoldable pub get_n_shards_for_key :
      ℕ → TopologyManager → String → ℤ → Option (List String × Option TopologyError)
  get_n_shards_for_key fuel tm key n = elim (Replicas.get_n_shards hash fuel tm.hash_ring key n) [
    | picked shards ↦ if length shards == 0 then some ([], some no_shards) else some (shards, none)
    | _ ↦ none
  ]
