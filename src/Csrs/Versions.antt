-- ===== src/Csrs/Versions.antt =====
-- The versions of the topology of topology_manager.go, which routers compare with `IsVersionStale`.
use let_mil_go.Common.{
  ℕ, suc, ◌^◌, ◌≤◌, ◌<◌, ◌≡◌, ◌≢◌, refl, String, true, none, some, arith, ==-refl, ==-ne, string_eq,
}
use let_mil_go.GoMap.{is_some, get-put}
use let_mil_go.GoMap
use let_mil_go.Hlc.{tick, u64_mod}
use let_mil_go.Hlc.Issued.{ts-tick}
use let_mil_go.Hlc.Order.{tick-eq-max}
use let_mil_go.Csrs.Registry.{ShardInfo, ShardStatus, shard_not_found}
use let_mil_go.Csrs.Registry
use let_mil_go.Csrs.Ring
use let_mil_go.Csrs.{TopologyManager, increment_version, is_version_stale}
use let_mil_go.Csrs

-- no version is above the last timestamp of the clock
pub record IsCurrent (tm : TopologyManager) : Type 0 where
  pub issued : tm.topology_version ≤ tm.clock.ts

-- A new version is above the old one, so that a router which holds the old one finds it stale, and
-- is again the last timestamp of the clock, as long as the time fits 48 bits and the clock is not
-- at its end.
pub increment_version_lem :
    (now : ℕ) (tm : TopologyManager)
    → IsCurrent tm
    → now < 2 ^ 48
    → suc tm.clock.ts < u64_mod
    → (tm.topology_version < (increment_version now tm).topology_version)
      × (is_version_stale (increment_version now tm) tm.topology_version ≡ true)
      × IsCurrent (increment_version now tm)
unfolding increment_version is_version_stale
increment_version_lem now tm h early room =
    let next = tick-eq-max now tm.clock early room in
    let kept = ts-tick now tm.clock in
    let above : tm.topology_version < (tick now tm.clock).0 = omega (arith, h.issued) in
    (above, ground arith, record { issued = omega (arith, kept) })

-- Removing a registered shard, and changing its status, give a version above the old one, as long as
-- the time fits 48 bits and the clock is not at its end.
pub change_known_shard :
    (now : ℕ) (tm : TopologyManager) (t : String) (status : ShardStatus) (info : ShardInfo)
    → IsCurrent tm
    → now < 2 ^ 48
    → suc tm.clock.ts < u64_mod
    → Registry.get tm.registry t ≡ some info
    → (tm.topology_version < (Csrs.remove_shard now tm t).1.topology_version)
      × (tm.topology_version < (Csrs.update_shard_status now tm t status).1.topology_version)
unfolding Csrs.remove_shard Csrs.update_shard_status Registry.unregister Registry.update_status
    Registry.get
change_known_shard now tm t status info h early room found =
    let removed : TopologyManager = record tm {
      registry = record { shards = GoMap.delete tm.registry.shards t };
      hash_ring = (Ring.remove_shard tm.hash_ring t).1;
    } in
    let updated : TopologyManager = record tm {
      registry = record {
        shards = GoMap.put tm.registry.shards t (record info { status = status });
      };
    } in
    (
      rw (Csrs.remove_shard, Registry.unregister, found)
          (increment_version_lem now removed (record { issued = h.issued }) early room).0,
      rw (Csrs.update_shard_status, Registry.update_status, found)
          (increment_version_lem now updated (record { issued = h.issued }) early room).0,
    )

-- Removing a shard that is not registered, and changing its status, are reported and change nothing.
pub change_unknown_shard :
    (now : ℕ) (tm : TopologyManager) (t : String) (status : ShardStatus)
    → Registry.get tm.registry t ≡ none
    → (Csrs.remove_shard now tm t ≡ ((tm.topology_version, some (shard_not_found t)), tm))
      × (Csrs.update_shard_status now tm t status
          ≡ ((tm.topology_version, some (shard_not_found t)), tm))
unfolding Csrs.remove_shard Csrs.update_shard_status Registry.unregister Registry.update_status
    Registry.get
change_unknown_shard now tm t status missing =
    (rw (missing, Csrs.remove_shard) refl, rw (missing, Csrs.update_shard_status) refl)

-- Registering a shard again replaces what the registry says of it, its address too, and leaves the
-- version as it was.
pub add_shard_again :
    (hash : String → ℕ) (now : ℕ) (tm : TopologyManager) (info : ShardInfo)
    → info.shard_id ≢ ""
    → info.address ≢ ""
    → is_some (Registry.get tm.registry info.shard_id) ≡ true
    → (Registry.get (Csrs.add_shard hash now tm info).1.registry info.shard_id ≡ some info)
      × ((Csrs.add_shard hash now tm info).1.topology_version ≡ tm.topology_version)
unfolding Csrs.add_shard Registry.register Registry.get
add_shard_again hash now tm info named addressed old = ground (
  arith,
  ==-ne info.shard_id "" named,
  ==-ne info.address "" addressed,
  get-put tm.registry.shards info.shard_id info.shard_id info,
  ==-refl info.shard_id,
)
