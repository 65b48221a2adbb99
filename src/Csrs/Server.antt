-- ===== src/Csrs/Server.antt =====
-- internal/csrs/server.go: the gRPC server of the topology manager. A handler is given the fields of
-- its request, and returns the response or the error of the topology manager.
use let_mil_go.Common.{ℕ, String, none, some}
use let_mil_go.GoMap.{Map}
use let_mil_go.Rpc.{Try, success, failure}
use let_mil_go.Csrs.Registry.{ShardInfo, ShardStatus, shard_status_active, TopologyError, ℤ}
use let_mil_go.Csrs.{TopologyManager, Outcome}
use let_mil_go.Csrs

pub record AddressMapResponse : Type 0 where
  pub shard_addresses : Map String String
  pub topology_version : ℕ

pub record ShardForKeyResponse : Type 0 where
  pub shard_id : String
  pub address : String

unfoldable pub get_shard_address_map : TopologyManager → AddressMapResponse
get_shard_address_map tm = record {
  shard_addresses = Csrs.get_shard_address_map tm;
  topology_version = Csrs.get_topology_version tm;
}

unfoldable pub get_topology_version : TopologyManager → ℕ
get_topology_version tm = Csrs.get_topology_version tm

-- the pair of a version and an error, as a response
abbrev pub version_or_error : Outcome → Try TopologyError ℕ × TopologyManager
version_or_error ((version, none), tm) = (success version, tm)
version_or_error ((version, some e), tm) = (failure e, tm)

unfoldable pub unregister_shard :
    ℕ → TopologyManager → String → Try TopologyError ℕ × TopologyManager
unregister_shard now tm shard_id = version_or_error (Csrs.remove_shard now tm shard_id)

unfoldable pub update_shard_status :
    ℕ → TopologyManager → String → ShardStatus → Try TopologyError ℕ × TopologyManager
update_shard_status now tm shard_id status =
    version_or_error (Csrs.update_shard_status now tm shard_id status)

unfoldable pub bump_topology_version : ℕ → TopologyManager → ℕ × TopologyManager
bump_topology_version now tm = Csrs.bump_topology_version now tm

module _ (hash : String → ℕ) where
  unfoldable pub get_shard_for_key :
      TopologyManager → String → Try TopologyError ShardForKeyResponse
  get_shard_for_key tm key =
      let (shard_id, no_shard) = Csrs.get_shard_for_key hash tm key in
      let (address, no_address) = Csrs.get_shard_address_for_key hash tm key in
      elim no_shard [
        | some e ↦ failure e
        | none ↦ elim no_address [
          | some e ↦ failure e
          | none ↦ success (record { shard_id = shard_id; address = address })
        ]
      ]

  unfoldable pub register_shard :
      ℕ → TopologyManager → String → String → String → ℤ → Try TopologyError ℕ × TopologyManager
  register_shard now tm shard_id address replica_set priority =
      let info : ShardInfo = record {
        shard_id = shard_id;
        address = address;
        replica_set = replica_set;
        priority = priority;
        status = shard_status_active;
      } in
      version_or_error (Csrs.add_shard hash now tm info)
