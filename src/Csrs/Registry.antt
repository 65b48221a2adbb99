-- ===== src/Csrs/Registry.antt =====
-- internal/csrs/shard_info.go: the registry of the shards. `UpdateStatus` changes a registered record
-- through its pointer: the changed record is put back under its key.
use let_mil_go.Common.{
  ℕ, String, Bool, true, false, not, Option, none, some, List, [], ◌∷◌, string_eq, if◌then◌else◌,
}
use let_mil_go.GoMap.{Map, is_some}
use let_mil_go.GoMap

pub data ShardStatus : Type 0 where
  shard_status_unknown shard_status_active shard_status_draining shard_status_offline : ShardStatus

unfoldable pub status_name : ShardStatus → String
status_name shard_status_active = "ACTIVE"
status_name shard_status_draining = "DRAINING"
status_name shard_status_offline = "OFFLINE"
status_name shard_status_unknown = "UNKNOWN"

-- Go's `int`
pub data ℤ : Type 0 where
  pos negsuc : ℕ → ℤ

pub record ShardInfo : Type 0 where
  pub shard_id : String
  pub address : String
  pub replica_set : String
  pub priority : ℤ
  pub status : ShardStatus

pub record ShardRegistry : Type 0 where
  pub shards : Map String ShardInfo

-- the errors of shard_info.go and topology_manager.go
pub data TopologyError : Type 0 where
  empty_shard_id empty_address no_shards : TopologyError
  shard_not_found not_in_registry : String → TopologyError

unfoldable pub new_shard_registry : ShardRegistry
new_shard_registry = record { shards = GoMap.empty }

unfoldable pub register : ShardRegistry → ShardInfo → Bool × ShardRegistry
register r info = (
  not (is_some (GoMap.get r.shards info.shard_id)),
  record { shards = GoMap.put r.shards info.shard_id info },
)

unfoldable pub unregister : ShardRegistry → String → Option ShardInfo × ShardRegistry
unregister r shard_id = elim (GoMap.get r.shards shard_id) [
  | none ↦ (none, r)
  | some info ↦ (some info, record { shards = GoMap.delete r.shards shard_id })
]

unfoldable pub get : ShardRegistry → String → Option ShardInfo
get r shard_id = GoMap.get r.shards shard_id

unfoldable pub get_address : ShardRegistry → String → String
get_address r shard_id = elim (GoMap.get r.shards shard_id) [ some info ↦ info.address | none ↦ "" ]

abbrev is_active : ShardStatus → Bool
is_active shard_status_active = true
is_active _ = false

-- the loop of `GetActive`
actives : List ShardInfo → List ShardInfo
actives [] = []
actives (info ∷ rest) =
    let active = actives rest in if is_active info.status then info ∷ active else active

unfoldable pub get_active : ShardRegistry → List ShardInfo
unfolding actives
get_active r = actives (GoMap.values r.shards)

-- a copy of the map
unfoldable pub get_all : ShardRegistry → Map String ShardInfo
get_all r = r.shards

unfoldable pub count : ShardRegistry → ℕ
count r = GoMap.len r.shards

unfoldable pub update_status :
    ShardRegistry → String → ShardStatus → Option TopologyError × ShardRegistry
update_status r shard_id status = elim (GoMap.get r.shards shard_id) [
  | none ↦ (some (shard_not_found shard_id), r)
  | some info ↦
      (none, record { shards = GoMap.put r.shards shard_id (record info { status = status }) })
]
