-- ===== src/Mulberry/Sync.antt =====
-- cmd/mulberry/main.go: `doSync`, by which a router takes over the addresses of the config server, and
-- the topology that the flag -shards gives it. A change of a shard has the clock's reading `now` of it.
pub mod Exact
pub mod Mirror
pub mod Rounds
use let_mil_go.Common.{
  ℕ, String, Bool, true, false, not, ◌||◌, Option, none, some, List, [], ◌∷◌, ◌==◌, string_eq,
  if◌then◌else◌,
}
use let_mil_go.GoMap.{Map, is_some}
use let_mil_go.GoMap
use let_mil_go.Rpc.{Status, Try, success, failure}
use let_mil_go.Csrs.Registry.{ShardInfo, shard_status_active, pos}
use let_mil_go.Csrs.{TopologyManager}
use let_mil_go.Csrs

-- what is registered of a shard that only has an address
abbrev pub bare_info : String → String → ShardInfo
bare_info shard_id address = record {
  shard_id = shard_id;
  address = address;
  replica_set = "";
  priority = pos 0;
  status = shard_status_active;
}

-- existing, ok := currentShards[shardID]; !ok || existing.Address != addr
abbrev pub has_changed : Option ShardInfo → String → Bool
has_changed none address = true
has_changed (some existing) address = not (existing.address == address)

-- the loop that removes the shards that have gone
unfoldable pub remove_stale :
    (String → ℕ) → Map String String → List String → TopologyManager → TopologyManager
remove_stale now new_shards [] tm = tm
remove_stale now new_shards (shard_id ∷ rest) tm = remove_stale now new_shards rest (
    if is_some (GoMap.get new_shards shard_id)
    then tm
    else (Csrs.remove_shard (now shard_id) tm shard_id).1)

module _ (hash : String → ℕ) (now : String → ℕ) where
  -- the loop that adds the shards that are new or have moved; the errors of `AddShard` are dropped
  unfoldable pub add_changed :
      Map String ShardInfo → List (String × String) → TopologyManager → TopologyManager
  add_changed current_shards [] tm = tm
  add_changed current_shards ((shard_id, address) ∷ rest) tm = add_changed current_shards rest (
      if has_changed (GoMap.get current_shards shard_id) address
      then (Csrs.add_shard hash (now shard_id) tm (bare_info shard_id address)).1
      else tm)

  -- `doSync` with the answer of the config server
  unfoldable pub take_over : TopologyManager → Map String String → TopologyManager
  unfolding add_changed remove_stale
  take_over tm new_shards =
      let current_shards = Csrs.get_all_shards tm in
      remove_stale now new_shards (GoMap.keys current_shards)
        (add_changed current_shards new_shards.entries tm)

  -- `doSync`: the answer, or why there is none
  unfoldable pub do_sync :
      TopologyManager → Try Status (Map String String) → Option Status × TopologyManager
  unfolding take_over
  do_sync tm (failure e) = (some e, tm)
  do_sync tm (success new_shards) = (none, take_over tm new_shards)

  -- the loop over the entries of -shards, split at the first `=`; one without it is passed over
  unfoldable pub add_flagged : List (String × Option String) → TopologyManager → TopologyManager
  add_flagged [] tm = tm
  add_flagged ((shard_id, some address) ∷ rest) tm =
      add_flagged rest (Csrs.add_shard hash (now shard_id) tm (bare_info shard_id address)).1
  add_flagged ((_, none) ∷ rest) tm = add_flagged rest tm
