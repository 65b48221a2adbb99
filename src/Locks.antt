-- ===== src/Locks.antt =====
-- internal/shard/component/lock.go: the lock manager. The mutex makes each method one step. An entry
-- that the source changes through its pointer is put back into the map.
pub mod View
pub mod Invariant
pub mod Grant
pub mod Acquire
pub mod Release
pub mod Exclusion
use let_mil_go.Common.{
  ℕ, String, Bool, true, false, ◌&&◌, ◌||◌, Option, none, some, List, [], ◌∷◌, ◌==◌, nat_eq,
  string_eq, if◌then◌else◌,
}
use let_mil_go.Errors.{Result, ok, err, lock_conflict}
use let_mil_go.GoMap.{Map, is_some}
use let_mil_go.GoMap

pub data LockMode : Type 0 where
  lock_none lock_read lock_write : LockMode

-- `LockMode.String`; the default branch is for an int outside the enumeration
unfoldable pub mode_string : LockMode → String
mode_string lock_none = "NONE"
mode_string lock_read = "READ"
mode_string lock_write = "WRITE"

abbrev pub mode_eq : LockMode → LockMode → Bool
mode_eq lock_none lock_none = true
mode_eq lock_read lock_read = true
mode_eq lock_write lock_write = true
mode_eq _ _ = false

pub record LockEntry : Type 0 where
  pub mode : LockMode
  pub holders : Map String (Unit {0})
  pub waiters : List String

pub record LockManager : Type 0 where
  pub locks : Map String LockEntry
  pub tx_locks : Map String (Map String LockMode)

unfoldable pub new_lock_manager : LockManager
new_lock_manager = record { locks = GoMap.empty; tx_locks = GoMap.empty }

abbrev pub new_entry : LockEntry
new_entry = record { mode = lock_none; holders = GoMap.empty; waiters = [] }

unfoldable pub holds : LockEntry → String → Bool
holds entry tx_id = is_some (GoMap.get entry.holders tx_id)

-- the pointer that a handler works on is an entry of the map: a change is put back
unfoldable pub set_entry : LockManager → String → LockEntry → LockManager
set_entry m key entry = record m { locks = GoMap.put m.locks key entry }

unfoldable pub get_or_create_entry : LockManager → String → LockEntry × LockManager
get_or_create_entry m key = elim (GoMap.get m.locks key) [
  | none ↦ (new_entry, set_entry m key new_entry)
  | some entry ↦ (entry, m)
]

unfoldable pub is_holding : LockManager → String → String → LockMode → Bool
is_holding m tx_id key mode = elim (GoMap.get m.tx_locks tx_id) [
  | none ↦ false
  | some locks ↦ elim (GoMap.get locks key) [
    | none ↦ false
    | some held ↦ mode_eq held mode || (mode_eq mode lock_read && mode_eq held lock_write)
  ]
]

-- txLocks[txId], made where it is missing
abbrev pub or_new_locks : Option (Map String LockMode) → Map String LockMode
or_new_locks none = GoMap.empty
or_new_locks (some locks) = locks

unfoldable pub record_tx_lock : LockManager → String → String → LockMode → LockManager
record_tx_lock m tx_id key mode = record m {
  tx_locks =
      GoMap.put m.tx_locks tx_id (GoMap.put (or_new_locks (GoMap.get m.tx_locks tx_id)) key mode);
}

-- entry.mode = mode; entry.holders[txId] = struct{}{}; m.recordTxLock(txId, key, mode)
unfoldable pub grant : LockManager → LockEntry → String → String → LockMode → LockManager
grant m entry tx_id key mode =
    let entry' = record entry { mode = mode; holders = GoMap.put entry.holders tx_id tt } in
    record_tx_lock (set_entry m key entry') tx_id key mode

-- `AcquireRead`, once the entry is there
unfoldable pub read_on : LockManager → LockEntry → String → String → Result (Unit {0}) × LockManager
read_on m entry tx_id key =
    if is_holding m tx_id key lock_read || is_holding m tx_id key lock_write
    then (ok tt, m)
    else if mode_eq entry.mode lock_none || mode_eq entry.mode lock_read
    then (ok tt, grant m entry tx_id key lock_read)
    else if holds entry tx_id
    then (ok tt, m)
    else (err lock_conflict, m)

unfoldable pub acquire_read : LockManager → String → String → Result (Unit {0}) × LockManager
acquire_read m tx_id key = let (entry, m') = get_or_create_entry m key in read_on m' entry tx_id key

-- entry.mode = LockWrite; m.recordTxLock(txId, key, LockWrite)
unfoldable pub upgrade : LockManager → LockEntry → String → String → LockManager
upgrade m entry tx_id key =
    record_tx_lock (set_entry m key (record entry { mode = lock_write })) tx_id key lock_write

-- `AcquireWrite`, once the entry is there
unfoldable pub write_on :
    LockManager → LockEntry → String → String → Result (Unit {0}) × LockManager
write_on m entry tx_id key =
    if is_holding m tx_id key lock_write
    then (ok tt, m)
    else if mode_eq entry.mode lock_none
    then (ok tt, grant m entry tx_id key lock_write)
    else if mode_eq entry.mode lock_read
    then if GoMap.len entry.holders == 1 && holds entry tx_id
      then (ok tt, upgrade m entry tx_id key)
      else (err lock_conflict, m)
    else if holds entry tx_id
    then (ok tt, m)
    else (err lock_conflict, m)

unfoldable pub acquire_write : LockManager → String → String → Result (Unit {0}) × LockManager
acquire_write m tx_id key =
    let (entry, m') = get_or_create_entry m key in write_on m' entry tx_id key

-- delete(entry.holders, txId); if len(entry.holders) == 0 { entry.mode = LockNone }
unfoldable pub drop_holder : String → LockEntry → LockEntry
drop_holder tx_id entry =
    let rest = GoMap.delete entry.holders tx_id in
    record entry { holders = rest; mode = if GoMap.len rest == 0 then lock_none else entry.mode }

-- the body of the loop of `Release`, for one key
unfoldable pub release_entry : LockManager → String → String → LockManager
release_entry m tx_id key = elim (GoMap.get m.locks key) [
  | none ↦ m
  | some entry ↦ set_entry m key (drop_holder tx_id entry)
]

unfoldable pub release_entries : LockManager → String → List String → LockManager
unfolding release_entry
release_entries m tx_id [] = m
release_entries m tx_id (key ∷ rest) = release_entries (release_entry m tx_id key) tx_id rest

unfoldable pub release : LockManager → String → LockManager
unfolding release_entries
release m tx_id = elim (GoMap.get m.tx_locks tx_id) [
  | none ↦ m
  | some locks ↦
      let m' = release_entries m tx_id (GoMap.keys locks) in
      record m' { tx_locks = GoMap.delete m'.tx_locks tx_id }
]

-- if locks, ok := m.txLocks[txId]; ok { delete(locks, key) }
unfoldable pub forget_key : LockManager → String → String → LockManager
forget_key m tx_id key = elim (GoMap.get m.tx_locks tx_id) [
  | none ↦ m
  | some locks ↦ record m { tx_locks = GoMap.put m.tx_locks tx_id (GoMap.delete locks key) }
]

unfoldable pub release_key : LockManager → String → String → LockManager
unfolding forget_key
release_key m tx_id key = elim (GoMap.get m.locks key) [
  | none ↦ m
  | some entry ↦ forget_key (set_entry m key (drop_holder tx_id entry)) tx_id key
]

unfoldable pub get_lock_mode : LockManager → String → LockMode
get_lock_mode m key = elim (GoMap.get m.locks key) [ none ↦ lock_none | some entry ↦ entry.mode ]

-- a copy of the map; nil where the transaction has none
unfoldable pub get_tx_locks : LockManager → String → Option (Map String LockMode)
get_tx_locks m tx_id = GoMap.get m.tx_locks tx_id

unfoldable pub is_locked : LockManager → String → Bool
is_locked m key = elim (GoMap.get m.locks key) [
  | none ↦ false
  | some entry ↦ if mode_eq entry.mode lock_none then false else true
]
