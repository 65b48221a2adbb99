-- ===== src/Locks/View.antt =====
-- What each step of lock.go does to the entry of a key and to the lock that a transaction has on it.
use let_mil_go.Common.{
  ◌≡◌, refl, sym, ◌∙◌, inl, inr, String, false, ◌&&◌, ◌||◌, Option, none, some, List, [], ◌∷◌,
  arith, ◌==◌, ==_iff, ==-refl, nat_eq, string_eq, if◌then◌else◌, Bool-cases, Option-cases,
}
use let_mil_go.GoMap.{Map, is_some, get-put, get-delete, get-empty, delete-delete, delete-empty}
use let_mil_go.GoMap
use let_mil_go.GoMap.Unique.{elem, elem-keys}
use let_mil_go.Locks.{
  LockMode, lock_read, lock_write, LockEntry, LockManager, new_entry, holds, set_entry,
  get_or_create_entry, is_holding, or_new_locks, record_tx_lock, drop_holder, release_entry,
  release_entries, release, forget_key, mode_eq,
}

abbrev pub or_new_entry : Option LockEntry → LockEntry
or_new_entry none = new_entry
or_new_entry (some entry) = entry

-- the entry of a key, a fresh one where there is none
unfoldable pub entry_of : LockManager → String → LockEntry
entry_of m key = or_new_entry (GoMap.get m.locks key)

-- the mode that a transaction has recorded for a key
unfoldable pub recorded : LockManager → String → String → Option LockMode
recorded m tx_id key = GoMap.get (or_new_locks (GoMap.get m.tx_locks tx_id)) key

pub entry_of-set_entry :
    (m : LockManager) (key j : String) (entry : LockEntry)
    → entry_of (set_entry m key entry) j ≡ (if key == j then entry else entry_of m j)
unfolding entry_of set_entry
entry_of-set_entry m key j entry = rw get-put (ground arith)

pub recorded-set_entry :
    (m : LockManager) (key tx_id j : String) (entry : LockEntry)
    → recorded (set_entry m key entry) tx_id j ≡ recorded m tx_id j
unfolding recorded set_entry
recorded-set_entry m key tx_id j entry = refl

pub entry_of-record_tx_lock :
    (m : LockManager) (tx_id key j : String) (mode : LockMode)
    → entry_of (record_tx_lock m tx_id key mode) j ≡ entry_of m j
unfolding entry_of record_tx_lock
entry_of-record_tx_lock m tx_id key j mode = refl

pub recorded-record_tx_lock :
    (m : LockManager) (tx_id key t j : String) (mode : LockMode)
    → recorded (record_tx_lock m tx_id key mode) t j
      ≡ (if tx_id == t && key == j then some mode else recorded m t j)
unfolding recorded record_tx_lock
recorded-record_tx_lock m tx_id key t j mode = elim (Bool-cases (tx_id == t)) [
  | inl same ↦ rw (get-put, same, get-put, (==_iff tx_id t).0 same) (ground arith)
  | inr other ↦ rw (get-put, other)
]

pub is_holding-recorded :
    (m : LockManager) (tx_id key : String) (mode : LockMode)
    → is_holding m tx_id key mode ≡ (elim (recorded m tx_id key) [
      | none ↦ false
      | some held ↦ mode_eq held mode || (mode_eq mode lock_read && mode_eq held lock_write)
    ])
unfolding is_holding recorded
is_holding-recorded m tx_id key mode = ground (arith, get-empty {V = LockMode} key)

-- Creating the entry changes neither view.
pub get_or_create_entry_lem :
    (m : LockManager) (key : String)
    → ((get_or_create_entry m key).0 ≡ entry_of (get_or_create_entry m key).1 key)
      × ((j : String) → entry_of (get_or_create_entry m key).1 j ≡ entry_of m j)
      × ((t j : String) → recorded (get_or_create_entry m key).1 t j ≡ recorded m t j)
unfolding get_or_create_entry entry_of
get_or_create_entry_lem m key = elim (Option-cases (GoMap.get m.locks key)) [
  | inl missing ↦
      rw (missing, get_or_create_entry)
        (
          sym (entry_of-set_entry m key key new_entry ∙ rw (==-refl key)),
          λ j. rw (entry_of-set_entry m key j new_entry) (ground (arith, ==_iff key j)),
          λ t j. recorded-set_entry m key t j new_entry,
        )
  | inr (entry, found) ↦ rw (found, get_or_create_entry) (rw found, λ j. refl, λ t j. refl)
]

pub holds-drop_holder :
    (tx_id t : String) (entry : LockEntry)
    → holds (drop_holder tx_id entry) t ≡ (if tx_id == t then false else holds entry t)
unfolding holds drop_holder
holds-drop_holder tx_id t entry = rw get-delete (ground arith)

drop_holder-new_entry : (tx_id : String) → drop_holder tx_id new_entry ≡ new_entry
unfolding drop_holder
drop_holder-new_entry tx_id = rw (delete-empty {V = Unit {0}} tx_id) (ground arith)

drop_holder_twice :
    (tx_id : String) (entry : LockEntry)
    → drop_holder tx_id (drop_holder tx_id entry) ≡ drop_holder tx_id entry
unfolding drop_holder
drop_holder_twice tx_id entry = rw (delete-delete entry.holders tx_id) (ground arith)

entry_of-release_entry :
    (m : LockManager) (tx_id key j : String)
    → entry_of (release_entry m tx_id key) j
      ≡ (if key == j then drop_holder tx_id (entry_of m j) else entry_of m j)
unfolding release_entry
entry_of-release_entry m tx_id key j = elim (Option-cases (GoMap.get m.locks key)) [
  | inl missing ↦
      rw (missing, release_entry)
        (ground (arith, ==_iff key j, missing_entry missing, drop_holder-new_entry tx_id))
  | inr (entry, found) ↦
      rw (found, release_entry, entry_of-set_entry m key j (drop_holder tx_id entry))
        (ground (arith, ==_iff key j, found_entry entry found))
]
  where
    missing_entry : GoMap.get m.locks key ≡ none → entry_of m key ≡ new_entry
    missing_entry e = unfold entry_of in rw e

    found_entry : (entry : LockEntry) → GoMap.get m.locks key ≡ some entry → entry_of m key ≡ entry
    found_entry entry e = unfold entry_of in rw e

tx_locks-release_entry :
    (m : LockManager) (tx_id key : String) → (release_entry m tx_id key).tx_locks ≡ m.tx_locks
unfolding release_entry set_entry
tx_locks-release_entry m tx_id key = ground arith

tx_locks-release_entries :
    (m : LockManager) (tx_id : String) (ks : List String)
    → (release_entries m tx_id ks).tx_locks ≡ m.tx_locks
unfolding release_entries
tx_locks-release_entries m tx_id [] = refl
tx_locks-release_entries m tx_id (key ∷ rest) =
    tx_locks-release_entries (release_entry m tx_id key) tx_id rest
    ∙ tx_locks-release_entry m tx_id key

entry_of-release_entries :
    (m : LockManager) (tx_id j : String) (ks : List String)
    → entry_of (release_entries m tx_id ks) j
      ≡ (if elem j ks then drop_holder tx_id (entry_of m j) else entry_of m j)
unfolding release_entries
entry_of-release_entries m tx_id j [] = refl
entry_of-release_entries m tx_id j (key ∷ rest) =
    rw
      (
        entry_of-release_entries (release_entry m tx_id key) tx_id j rest,
        entry_of-release_entry m tx_id key j,
      )
      (ground (arith, ==_iff key j, drop_holder_twice tx_id (entry_of m j)))

-- `Release` drops the transaction from the entry of each key that it has recorded.
pub entry_of-release :
    (m : LockManager) (tx_id j : String)
    → entry_of (release m tx_id) j
      ≡ (if is_some (recorded m tx_id j) then drop_holder tx_id (entry_of m j) else entry_of m j)
unfolding release recorded
entry_of-release m tx_id j = elim (Option-cases (GoMap.get m.tx_locks tx_id)) [
  | inl missing ↦ rw (missing, release) (rw (get-empty {V = LockMode} j))
  | inr (locks, found) ↦
      rw (found, release)
        (rw (← elem-keys locks j)
          (unfold entry_of in entry_of-release_entries m tx_id j (GoMap.keys locks)))
]

pub recorded-release :
    (m : LockManager) (tx_id t j : String)
    → recorded (release m tx_id) t j ≡ (if tx_id == t then none else recorded m t j)
unfolding release recorded
recorded-release m tx_id t j = elim (Option-cases (GoMap.get m.tx_locks tx_id)) [
  | inl missing ↦
      rw (missing, release)
        (elim (Bool-cases (tx_id == t)) [
          | inl same ↦ rw (same, ← (==_iff tx_id t).0 same, missing) (get-empty {V = LockMode} j)
          | inr other ↦ rw other
        ])
  | inr (locks, found) ↦
      rw (found, release, tx_locks-release_entries, get-delete)
        (elim (Bool-cases (tx_id == t)) [
          | inl same ↦ rw same (get-empty {V = LockMode} j)
          | inr other ↦ rw other
        ])
]

pub recorded-forget_key :
    (m : LockManager) (tx_id key t j : String)
    → recorded (forget_key m tx_id key) t j
      ≡ (if tx_id == t && key == j then none else recorded m t j)
unfolding forget_key recorded
recorded-forget_key m tx_id key t j = elim (Option-cases (GoMap.get m.tx_locks tx_id)) [
  | inl missing ↦
      rw (missing, forget_key)
        (elim (Bool-cases (tx_id == t)) [
          | inl same ↦
              rw (same, ← (==_iff tx_id t).0 same, missing, get-empty {V = LockMode} j)
                (ground arith)
          | inr other ↦ rw other
        ])
  | inr (locks, found) ↦
      rw (found, forget_key, get-put)
        (elim (Bool-cases (tx_id == t)) [
          | inl same ↦ rw (same, ← (==_iff tx_id t).0 same, found, get-delete)
          | inr other ↦ rw other
        ])
]

pub entry_of-forget_key :
    (m : LockManager) (tx_id key j : String) → entry_of (forget_key m tx_id key) j ≡ entry_of m j
unfolding forget_key entry_of
entry_of-forget_key m tx_id key j = ground arith
