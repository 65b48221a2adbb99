-- ===== src/Locks/Invariant.antt =====
-- The invariant of the lock table of lock.go: the two maps mirror one another, a write lock has one
-- holder, and a key without holders is unlocked.
use let_mil_go.Common.{
  ◌≡◌, refl, ◌↔◌, String, true, Option, none, some, nat_eq, string_eq, if◌then◌else◌,
}
use let_mil_go.GoMap.{Map, is_some, get-put, get-delete, get-empty}
use let_mil_go.GoMap
use let_mil_go.GoMap.Size.{len-empty}
use let_mil_go.Locks.{
  LockMode, lock_none, lock_write, LockEntry, LockManager, new_entry, new_lock_manager, holds,
}
use let_mil_go.Locks.View.{entry_of, recorded}

pub record EntryOk (entry : LockEntry) : Type 0 where
  pub sole :
      entry.mode ≡ lock_write → (t u : String) → holds entry t ≡ true → holds entry u ≡ true → t ≡ u
  pub idle : (entry.mode ≡ lock_none) ↔ (GoMap.len entry.holders ≡ 0)

-- the mode in which a transaction holds an entry
abbrev pub held_mode : LockEntry → String → Option LockMode
held_mode entry t = if holds entry t then some entry.mode else none

pub record IsConsistent (m : LockManager) : Type 0 where
  pub entries : (key : String) → EntryOk (entry_of m key)
  pub mirror : (t key : String) → recorded m t key ≡ held_mode (entry_of m key) t

-- The same entries and records, the same invariant.
pub same_view-IsConsistent :
    (m m' : LockManager)
    → ((j : String) → entry_of m' j ≡ entry_of m j)
    → ((t j : String) → recorded m' t j ≡ recorded m t j)
    → IsConsistent m
    → IsConsistent m'
same_view-IsConsistent m m' entries records h = record {
  entries = λ key. rw (entries key) (h.entries key);
  mirror = λ t key. rw (entries key, records t key) (h.mirror t key);
}

new_entry-EntryOk : EntryOk new_entry
new_entry-EntryOk = record { sole = λ e. cc; idle = (λ e. len-empty String (Unit {0}), λ e. refl) }

-- A new lock manager is consistent.
pub new_lock_manager-IsConsistent : IsConsistent new_lock_manager
new_lock_manager-IsConsistent = record {
  entries = λ key. rw (entry_of-new key) new_entry-EntryOk;
  mirror = λ t key.
      rw (entry_of-new key, recorded-new t key) (unfold holds in rw (get-empty {V = Unit {0}} t));
}
  where
    entry_of-new : (key : String) → entry_of new_lock_manager key ≡ new_entry
    entry_of-new key = unfold entry_of new_lock_manager in rw (get-empty {V = LockEntry} key)

    recorded-new : (t key : String) → recorded new_lock_manager t key ≡ none
    recorded-new t key =
        unfold recorded new_lock_manager in
        rw (get-empty {V = Map String LockMode} t) (get-empty {V = LockMode} key)
