-- ===== src/Locks/Exclusion.antt =====
-- What the lock manager of lock.go promises: who may hold what, and what each call changes.
use let_mil_go.Common.{
  ◌≡◌, ◌≢◌, inl, inr, String, Bool, true, false, ◌&&◌, none, some, arith, ◌==◌, ==_iff, nat_eq,
  string_eq, if◌then◌else◌, Bool-cases,
}
use let_mil_go.Errors.{Result, ok, err}
use let_mil_go.GoMap.{is_some}
use let_mil_go.GoMap
use let_mil_go.GoMap.Size.{len-zero_of_get}
use let_mil_go.Locks.{
  LockMode, lock_none, lock_read, lock_write, LockEntry, LockManager, new_lock_manager, holds,
  get_or_create_entry, grant, upgrade, read_on, write_on, acquire_read, acquire_write, release,
  release_key,
}
use let_mil_go.Locks.View.{
  entry_of, recorded, recorded-set_entry, recorded-record_tx_lock, is_holding-recorded,
  get_or_create_entry_lem, recorded-release,
}
use let_mil_go.Locks.Invariant.{IsConsistent, new_lock_manager-IsConsistent}
use let_mil_go.Locks.Grant.{not-holds_of_none}
use let_mil_go.Locks.Acquire.{acquire-IsConsistent, created-IsConsistent}
use let_mil_go.Locks.Release.{release-IsConsistent, release_key-IsConsistent}

-- While one transaction has a write lock on a key, no other has any lock on it.
pub write_excludes :
    (m : LockManager) (t u key : String)
    → IsConsistent m
    → recorded m t key ≡ some lock_write
    → t ≢ u
    → recorded m u key ≡ none
write_excludes m t u key h writes other = elim (Bool-cases (holds (entry_of m key) u)) [
  | inr free ↦ ground (arith, h.mirror u key)
  | inl held ↦ absurd (
      other (
        (h.entries key).sole (ground (arith, h.mirror t key)) t u (ground (arith, h.mirror t key))
          held))
]

-- One call of the lock manager, by any transaction.
pub data Step (m : LockManager) : LockManager → Type 0 where
  reads : (tx_id key : String) → Step m (acquire_read m tx_id key).1
  writes : (tx_id key : String) → Step m (acquire_write m tx_id key).1
  releases : (tx_id : String) → Step m (release m tx_id)
  releases_key : (tx_id key : String) → Step m (release_key m tx_id key)

-- what calls can make of a new lock manager, in any order
pub data Reachable : LockManager → Type 0 where
  start : Reachable new_lock_manager
  step : {m m' : LockManager} → Reachable m → Step m m' → Reachable m'

Step-IsConsistent : {m m' : LockManager} → Step m m' → IsConsistent m → IsConsistent m'
Step-IsConsistent {m} (reads tx_id key) h = (acquire-IsConsistent m tx_id key h).0
Step-IsConsistent {m} (writes tx_id key) h = (acquire-IsConsistent m tx_id key h).1
Step-IsConsistent {m} (releases tx_id) h = release-IsConsistent m tx_id h
Step-IsConsistent {m} (releases_key tx_id key) h = release_key-IsConsistent m tx_id key h

-- Whatever transactions call, in whatever order, the lock table is consistent.
pub Reachable-IsConsistent : {m : LockManager} → Reachable m → IsConsistent m
Reachable-IsConsistent start = new_lock_manager-IsConsistent
Reachable-IsConsistent (step r s) = Step-IsConsistent s (Reachable-IsConsistent r)

-- Whatever calls have been made of a new lock manager, in any order: while one transaction has a
-- write lock on a key, no other has any lock on it.
pub reachable_exclusion :
    {m : LockManager} (t u key : String)
    → Reachable m
    → recorded m t key ≡ some lock_write
    → t ≢ u
    → recorded m u key ≡ none
reachable_exclusion {m} t u key r = write_excludes m t u key (Reachable-IsConsistent r)

abbrev pub succeeded : Result (Unit {0}) → Bool
succeeded (ok _) = true
succeeded (err _) = false

recorded-grant :
    (m : LockManager) (entry : LockEntry) (tx_id key t j : String) (mode : LockMode)
    → recorded (grant m entry tx_id key mode) t j
      ≡ (if tx_id == t && key == j then some mode else recorded m t j)
unfolding grant
recorded-grant m entry tx_id key t j mode = rw recorded-record_tx_lock (rw recorded-set_entry)

recorded-upgrade :
    (m : LockManager) (entry : LockEntry) (tx_id key t j : String)
    → recorded (upgrade m entry tx_id key) t j
      ≡ (if tx_id == t && key == j then some lock_write else recorded m t j)
unfolding upgrade
recorded-upgrade m entry tx_id key t j = rw recorded-record_tx_lock (rw recorded-set_entry)

write_on-recorded :
    (m : LockManager) (tx_id key t j : String)
    → IsConsistent m
    → recorded (write_on m (entry_of m key) tx_id key).1 t j ≡ (
        if succeeded (write_on m (entry_of m key) tx_id key).0 && (tx_id == t && key == j)
        then some lock_write
        else recorded m t j)
unfolding write_on
write_on-recorded m tx_id key t j h = ground (
  arith,
  is_holding-recorded m tx_id key lock_write,
  recorded-grant m (entry_of m key) tx_id key t j lock_write,
  recorded-upgrade m (entry_of m key) tx_id key t j,
  h.mirror tx_id key,
  ==_iff tx_id t,
  ==_iff key j,
)

-- In a consistent lock table `AcquireWrite` gives its transaction a write lock on its key exactly
-- when it succeeds, and changes no lock of any other transaction or key.
pub acquire_write-recorded :
    (m : LockManager) (tx_id key t j : String)
    → IsConsistent m
    → recorded (acquire_write m tx_id key).1 t j ≡ (
        if succeeded (acquire_write m tx_id key).0 && (tx_id == t && key == j)
        then some lock_write
        else recorded m t j)
unfolding acquire_write
acquire_write-recorded m tx_id key t j h =
    let m' = (get_or_create_entry m key).1 in
    let view = get_or_create_entry_lem m key in
    rw (view.0, ← view.2 t j) (write_on-recorded m' tx_id key t j (created-IsConsistent m key h))

read_on-recorded :
    (m : LockManager) (tx_id key t j : String)
    → IsConsistent m
    → recorded (read_on m (entry_of m key) tx_id key).1 t j ≡ (
        if succeeded (read_on m (entry_of m key) tx_id key).0 && (tx_id == t && key == j)
        then (if is_some (recorded m t j) then recorded m t j else some lock_read)
        else recorded m t j)
unfolding read_on
read_on-recorded m tx_id key t j h = ground (
  arith,
  is_holding-recorded m tx_id key lock_write,
  is_holding-recorded m tx_id key lock_read,
  recorded-grant m (entry_of m key) tx_id key t j lock_read,
  h.mirror tx_id key,
  not-holds_of_none (entry_of m key) tx_id (h.entries key),
  ==_iff tx_id t,
  ==_iff key j,
)

-- In a consistent lock table `AcquireRead` gives its transaction a read lock on its key when it
-- succeeds, unless it has a lock there already, and changes no lock of any other transaction or
-- key.
pub acquire_read-recorded :
    (m : LockManager) (tx_id key t j : String)
    → IsConsistent m
    → recorded (acquire_read m tx_id key).1 t j ≡ (
        if succeeded (acquire_read m tx_id key).0 && (tx_id == t && key == j)
        then (if is_some (recorded m t j) then recorded m t j else some lock_read)
        else recorded m t j)
unfolding acquire_read
acquire_read-recorded m tx_id key t j h =
    let m' = (get_or_create_entry m key).1 in
    let view = get_or_create_entry_lem m key in
    rw (view.0, ← view.2 t j) (read_on-recorded m' tx_id key t j (created-IsConsistent m key h))

write_on_unlocked :
    (m : LockManager) (tx_id key : String)
    → (entry_of m key).mode ≡ lock_none
    → (write_on m (entry_of m key) tx_id key).0 ≡ ok tt
unfolding write_on
write_on_unlocked m tx_id key free = ground arith

pub acquire_write_unlocked :
    (m : LockManager) (tx_id key : String)
    → (entry_of m key).mode ≡ lock_none
    → (acquire_write m tx_id key).0 ≡ ok tt
unfolding acquire_write
acquire_write_unlocked m tx_id key free =
    let m' = (get_or_create_entry m key).1 in
    let view = get_or_create_entry_lem m key in
    rw view.0 (write_on_unlocked m' tx_id key (rw (view.1 key) free))

-- In a consistent lock table, when a writer releases its locks, any transaction can take the write
-- lock on its key.
pub acquire_write-release :
    (m : LockManager) (tx_id u key : String)
    → IsConsistent m
    → recorded m tx_id key ≡ some lock_write
    → (acquire_write (release m tx_id) u key).0 ≡ ok tt
acquire_write-release m tx_id u key h owned =
    acquire_write_unlocked (release m tx_id) u key
      ((h'.entries key).idle.1 (len-zero_of_get (entry_of (release m tx_id) key).holders nobody))
  where
    h' : IsConsistent (release m tx_id)
    h' = release-IsConsistent m tx_id h

    unrecorded : (k : String) → recorded (release m tx_id) k key ≡ none
    unrecorded k = rw (recorded-release m tx_id k key) (elim (Bool-cases (tx_id == k)) [
      | inl same ↦ rw same
      | inr other ↦
          rw other (write_excludes m tx_id k key h owned (λ e. ground (arith, ==_iff tx_id k)))
    ])

    unheld :
        (entry : LockEntry) (k : String) → holds entry k ≡ false → GoMap.get entry.holders k ≡ none
    unheld entry k free = unfold holds in ground arith

    nobody : (k : String) → GoMap.get (entry_of (release m tx_id) key).holders k ≡ none
    nobody k =
        let free : holds (entry_of (release m tx_id) key) k ≡ false =
          ground (arith, h'.mirror k key, unrecorded k) in
        unheld _ k free
