-- ===== src/Locks/Release.antt =====
-- `Release` and `ReleaseKey` of lock.go, and the invariant of the lock table.
use let_mil_go.Common.{
  ◌≡◌, inl, inr, String, true, none, arith, ◌==◌, ==_iff, nat_eq, string_eq, if◌then◌else◌,
  Bool-cases, Option-cases,
}
use let_mil_go.GoMap.{Map, is_some, get-put, get-delete, get-empty}
use let_mil_go.GoMap
use let_mil_go.GoMap.Size.{len-pos, len-delete-le}
use let_mil_go.Locks.{
  lock_write, LockEntry, LockManager, holds, set_entry, drop_holder, release, forget_key,
  release_key,
}
use let_mil_go.Locks.View.{
  entry_of, recorded, entry_of-set_entry, recorded-set_entry, holds-drop_holder, entry_of-release,
  recorded-release, recorded-forget_key, entry_of-forget_key,
}
use let_mil_go.Locks.Invariant.{EntryOk, held_mode, IsConsistent}

drop_holder-EntryOk :
    (tx_id : String) (entry : LockEntry) → EntryOk entry → EntryOk (drop_holder tx_id entry)
drop_holder-EntryOk tx_id entry h = record {
  sole = λ e t u p q.
      h.sole (mode_before e) t u (ground (arith, holds-drop_holder tx_id t entry))
        (ground (arith, holds-drop_holder tx_id u entry));
  idle = unfold drop_holder in (λ e. ground (arith, len-delete-le entry.holders tx_id), λ e. rw e);
}
  where
    mode_before : (drop_holder tx_id entry).mode ≡ lock_write → entry.mode ≡ lock_write
    mode_before = unfold drop_holder in λ e. ground arith

-- A holder that is left keeps the entry in its mode.
mode-drop_holder :
    (tx_id t : String) (entry : LockEntry)
    → holds (drop_holder tx_id entry) t ≡ true
    → (drop_holder tx_id entry).mode ≡ entry.mode
unfolding holds drop_holder
mode-drop_holder tx_id t entry p =
    elim (Option-cases (GoMap.get (GoMap.delete entry.holders tx_id) t)) [
      | inl missing ↦ ground arith
      | inr (v, found) ↦ ground (arith, len-pos (GoMap.delete entry.holders tx_id) t v found)
    ]

held_mode-drop_holder :
    (tx_id t : String) (entry : LockEntry)
    → held_mode (drop_holder tx_id entry) t ≡ (if tx_id == t then none else held_mode entry t)
held_mode-drop_holder tx_id t entry =
    ground (arith, holds-drop_holder tx_id t entry, mode-drop_holder tx_id t entry)

-- `Release` keeps the lock table consistent.
pub release-IsConsistent :
    (m : LockManager) (tx_id : String) → IsConsistent m → IsConsistent (release m tx_id)
release-IsConsistent m tx_id h = record {
  entries = λ j. rw (entry_of-release m tx_id j) (elim (Bool-cases (is_some (recorded m tx_id j))) [
    | inl held ↦ rw held (drop_holder-EntryOk tx_id (entry_of m j) (h.entries j))
    | inr free ↦ rw free (h.entries j)
  ]);
  mirror = λ t j.
      rw (entry_of-release m tx_id j, recorded-release m tx_id t j)
        (elim (Bool-cases (is_some (recorded m tx_id j))) [
          | inl held ↦
              rw (held, held_mode-drop_holder tx_id t (entry_of m j)) (ground (arith, h.mirror t j))
          | inr free ↦ rw free (ground (arith, h.mirror t j, h.mirror tx_id j, ==_iff tx_id t))
        ]);
}

-- `ReleaseKey` keeps the lock table consistent.
pub release_key-IsConsistent :
    (m : LockManager) (tx_id key : String) → IsConsistent m → IsConsistent (release_key m tx_id key)
unfolding release_key
release_key-IsConsistent m tx_id key h = elim (Option-cases (GoMap.get m.locks key)) [
  | inl missing ↦ rw (missing, release_key) h
  | inr (entry, found) ↦
      rw (found, release_key)
        (let e : entry_of m key ≡ entry = unfold entry_of in rw found in
          rw (← e) (dropped m tx_id key h))
]
  where
    dropped :
        (m : LockManager) (tx_id key : String)
        → IsConsistent m
        → IsConsistent (forget_key (set_entry m key (drop_holder tx_id (entry_of m key))) tx_id key)
    dropped m tx_id key h = record {
      entries = λ j.
          rw (entry_of-forget_key, entry_of-set_entry)
            (elim (Bool-cases (key == j)) [
              | inl same ↦ rw same (drop_holder-EntryOk tx_id (entry_of m key) (h.entries key))
              | inr other ↦ rw other (h.entries j)
            ]);
      mirror = λ t j.
          rw (entry_of-forget_key, entry_of-set_entry, recorded-forget_key, recorded-set_entry)
            (elim (Bool-cases (key == j)) [
              | inl same ↦
                  rw (same, held_mode-drop_holder tx_id t (entry_of m key))
                    (ground (arith, h.mirror t j, ==_iff key j))
              | inr other ↦ rw other (ground (arith, h.mirror t j))
            ]);
    }
