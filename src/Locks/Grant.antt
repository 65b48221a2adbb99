-- ===== src/Locks/Grant.antt =====
-- Granting and upgrading a lock in lock.go, and the invariant of the lock table.
use let_mil_go.Common.{
  ◌<◌, ◌≡◌, ◌≢◌, refl, ◌⊎◌, inl, inr, String, true, false, arith, ◌==◌, ==_iff, ==-refl, nat_eq,
  string_eq, if◌then◌else◌, Bool-cases, Option-cases,
}
use let_mil_go.GoMap.{Map, is_some, get-put, get-delete, get-empty}
use let_mil_go.GoMap
use let_mil_go.GoMap.Size.{len-pos, get_of_len-zero, get_sole}
use let_mil_go.Locks.{
  LockMode, lock_none, lock_read, lock_write, LockEntry, LockManager, holds, set_entry, grant,
  upgrade,
}
use let_mil_go.Locks.View.{
  entry_of, entry_of-set_entry, recorded-set_entry, entry_of-record_tx_lock,
  recorded-record_tx_lock,
}
use let_mil_go.Locks.Invariant.{EntryOk, IsConsistent}

pub not-holds_of_none :
    (entry : LockEntry) (t : String)
    → EntryOk entry
    → entry.mode ≡ lock_none
    → holds entry t ≡ false
unfolding holds
not-holds_of_none entry t h e = rw (get_of_len-zero entry.holders t (h.idle.0 e))

abbrev granted : LockEntry → String → LockMode → LockEntry
granted entry tx_id mode = record entry { mode = mode; holders = GoMap.put entry.holders tx_id tt }

holds-granted :
    (entry : LockEntry) (tx_id t : String) (mode : LockMode)
    → holds (granted entry tx_id mode) t ≡ (if tx_id == t then true else holds entry t)
unfolding holds
holds-granted entry tx_id t mode = rw get-put (ground arith)

len-granted :
    (entry : LockEntry) (tx_id : String) (mode : LockMode)
    → 0 < GoMap.len (granted entry tx_id mode).holders
len-granted entry tx_id mode = len-pos _ tx_id tt (rw (get-put, ==-refl tx_id))

-- A new lock on a free entry, or one more reader.
abbrev pub Grantable : LockEntry → LockMode → Type 0
Grantable entry mode =
    (mode ≢ lock_none)
    × ((entry.mode ≡ lock_none) ⊎ ((entry.mode ≡ lock_read) × (mode ≡ lock_read)))

granted-EntryOk :
    (entry : LockEntry) (tx_id : String) (mode : LockMode)
    → EntryOk entry
    → Grantable entry mode
    → EntryOk (granted entry tx_id mode)
granted-EntryOk entry tx_id mode h g = record {
  sole = λ e t u p q. ground (
    arith,
    holds-granted entry tx_id t mode,
    holds-granted entry tx_id u mode,
    ==_iff tx_id t,
    ==_iff tx_id u,
    not-holds_of_none entry t h,
    not-holds_of_none entry u h,
  );
  idle = (λ e. absurd (g.0 e), λ e. absurd (omega (arith, len-granted entry tx_id mode)));
}

pub grant-IsConsistent :
    (m : LockManager) (tx_id key : String) (mode : LockMode)
    → IsConsistent m
    → Grantable (entry_of m key) mode
    → IsConsistent (grant m (entry_of m key) tx_id key mode)
unfolding grant
grant-IsConsistent m tx_id key mode h g =
    let e = entry_of m key in
    let e' = granted e tx_id mode in
    let m' = set_entry m key e' in
    record {
      entries = λ j.
          rw (entry_of-record_tx_lock m' tx_id key j mode, entry_of-set_entry m key j e')
            (elim (Bool-cases (key == j)) [
              | inl same ↦ rw same (granted-EntryOk e tx_id mode (h.entries key) g)
              | inr other ↦ rw other (h.entries j)
            ]);
      mirror = λ t j.
          rw
            (
              entry_of-record_tx_lock m' tx_id key j mode,
              entry_of-set_entry m key j e',
              recorded-record_tx_lock m' tx_id key t j mode,
              recorded-set_entry m key t j e',
            )
            (ground (
              arith,
              h.mirror t j,
              h.mirror t key,
              holds-granted e tx_id t mode,
              ==_iff key j,
              ==_iff tx_id t,
              not-holds_of_none e t (h.entries key),
            ));
    }

abbrev as_writer : LockEntry → LockEntry
as_writer entry = record entry { mode = lock_write }

as_writer-EntryOk :
    (entry : LockEntry) (tx_id : String)
    → EntryOk entry
    → entry.mode ≡ lock_read
    → GoMap.len entry.holders ≡ 1
    → EntryOk (as_writer entry)
unfolding holds
as_writer-EntryOk entry tx_id h reading one = record {
  sole = λ e t u p q. elim (Option-cases (GoMap.get entry.holders t)) [
    | inl missing ↦ ground arith
    | inr (v, found) ↦ elim (Option-cases (GoMap.get entry.holders u)) [
      | inl missing ↦ ground arith
      | inr (w, found') ↦ get_sole entry.holders t u v w one found found'
    ]
  ];
  idle = (λ e. cc, λ e. absurd (omega arith));
}

pub upgrade-IsConsistent :
    (m : LockManager) (tx_id key : String)
    → IsConsistent m
    → (entry_of m key).mode ≡ lock_read
    → GoMap.len (entry_of m key).holders ≡ 1
    → holds (entry_of m key) tx_id ≡ true
    → IsConsistent (upgrade m (entry_of m key) tx_id key)
unfolding upgrade
upgrade-IsConsistent m tx_id key h reading one held =
    let e = entry_of m key in
    let e' = as_writer e in
    let m' = set_entry m key e' in
    let ok' = as_writer-EntryOk e tx_id (h.entries key) reading one in
    record {
      entries = λ j.
          rw (entry_of-record_tx_lock m' tx_id key j lock_write, entry_of-set_entry m key j e')
            (elim (Bool-cases (key == j)) [
              | inl same ↦ rw same ok'
              | inr other ↦ rw other (h.entries j)
            ]);
      mirror = λ t j.
          rw
            (
              entry_of-record_tx_lock m' tx_id key j lock_write,
              entry_of-set_entry m key j e',
              recorded-record_tx_lock m' tx_id key t j lock_write,
              recorded-set_entry m key t j e',
            )
            (ground (
              arith,
              h.mirror t j,
              h.mirror t key,
              ok'.sole refl tx_id t (unfold holds in held),
              holds-as_writer e t,
              ==_iff key j,
              ==_iff tx_id t,
            ));
    }
  where
    holds-as_writer : (e : LockEntry) (t : String) → holds (as_writer e) t ≡ holds e t
    holds-as_writer e t = unfold holds in refl
