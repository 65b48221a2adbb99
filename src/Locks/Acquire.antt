-- ===== src/Locks/Acquire.antt =====
-- `AcquireRead` and `AcquireWrite` of lock.go, and the invariant of the lock table.
use let_mil_go.Common.{
  ◌≡◌, inl, inr, String, true, ◌&&◌, ◌||◌, arith, ◌==◌, nat_eq, string_eq, if◌then◌else◌,
  Bool-cases,
}
use let_mil_go.GoMap.{Map, is_some, get-put, get-delete, get-empty}
use let_mil_go.GoMap
use let_mil_go.Errors.{Result, ok, err, lock_conflict}
use let_mil_go.Locks.{
  LockMode, lock_none, lock_read, lock_write, LockManager, holds, get_or_create_entry, is_holding,
  upgrade, read_on, write_on, acquire_read, acquire_write, mode_eq,
}
use let_mil_go.Locks.View.{entry_of, get_or_create_entry_lem}
use let_mil_go.Locks.Invariant.{IsConsistent, same_view-IsConsistent}
use let_mil_go.Locks.Grant.{grant-IsConsistent, upgrade-IsConsistent}

read_on-IsConsistent :
    (m : LockManager) (tx_id key : String)
    → IsConsistent m
    → IsConsistent (read_on m (entry_of m key) tx_id key).1
unfolding read_on
read_on-IsConsistent m tx_id key h =
    elim (Bool-cases (is_holding m tx_id key lock_read || is_holding m tx_id key lock_write)) [
      | inl held ↦ rw held h
      | inr free ↦ rw free (elim (Bool-cases (mode_eq mode lock_none || mode_eq mode lock_read)) [
        | inl shared ↦
            rw shared (grant-IsConsistent m tx_id key lock_read h (ground arith, ground arith))
        | inr exclusive ↦ rw exclusive (elim (Bool-cases (holds (entry_of m key) tx_id)) [
          | inl mine ↦ rw mine h
          | inr other ↦ rw other h
        ])
      ])
    ]
  where
    mode : LockMode
    mode = (entry_of m key).mode

write_on-IsConsistent :
    (m : LockManager) (tx_id key : String)
    → IsConsistent m
    → IsConsistent (write_on m (entry_of m key) tx_id key).1
unfolding write_on
write_on-IsConsistent m tx_id key h = elim (Bool-cases (is_holding m tx_id key lock_write)) [
  | inl held ↦ rw held h
  | inr free ↦ rw free (elim (Bool-cases (mode_eq (entry_of m key).mode lock_none)) [
    | inl unlocked ↦
        rw unlocked (grant-IsConsistent m tx_id key lock_write h (λ e. cc, inl (ground arith)))
    | inr locked ↦ rw locked (elim (Bool-cases (mode_eq (entry_of m key).mode lock_read)) [
      | inl reading ↦ rw reading (reader_writes reading)
      | inr writing ↦ rw writing (elim (Bool-cases (holds (entry_of m key) tx_id)) [
        | inl mine ↦ rw mine h
        | inr other ↦ rw other h
      ])
    ])
  ])
]
  where
    reader_writes :
        mode_eq (entry_of m key).mode lock_read ≡ true
        → let r : Result (Unit {0}) × LockManager =
            if GoMap.len (entry_of m key).holders == 1 && holds (entry_of m key) tx_id
            then (ok tt, upgrade m (entry_of m key) tx_id key)
            else (err lock_conflict, m) in
          IsConsistent r.1
    reader_writes reading =
        elim (Bool-cases
          (GoMap.len (entry_of m key).holders == 1 && holds (entry_of m key) tx_id)) [
            | inl alone ↦
                rw alone
                  (upgrade-IsConsistent m tx_id key h (ground arith) (ground arith) (ground arith))
            | inr shared ↦ rw shared h
          ]

pub created-IsConsistent :
    (m : LockManager) (key : String) → IsConsistent m → IsConsistent (get_or_create_entry m key).1
created-IsConsistent m key =
    let view = get_or_create_entry_lem m key in same_view-IsConsistent m _ view.1 view.2

-- `AcquireRead` and `AcquireWrite` keep the lock table consistent, whether they succeed or not.
pub acquire-IsConsistent :
    (m : LockManager) (tx_id key : String)
    → IsConsistent m
    → IsConsistent (acquire_read m tx_id key).1 × IsConsistent (acquire_write m tx_id key).1
unfolding acquire_read acquire_write
acquire-IsConsistent m tx_id key h =
    let m' = (get_or_create_entry m key).1 in
    let h' = created-IsConsistent m key h in
    rw (get_or_create_entry_lem m key).0
      (read_on-IsConsistent m' tx_id key h', write_on-IsConsistent m' tx_id key h')
