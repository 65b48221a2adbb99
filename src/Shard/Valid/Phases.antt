-- ===== src/Shard/Valid/Phases.antt =====
-- The two phases of the commit of shard.go, and the invariant of a shard.
use let_mil_go.Common.{
  ℕ, inl, inr, String, ◌&&◌, List, [], ◌∷◌, length, ◌==◌, nat_eq, string_eq, Bool-cases,
  Option-cases,
}
use let_mil_go.Errors.{Result-cases}
use let_mil_go.Locks.{LockManager, acquire_write}
use let_mil_go.Locks.Invariant.{IsConsistent}
use let_mil_go.Locks.Acquire.{acquire-IsConsistent}
use let_mil_go.Locks.Release.{release-IsConsistent}
use let_mil_go.Buffer.{TxBuffer, TxBufferManager, new_tx_buffer, write_ops}
use let_mil_go.Buffer
use let_mil_go.OpLog.{OpLog}
use let_mil_go.Shard.State.{Shard, IsolationLevel}
use let_mil_go.Shard.Loops.{acquire_writes, apply_writes, Check, valid, invalid, broken, validate}
use let_mil_go.Shard.TwoPhase
use let_mil_go.Shard.Apply.{apply_writes_lem}
use let_mil_go.Shard.Valid.{IsValid, remove-AllOrdered, log_ticked-IsValid}

pub acquire_writes-IsConsistent :
    (m : LockManager) (tx_id : String) (ks : List String)
    → IsConsistent m
    → IsConsistent (acquire_writes m tx_id ks).1
unfolding acquire_writes
acquire_writes-IsConsistent m tx_id [] h = h
acquire_writes-IsConsistent m tx_id (k ∷ ks) h =
    let h' = (acquire-IsConsistent m tx_id k h).1 in
    elim (Result-cases (acquire_write m tx_id k).0) [
      | inl (u, granted) ↦
          rw (granted, acquire_writes)
            (acquire_writes-IsConsistent (acquire_write m tx_id k).1 tx_id ks h')
      | inr (e, refused) ↦ rw (refused, acquire_writes) h'
    ]

module _ {L : Type 0} ⦃log : OpLog L⦄ where
  cleanup-IsValid : (s : Shard L) (tx_id : String) → IsValid s → IsValid (TwoPhase.cleanup s tx_id)
  unfolding TwoPhase.cleanup
  cleanup-IsValid s tx_id h = record {
    sorted = h.sorted;
    locks = release-IsConsistent s.lock_mgr tx_id h.locks;
    buffers = remove-AllOrdered s.buffer_mgr tx_id h.buffers;
  }

  pub abort_cleanup-IsValid :
      (now : ℕ) (s : Shard L) (tx_id : String)
      → IsValid s
      → IsValid (TwoPhase.abort_cleanup now s tx_id)
  unfolding TwoPhase.abort_cleanup
  abort_cleanup-IsValid now s tx_id h =
      let c = cleanup-IsValid s tx_id h in
      log_ticked-IsValid now tx_id "" "" _ _
        (record { sorted = c.sorted; locks = c.locks; buffers = c.buffers })

  decide_vote-IsValid :
      (now : ℕ) (s : Shard L) (tx_id : String) (c : Check)
      → IsValid s
      → IsValid (TwoPhase.decide_vote now s tx_id c).1
  unfolding TwoPhase.decide_vote
  decide_vote-IsValid now s tx_id valid h = record {
    sorted = h.sorted;
    locks = h.locks;
    buffers = h.buffers;
  }
  decide_vote-IsValid now s tx_id invalid h = abort_cleanup-IsValid now s tx_id h
  decide_vote-IsValid now s tx_id broken h = h

  pub start_and_lock-IsValid :
      (s : Shard L) (tx_id : String) (b : TxBuffer)
      → IsValid s
      → IsValid (TwoPhase.start_and_lock s tx_id b).1
  unfolding TwoPhase.start_and_lock
  start_and_lock-IsValid s tx_id b h = record {
    sorted = h.sorted;
    locks = acquire_writes-IsConsistent s.lock_mgr tx_id (Buffer.write_keys b) h.locks;
    buffers = h.buffers;
  }

  lock_and_validate-IsValid :
      (now : ℕ) (s : Shard L) (tx_id : String) (b : TxBuffer) (iso : IsolationLevel)
      → IsValid s
      → IsValid (TwoPhase.lock_and_validate now s tx_id b iso).1
  unfolding TwoPhase.lock_and_validate
  lock_and_validate-IsValid now s tx_id b iso h =
      let s' = (TwoPhase.start_and_lock s tx_id b).1 in
      let h' = start_and_lock-IsValid s tx_id b h in
      elim (Bool-cases (TwoPhase.start_and_lock s tx_id b).0) [
        | inl locked ↦ rw locked (decide_vote-IsValid now s' tx_id (validate s'.store b iso) h')
        | inr refused ↦ rw refused (unfold TwoPhase.refuse in abort_cleanup-IsValid now s' tx_id h')
      ]

  pub prepare-IsValid :
      (now : ℕ) (s : Shard L) (tx_id : String) (iso : IsolationLevel)
      → IsValid s
      → IsValid (TwoPhase.prepare now s tx_id iso).1
  unfolding TwoPhase.prepare
  prepare-IsValid now s tx_id iso h = elim (Option-cases (Buffer.get s.buffer_mgr tx_id)) [
    | inl missing ↦ rw (missing, TwoPhase.prepare) h
    | inr (b, found) ↦
        rw (found, TwoPhase.prepare)
          (elim (Bool-cases
            (length (Buffer.write_ops b) == 0 && length (Buffer.read_records b) == 0)) [
              | inl idle ↦ rw idle (abort_cleanup-IsValid now s tx_id h)
              | inr busy ↦ rw busy (lock_and_validate-IsValid now s tx_id b iso h)
            ])
  ]

  finish_commit-IsValid :
      (now : ℕ) (s : Shard L) (tx_id : String) (commit_time : ℕ)
      → IsValid s
      → IsValid (TwoPhase.finish_commit now s tx_id commit_time)
  unfolding TwoPhase.finish_commit
  finish_commit-IsValid now s tx_id commit_time h =
      let c = cleanup-IsValid s tx_id h in
      record { sorted = c.sorted; locks = c.locks; buffers = c.buffers }

  pub commit-IsValid :
      (now : ℕ) (s : Shard L) (tx_id : String) (commit_time : ℕ)
      → IsValid s
      → IsValid (TwoPhase.commit now s tx_id commit_time).1
  unfolding TwoPhase.commit
  commit-IsValid now s tx_id commit_time h = elim (Option-cases (Buffer.get s.buffer_mgr tx_id)) [
    | inl missing ↦ rw (missing, TwoPhase.commit) h
    | inr (b, found) ↦
        let applied =
          apply_writes_lem s.store commit_time tx_id b h.sorted (h.buffers tx_id b found) in
        let stored : IsValid
            (record s { store = (apply_writes s.store commit_time tx_id (write_ops b)).1 }) =
          record { sorted = applied.1; locks = h.locks; buffers = h.buffers } in
        rw (found, TwoPhase.commit, applied.0)
          (finish_commit-IsValid now _ tx_id commit_time stored)
  ]
