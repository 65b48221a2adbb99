-- ===== src/Shard/Valid.antt =====
-- The invariant of a shard of shard.go: a sorted store, a consistent lock table, ordered buffers.
pub mod Handlers
pub mod Phases
pub mod Runs
use let_mil_go.Common.{
  ℕ, ◌≡◌, refl, sym, ap, ◌∙◌, subst, inl, inr, String, Bool, true, false, ◌&&◌, ◌||◌, Option, none,
  some, List, [], ◌∷◌, arith, length, ◌==◌, ==_iff, ==-refl, nat_eq, string_eq, if◌then◌else◌,
  Bool-cases, Option-cases,
}
use let_mil_go.Errors.{Error, Result, ok, err, key_not_found, version_not_found, Result-cases}
use let_mil_go.Mvcc.{MvccStore, Found, new_store, versions_of}
use let_mil_go.Mvcc
use let_mil_go.Mvcc.Insert.{IsSorted, add_version-IsSorted}
use let_mil_go.Mvcc.Collect.{gc-IsSorted}
use let_mil_go.Locks.{LockManager, acquire_write}
use let_mil_go.Locks
use let_mil_go.Locks.Invariant.{IsConsistent, new_lock_manager-IsConsistent}
use let_mil_go.Locks.Acquire.{acquire-IsConsistent}
use let_mil_go.Locks.Release.{release-IsConsistent}
use let_mil_go.Buffer.{TxBuffer, TxBufferManager, new_tx_buffer, write_ops}
use let_mil_go.Buffer
use let_mil_go.Buffer.Invariant.{
  IsOrdered, put_write-IsOrdered, put_delete-IsOrdered, record_read-IsOrdered,
  new_tx_buffer-IsOrdered,
}
use let_mil_go.Buffer.Manager.{get-keep, get-start, get-remove, get-new}
use let_mil_go.OpLog.{OpLog, OpType, NoOpLog}
use let_mil_go.Shard.State.{Shard, IsolationLevel, new_shard, version_or_zero}
use let_mil_go.Shard.Loops.{acquire_writes, apply_writes, Check, valid, invalid, broken, validate}
use let_mil_go.Shard
use let_mil_go.Shard.TwoPhase
use let_mil_go.Shard.Apply.{apply_writes_lem}

-- every transaction's buffer lists its written keys once
abbrev pub AllOrdered : TxBufferManager → Type 0
AllOrdered m = (tx_id : String) (b : TxBuffer) → Buffer.get m tx_id ≡ some b → IsOrdered b

pub record IsValid {L : Type 0} (s : Shard L) : Type 0 where
  pub sorted : IsSorted s.store
  pub locks : IsConsistent s.lock_mgr
  pub buffers : AllOrdered s.buffer_mgr

pub keep-AllOrdered :
    (m : TxBufferManager) (t : String) (b : TxBuffer)
    → AllOrdered m
    → IsOrdered b
    → AllOrdered (Buffer.keep m t b)
keep-AllOrdered m t b all h u c e = elim (Bool-cases (t == u)) [
  | inl same ↦ subst IsOrdered (ground (arith, get-keep m t u b)) h
  | inr other ↦ all u c (ground (arith, get-keep m t u b))
]

pub start-AllOrdered :
    (m : TxBufferManager) (t : String) → AllOrdered m → AllOrdered (Buffer.start m t)
start-AllOrdered m t all u c e = elim (Bool-cases (t == u)) [
  | inl same ↦ subst IsOrdered (ground (arith, get-start m t u)) (new_tx_buffer-IsOrdered t)
  | inr other ↦ all u c (ground (arith, get-start m t u))
]

pub remove-AllOrdered :
    (m : TxBufferManager) (t : String) → AllOrdered m → AllOrdered (Buffer.remove m t)
remove-AllOrdered m t all u c e = elim (Bool-cases (t == u)) [
  | inl same ↦ absurd (ground (arith, get-remove m t u))
  | inr other ↦ all u c (ground (arith, get-remove m t u))
]

module _ {L : Type 0} ⦃log : OpLog L⦄ where
  pub log_ticked-IsValid :
      (now : ℕ) (tx_id key value : String) (op_type : OpType) (s : Shard L)
      → IsValid s
      → IsValid (Shard.log_ticked now tx_id key value op_type s)
  unfolding Shard.log_ticked
  log_ticked-IsValid now tx_id key value op_type s h = record {
    sorted = h.sorted;
    locks = h.locks;
    buffers = h.buffers;
  }

  pub keep_buffer-IsValid :
      (s : Shard L) (tx_id : String) (b : TxBuffer)
      → IsValid s
      → IsOrdered b
      → IsValid (Shard.keep_buffer s tx_id b)
  unfolding Shard.keep_buffer
  keep_buffer-IsValid s tx_id b h o = record {
    sorted = h.sorted;
    locks = h.locks;
    buffers = keep-AllOrdered s.buffer_mgr tx_id b h.buffers o;
  }
