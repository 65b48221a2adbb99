-- ===== src/Shard/Loops.antt =====
-- The loops of `Prepare` and `Commit` of internal/shard/component/shard.go: the write locks, the two
-- validations, and the writes of a commit.
use let_mil_go.Common.{
  ℕ, String, Bool, true, false, Option, none, some, List, [], ◌∷◌, ◌==◌, nat_eq, if◌then◌else◌,
}
use let_mil_go.Errors.{Result, ok, err, panic}
use let_mil_go.Mvcc.{MvccStore, Found}
use let_mil_go.Mvcc
use let_mil_go.Locks.{LockManager}
use let_mil_go.Locks
use let_mil_go.Buffer.{WriteOp, ReadRecord, TxBuffer}
use let_mil_go.Buffer
use let_mil_go.Shard.State.{IsolationLevel, isolation_si, isolation_ser}

-- the outcome of a validation loop; `broken` is a nil operation
pub data Check : Type 0 where
  valid invalid broken : Check

abbrev pub validates_writes : IsolationLevel → Bool
validates_writes isolation_si = true
validates_writes isolation_ser = true
validates_writes _ = false

abbrev pub validates_reads : IsolationLevel → Bool
validates_reads isolation_ser = true
validates_reads _ = false

-- one round of the CAS validation of the write set
abbrev pub write_current : Result Found → WriteOp → Bool
write_current (err _) op = op.original_version == 0
write_current (ok found) op = found.version == op.original_version

unfoldable pub check_writes : MvccStore → List (Option WriteOp) → Check
check_writes store [] = valid
check_writes store (none ∷ rest) = broken
check_writes store (some op ∷ rest) =
    if write_current (Mvcc.get_latest store op.key) op then check_writes store rest else invalid

-- one round of the CAS validation of the read set
abbrev pub read_current : Result Found → ReadRecord → Bool
read_current (err _) r = if r.found then false else true
read_current (ok found) r = if r.found then found.version == r.version else false

unfoldable pub check_reads : MvccStore → List ReadRecord → Check
check_reads store [] = valid
check_reads store (r ∷ rest) =
    if read_current (Mvcc.get_latest store r.key) r then check_reads store rest else invalid

-- both validations, as far as the isolation level asks for them
unfoldable pub validate : MvccStore → TxBuffer → IsolationLevel → Check
unfolding check_writes check_reads
validate store buf iso =
    elim (if validates_writes iso then check_writes store (Buffer.write_ops buf) else valid) [
      | valid ↦ if validates_reads iso then check_reads store (Buffer.read_records buf) else valid
      | invalid ↦ invalid
      | broken ↦ broken
    ]

-- the loop that takes the write locks, up to the first refusal
unfoldable pub acquire_writes : LockManager → String → List String → Bool × LockManager
acquire_writes m tx_id [] = (true, m)
acquire_writes m tx_id (key ∷ rest) =
    let (result, m') = Locks.acquire_write m tx_id key in
    let after = acquire_writes m' tx_id rest in elim result [ ok _ ↦ after | err _ ↦ (false, m') ]

-- one round of the loop of `Commit`; the errors of `Put` and `Delete` are dropped
unfoldable pub apply_write : MvccStore → ℕ → String → WriteOp → MvccStore
apply_write store commit_time tx_id op =
    if op.deleted
    then (Mvcc.delete store op.key commit_time tx_id).1
    else (Mvcc.put store op.key op.value commit_time tx_id).1

unfoldable pub apply_writes :
    MvccStore → ℕ → String → List (Option WriteOp) → Result (Unit {0}) × MvccStore
unfolding apply_write
apply_writes store commit_time tx_id [] = (ok tt, store)
apply_writes store commit_time tx_id (none ∷ rest) = (err panic, store)
apply_writes store commit_time tx_id (some op ∷ rest) =
    apply_writes (apply_write store commit_time tx_id op) commit_time tx_id rest
