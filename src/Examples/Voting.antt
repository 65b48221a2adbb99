-- ===== src/Examples/Voting.antt =====
-- Concrete votes of internal/shard/component/shard.go.
use let_mil_go.Common.{
  All, ◌∙◌, String, List, ◌≡◌, refl, inl, inr, true, false, some, [], ◌∷◌, string_eq, nat_eq,
}
use let_mil_go.GoMap.{is_some, get-empty}
use let_mil_go.GoMap
use let_mil_go.Mvcc
use let_mil_go.Mvcc.{Found, versions_of, u64_mod}
use let_mil_go.Locks
use let_mil_go.Locks.{LockManager, LockMode, LockEntry, lock_none, lock_write}
use let_mil_go.Locks.View.{entry_of}
use let_mil_go.Buffer.{
  TxBuffer, WriteOp, ReadRecord, new_tx_buffer, put_write, get_write, write_keys,
}
use let_mil_go.Buffer
use let_mil_go.Buffer.Invariant.{record_read-IsOrdered, new_tx_buffer-IsOrdered}
use let_mil_go.OpLog.{NoOpLog, no_op}
use let_mil_go.Shard
use let_mil_go.Shard.TwoPhase
use let_mil_go.Shard.State.{Shard, vote_commit, vote_abort, isolation_si, isolation_ser, new_shard}
use let_mil_go.Shard.Loops.{validate, check_writes, check_reads, read_current, write_current}
use let_mil_go.Shard.Voting.Validation.{passes, validate-writes, validate-reads}
use let_mil_go.Shard.Valid.Runs.{Call, starts, reads, writes, puts, after, run}
use let_mil_go.Hlc
use let_mil_go.TxStatus.{tx_prepared, tx_committed, tx_aborted}
use let_mil_go.TxStatus
use let_mil_go.Shard.Status.{two_phase_status}
use let_mil_go.Shard.Voting.{Outcome, prepare_lem}
use let_mil_go.Shard.Voting.Conflicts.{single_write, si_ignores_snapshot}
use let_mil_go.Locks.{lock_write}
use let_mil_go.Locks.View.{recorded}
use let_mil_go.Shard.Valid.Phases.{prepare-IsValid}
use let_mil_go.Shard.Untouched.{prepare-Untouched}
use let_mil_go.Shard.Interleaving.{made_by, run-Untouched, prepared_holds, prepared_blocks}
use let_mil_go.Examples.Writers.{
  tx_a, tx_b, key_x, a_ne_b, two_writers, two_writers-IsValid, buffer_a, buffer_b, found_a, found_b,
  op_a, written_a, wrote_a, wrote_b, no_versions, unlocked,
}

prepare_lem_example :
    Outcome two_writers tx_a isolation_ser buffer_a
      (TwoPhase.prepare 7 two_writers tx_a isolation_ser)
prepare_lem_example =
    prepare_lem 7 two_writers tx_a isolation_ser buffer_a two_writers-IsValid found_a

voted_a : (TwoPhase.prepare 7 two_writers tx_a isolation_si).0.vote ≡ vote_commit
unfolding Mvcc.get_latest
voted_a =
    single_write 7 two_writers tx_a buffer_a op_a found_a
      (unfold write_keys put_write new_tx_buffer Buffer.has_write GoMap.get GoMap.empty in refl)
      (unfold Buffer.write_ops put_write new_tx_buffer Buffer.has_write GoMap.get GoMap.put
          GoMap.empty in
        refl)
      unlocked (rw (Mvcc.get_latest, no_versions) refl)

two_phase_status_example :
    ((TwoPhase.prepare 7 two_writers tx_a isolation_si).0.prepare_time
      ≡ (Hlc.tick 7 two_writers.clock).0)
    × (TxStatus.get (TwoPhase.prepare 7 two_writers tx_a isolation_si).1.tx_status_tbl tx_a
        ≡ some (record { status = tx_prepared; prepare_time = (Hlc.tick 7 two_writers.clock).0 }))
    × (TxStatus.get
          (TwoPhase.commit 8
            (TwoPhase.prepare 7 two_writers tx_a isolation_si).1
            tx_a
            9).1.tx_status_tbl
          tx_a
        ≡ some (record { status = tx_committed; prepare_time = (Hlc.tick 7 two_writers.clock).0 }))
    × (TxStatus.get
          (TwoPhase.abort 8
            (TwoPhase.prepare 7 two_writers tx_a isolation_si).1
            tx_a).1.tx_status_tbl
          tx_a
        ≡ some (record { status = tx_aborted; prepare_time = (Hlc.tick 7 two_writers.clock).0 }))
two_phase_status_example =
    two_phase_status 7 8 two_writers tx_a isolation_si buffer_a 9 two_writers-IsValid found_a
      voted_a

-- a third transaction, between the phases
abbrev third : String
third = "c"

abbrev between : List Call
between = starts third ∷ writes 8 third key_x "z" ∷ []

abbrev meanwhile : Shard NoOpLog
meanwhile = run between (TwoPhase.prepare 7 two_writers tx_a isolation_si).1

not_a : All (λ c. made_by tx_a c ≡ false) between
not_a = (refl, (refl, tt))

found_meanwhile : Buffer.get meanwhile.buffer_mgr tx_b ≡ some buffer_b
found_meanwhile =
    (run-Untouched tx_b between (TwoPhase.prepare 7 two_writers tx_a isolation_si).1
      (prepare-IsValid 7 two_writers tx_a isolation_si two_writers-IsValid)
      (refl, (refl, tt))).buffer
    ∙ (prepare-Untouched tx_b tx_a 7 two_writers isolation_si two_writers-IsValid a_ne_b).buffer
    ∙ found_b

prepared_holds_example :
    (recorded meanwhile.lock_mgr tx_a key_x ≡ some lock_write)
    × (Buffer.get meanwhile.buffer_mgr tx_a ≡ some buffer_a)
prepared_holds_example =
    prepared_holds 7 two_writers tx_a key_x isolation_si buffer_a between two_writers-IsValid
      found_a voted_a wrote_a not_a

prepared_blocks_example : (TwoPhase.prepare 9 meanwhile tx_b isolation_ser).0.vote ≡ vote_abort
prepared_blocks_example =
    prepared_blocks 7 9 two_writers tx_a tx_b key_x isolation_si isolation_ser buffer_a buffer_b
      between two_writers-IsValid found_a voted_a wrote_a not_a a_ne_b found_meanwhile wrote_b

-- a transaction that has found nothing at a key, which another one has written since
abbrev overwritten : Shard NoOpLog
overwritten = run (starts tx_a ∷ reads 4 tx_a key_x 2 ∷ puts key_x "z" 9 tx_b ∷ []) (new_shard "s")

abbrev reader : TxBuffer
reader = Buffer.record_read (new_tx_buffer tx_a) key_x 0 false

found_reader : Buffer.get overwritten.buffer_mgr tx_a ≡ some reader
unfolding run after Shard.tx_start Shard.tx_read Shard.external_read Shard.put Shard.keep_buffer
    Buffer.get Buffer.start Buffer.keep Buffer.get_write Buffer.has_write Buffer.record_read
    new_tx_buffer GoMap.get GoMap.put GoMap.empty Buffer.new_tx_buffer_manager new_shard Mvcc.get
    Mvcc.new_store Mvcc.versions_of
found_reader = refl

si_ignores_snapshot_example :
    (TwoPhase.prepare 8 (Shard.tx_write 7 overwritten tx_a key_x "v").1 tx_a isolation_si).0.vote
    ≡ vote_commit
si_ignores_snapshot_example =
    si_ignores_snapshot 7 8 overwritten tx_a key_x "v" reader found_reader
      (unfold write_keys Buffer.record_read Buffer.has_write new_tx_buffer GoMap.get GoMap.empty in
        refl)
      (unfold get_write Buffer.record_read Buffer.has_write new_tx_buffer GoMap.get GoMap.empty in
        refl)
      (unfold entry_of run after Shard.tx_start Shard.tx_read Shard.external_read Shard.put
          Shard.keep_buffer new_shard Locks.new_lock_manager Buffer.get Buffer.start Buffer.keep
          Buffer.get_write Buffer.new_tx_buffer_manager new_tx_buffer Mvcc.get Mvcc.new_store
          Mvcc.versions_of GoMap.get GoMap.put GoMap.empty in
        refl)

current_a : passes (validate two_writers.store buffer_a isolation_si) ≡ true
current_a =
    elim (prepare_lem 7 two_writers tx_a isolation_si buffer_a two_writers-IsValid found_a) [
      | inl (_, p) ↦ rw p.current refl
      | inr (refused, _) ↦ absurd (cc (voted_a, refused))
    ]

validate-writes_example : write_current (Mvcc.get_latest two_writers.store key_x) op_a ≡ true
validate-writes_example =
    validate-writes two_writers.store buffer_a isolation_si key_x op_a
      (two_writers-IsValid.buffers tx_a buffer_a found_a) refl current_a written_a

-- what the reader has recorded
abbrev missing_x : ReadRecord
missing_x = record { key = key_x; version = 0; found = false }

recorded_x : GoMap.get reader.reads key_x ≡ some missing_x
unfolding Buffer.record_read Buffer.has_write new_tx_buffer GoMap.get GoMap.put GoMap.empty
recorded_x = refl

current_reader : passes (validate two_writers.store reader isolation_ser) ≡ true
unfolding validate check_writes check_reads Buffer.write_ops Buffer.read_records Buffer.record_read
    new_tx_buffer Buffer.has_write GoMap.get GoMap.put GoMap.values GoMap.empty Mvcc.get_latest
current_reader = rw no_versions refl

validate-reads_example : read_current (Mvcc.get_latest two_writers.store key_x) missing_x ≡ true
validate-reads_example =
    validate-reads two_writers.store reader key_x missing_x
      (record_read-IsOrdered (new_tx_buffer tx_a) key_x 0 false (new_tx_buffer-IsOrdered tx_a))
      current_reader recorded_x
