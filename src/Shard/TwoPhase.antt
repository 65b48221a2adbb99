-- ===== src/Shard/TwoPhase.antt =====
-- The two phases of the commit, of internal/shard/component/shard.go. `Prepare` and `Commit` call the
-- other components in the order of the source.
use let_mil_go.Common.{
  ℕ, String, Bool, ◌&&◌, none, some, length, ◌==◌, nat_eq, string_eq, if◌then◌else◌,
}
use let_mil_go.Errors.{Result, ok, err, tx_not_found, tx_no_ops, panic}
use let_mil_go.Hlc
use let_mil_go.Locks
use let_mil_go.Buffer.{TxBuffer}
use let_mil_go.Buffer
use let_mil_go.TxStatus
use let_mil_go.OpLog.{OpLog, OpEntry, op_commit, op_abort}
use let_mil_go.Shard.State.{
  Shard, PrepareReply, vote_unknown, vote_commit, vote_abort, IsolationLevel,
}
use let_mil_go.Shard.Loops.{Check, valid, invalid, broken, validate, acquire_writes, apply_writes}
use let_mil_go.Shard.{log_ticked}

module _ {L : Type 0} ⦃log : OpLog L⦄ where
  unfoldable pub cleanup : Shard L → String → Shard L
  cleanup s tx_id = record s {
    lock_mgr = Locks.release s.lock_mgr tx_id;
    buffer_mgr = Buffer.remove s.buffer_mgr tx_id;
  }

  unfoldable pub abort_cleanup : ℕ → Shard L → String → Shard L
  unfolding cleanup
  abort_cleanup now s tx_id =
      let cleaned = cleanup s tx_id in
      log_ticked now tx_id "" "" op_abort
        (record cleaned { tx_status_tbl = TxStatus.abort cleaned.tx_status_tbl tx_id })

  -- abortAndCleanup
  unfoldable pub refuse : ℕ → Shard L → String → PrepareReply × Shard L
  unfolding abort_cleanup
  refuse now s tx_id =
      (record { vote = vote_abort; prepare_time = 0; error = none }, abort_cleanup now s tx_id)

  unfoldable pub prepared : ℕ → Shard L → String → PrepareReply × Shard L
  prepared now s tx_id =
      let (prepare_time, clock) = Hlc.tick now s.clock in
      (
        record { vote = vote_commit; prepare_time = prepare_time; error = none },
        record s {
          clock = clock;
          tx_status_tbl = TxStatus.prepare s.tx_status_tbl tx_id prepare_time;
        },
      )

  -- `Prepare` once the write locks are taken
  unfoldable pub decide_vote : ℕ → Shard L → String → Check → PrepareReply × Shard L
  unfolding refuse prepared
  decide_vote now s tx_id valid = prepared now s tx_id
  decide_vote now s tx_id invalid = refuse now s tx_id
  decide_vote now s tx_id broken =
      (record { vote = vote_unknown; prepare_time = 0; error = some panic }, s)

  -- txStatusTbl.Start and the write locks; whether all of them were granted
  unfoldable pub start_and_lock : Shard L → String → TxBuffer → Bool × Shard L
  start_and_lock s tx_id buf =
      let started = record s { tx_status_tbl = TxStatus.start s.tx_status_tbl tx_id } in
      let (locked, lock_mgr) = acquire_writes started.lock_mgr tx_id (Buffer.write_keys buf) in
      (locked, record started { lock_mgr = lock_mgr })

  -- `Prepare` for a transaction with operations
  unfoldable pub lock_and_validate :
      ℕ → Shard L → String → TxBuffer → IsolationLevel → PrepareReply × Shard L
  lock_and_validate now s tx_id buf iso =
      let (locked, s') = start_and_lock s tx_id buf in
      if locked then decide_vote now s' tx_id (validate s'.store buf iso) else refuse now s' tx_id

  unfoldable pub prepare : ℕ → Shard L → String → IsolationLevel → PrepareReply × Shard L
  unfolding abort_cleanup
  prepare now s tx_id iso = elim (Buffer.get s.buffer_mgr tx_id) [
    | none ↦ (record { vote = vote_abort; prepare_time = 0; error = some tx_not_found }, s)
    | some buf ↦
        if length (Buffer.write_ops buf) == 0 && length (Buffer.read_records buf) == 0
        then (
          record { vote = vote_abort; prepare_time = 0; error = some tx_no_ops },
          abort_cleanup now s tx_id,
        )
        else lock_and_validate now s tx_id buf iso
  ]

  -- the end of `Commit`, after the writes are applied
  unfoldable pub finish_commit : ℕ → Shard L → String → ℕ → Shard L
  unfolding cleanup
  finish_commit now s tx_id commit_time =
      let cleaned = cleanup (record s { clock = (Hlc.update now commit_time s.clock).1 }) tx_id in
      let entry : OpEntry = record {
        timestamp = commit_time;
        tx_id = tx_id;
        key = "";
        value = "";
        op_type = op_commit;
      } in
      record cleaned {
        tx_status_tbl = TxStatus.commit cleaned.tx_status_tbl tx_id;
        oplog = (log.append entry cleaned.oplog).1;
      }

  unfoldable pub commit : ℕ → Shard L → String → ℕ → Result (Unit {0}) × Shard L
  unfolding finish_commit
  commit now s tx_id commit_time = elim (Buffer.get s.buffer_mgr tx_id) [
    | none ↦ (err tx_not_found, s)
    | some buf ↦
        let (result, store) = apply_writes s.store commit_time tx_id (Buffer.write_ops buf) in
        let s' = record s { store = store } in
        elim result [ ok _ ↦ (ok tt, finish_commit now s' tx_id commit_time) | err e ↦ (err e, s') ]
  ]

  unfoldable pub abort : ℕ → Shard L → String → Result (Unit {0}) × Shard L
  unfolding abort_cleanup
  abort now s tx_id = (ok tt, abort_cleanup now s tx_id)
