-- ===== src/Shard.antt =====
-- internal/shard/component/shard.go: a shard, made of the clock, the store, the buffers, the lock
-- manager, the status table and the operation log. Each exported method is one step; `now` is what
-- the clock's time source returns during it. The two phases of the commit are in `Shard/TwoPhase`.
pub mod State
pub mod Loops
pub mod TwoPhase
pub mod Apply
pub mod Valid
pub mod Sessions
pub mod Committed
pub mod Voting
pub mod Status
pub mod Untouched
pub mod Interleaving
pub mod Server
pub mod Survival
use let_mil_go.Common.{ℕ, String, true, false, none, some, string_eq, if◌then◌else◌}
use let_mil_go.Errors.{
  Result, ok, err, key_not_found, version_not_found, tx_already_exists, tx_not_found,
}
use let_mil_go.Hlc
use let_mil_go.Mvcc.{Found}
use let_mil_go.Mvcc
use let_mil_go.Buffer.{TxBuffer}
use let_mil_go.Buffer
use let_mil_go.OpLog.{OpLog, OpEntry, OpType, op_write, op_delete, op_read}
use State.{Shard, ReadReply, not_found_reply, version_or_zero}

module _ {L : Type 0} ⦃log : OpLog L⦄ where
  -- s.oplog.Append(…) with the timestamp of a tick; its results are dropped
  unfoldable pub log_ticked : ℕ → String → String → String → OpType → Shard L → Shard L
  log_ticked now tx_id key value op_type s =
      let (timestamp, clock) = Hlc.tick now s.clock in
      let entry : OpEntry = record {
        timestamp = timestamp;
        tx_id = tx_id;
        key = key;
        value = value;
        op_type = op_type;
      } in
      record s { clock = clock; oplog = (log.append entry s.oplog).1 }

  unfoldable pub put : Shard L → String → String → ℕ → String → Result (Unit {0}) × Shard L
  put s key value version tx_id =
      let (result, store) = Mvcc.put s.store key value version tx_id in
      (result, record s { store = store })

  unfoldable pub get : Shard L → String → ℕ → Result Found
  get s key version = Mvcc.get s.store key version

  unfoldable pub get_latest : Shard L → String → Result Found
  get_latest s key = Mvcc.get_latest s.store key

  unfoldable pub delete : Shard L → String → ℕ → String → Result (Unit {0}) × Shard L
  delete s key version tx_id =
      let (result, store) = Mvcc.delete s.store key version tx_id in
      (result, record s { store = store })

  unfoldable pub gc : Shard L → ℕ → ℕ × Shard L
  gc s min_version =
      let (removed, store) = Mvcc.gc s.store min_version in (removed, record s { store = store })

  unfoldable pub hlc_tick : ℕ → Shard L → ℕ × Shard L
  hlc_tick now s = let (ts, clock) = Hlc.tick now s.clock in (ts, record s { clock = clock })

  unfoldable pub hlc_update : ℕ → ℕ → Shard L → ℕ × Shard L
  hlc_update now incoming s =
      let (ts, clock) = Hlc.update now incoming s.clock in (ts, record s { clock = clock })

  unfoldable pub hlc_now : Shard L → ℕ
  hlc_now s = Hlc.now s.clock

  unfoldable pub tx_start : Shard L → String → Result (Unit {0}) × Shard L
  tx_start s tx_id = elim (Buffer.get s.buffer_mgr tx_id) [
    | some _ ↦ (err tx_already_exists, s)
    | none ↦ (ok tt, record s { buffer_mgr = Buffer.start s.buffer_mgr tx_id })
  ]

  unfoldable pub keep_buffer : Shard L → String → TxBuffer → Shard L
  keep_buffer s tx_id b = record s { buffer_mgr = Buffer.keep s.buffer_mgr tx_id b }

  -- the read of the store, at the end of `TxRead`
  unfoldable pub external_read :
      ℕ → Shard L → String → TxBuffer → String → Result Found → Result ReadReply × Shard L
  external_read now s tx_id buf key (err key_not_found) =
      (ok not_found_reply, keep_buffer s tx_id (Buffer.record_read buf key 0 false))
  external_read now s tx_id buf key (err version_not_found) =
      (ok not_found_reply, keep_buffer s tx_id (Buffer.record_read buf key 0 false))
  external_read now s tx_id buf key (err e) = (err e, s)
  external_read now s tx_id buf key (ok found) = (
    ok (record { value = found.value; version = found.version; found = true }),
    log_ticked now tx_id key found.value op_read
        (keep_buffer s tx_id (Buffer.record_read buf key found.version true)),
  )

  unfoldable pub tx_read : ℕ → Shard L → String → String → ℕ → Result ReadReply × Shard L
  tx_read now s tx_id key snapshot_time = elim (Buffer.get s.buffer_mgr tx_id) [
    | none ↦ (err tx_not_found, s)
    | some buf ↦ elim (Buffer.get_write buf key) [
      | some op ↦
          if op.deleted
          then (ok not_found_reply, s)
          else (ok (record { value = op.value; version = op.original_version; found = true }), s)
      | none ↦ external_read now s tx_id buf key (Mvcc.get s.store key snapshot_time)
    ]
  ]

  unfoldable pub tx_write : ℕ → Shard L → String → String → String → Result ℕ × Shard L
  tx_write now s tx_id key value = elim (Buffer.get s.buffer_mgr tx_id) [
    | none ↦ (err tx_not_found, s)
    | some buf ↦
        let original_version = version_or_zero (Mvcc.get_latest s.store key) in
        (
          ok original_version,
          log_ticked now tx_id key value op_write
              (keep_buffer s tx_id (Buffer.put_write buf key value original_version)),
        )
  ]

  unfoldable pub tx_delete : ℕ → Shard L → String → String → Result ℕ × Shard L
  tx_delete now s tx_id key = elim (Buffer.get s.buffer_mgr tx_id) [
    | none ↦ (err tx_not_found, s)
    | some buf ↦
        let original_version = version_or_zero (Mvcc.get_latest s.store key) in
        (
          ok original_version,
          log_ticked now tx_id key "" op_delete
              (keep_buffer s tx_id (Buffer.put_delete buf key original_version)),
        )
  ]
