-- ===== src/Shard/Server.antt =====
-- internal/shard/server.go: the gRPC server of a shard. A handler is given the fields of its request
-- and returns the response or a status; a panic of the shard is none, and ends the process.
use let_mil_go.Common.{ℕ, String, none, some}
use let_mil_go.Errors.{
  Error, key_not_found, version_not_found, version_conflict, lock_conflict, lock_not_held, deadlock,
  tx_already_exists, tx_not_found, tx_no_ops, panic, Result, ok, err,
}
use let_mil_go.Rpc.{
  Code, code_not_found, code_already_exists, code_aborted, code_internal, Status, Try, success,
  failure,
}
use let_mil_go.OpLog.{OpLog}
use let_mil_go.Shard.State.{Shard, ReadReply, IsolationLevel, Vote, PrepareReply}
use let_mil_go.Shard
use let_mil_go.Shard.TwoPhase

-- how a handler fails
pub data Fault : Type 0 where
  status : Status → Fault
  crash : Fault

abbrev pub fails : Code → String → Fault
fails code message = status (record { code = code; message = message })

-- err.Error() of the sentinel errors
unfoldable pub error_text : Error → String
error_text key_not_found = "key not found"
error_text version_not_found = "version not found"
error_text version_conflict = "version conflict"
error_text lock_conflict = "lock conflict"
error_text lock_not_held = "lock not held by transaction"
error_text deadlock = "deadlock detected"
error_text tx_already_exists = "transaction already exists"
error_text tx_not_found = "transaction not found"
error_text tx_no_ops = "transaction has no operations"
error_text panic = ""

unfoldable pub convert_error : Error → Fault
unfolding error_text
convert_error key_not_found = fails code_not_found (error_text key_not_found)
convert_error version_not_found = fails code_not_found (error_text version_not_found)
convert_error version_conflict = fails code_already_exists (error_text version_conflict)
convert_error lock_conflict = fails code_aborted (error_text lock_conflict)
convert_error panic = crash
convert_error e = fails code_internal (error_text e)

-- the errors of a call that starts no transaction: `TxRead`, `TxWrite`, `TxDelete`
unfoldable pub operation_error : Error → Fault
unfolding convert_error
operation_error tx_not_found = fails code_not_found "transaction not found, call TxStart first"
operation_error e = convert_error e

unfoldable pub start_error : Error → Fault
unfolding convert_error
start_error tx_already_exists = fails code_already_exists (error_text tx_already_exists)
start_error e = convert_error e

unfoldable pub prepare_error : Error → Fault
unfolding convert_error
prepare_error tx_not_found = fails code_not_found "transaction not found"
prepare_error tx_no_ops = fails code_not_found "transaction has no operations"
prepare_error e = convert_error e

unfoldable pub commit_error : Error → Fault
unfolding convert_error
commit_error tx_not_found = fails code_not_found "transaction not found"
commit_error e = convert_error e

-- PrepareResponse
pub record PrepareResponse : Type 0 where
  pub vote : Vote
  pub prepare_time : ℕ

abbrev pub respond : {A B : Type 0} → (Error → Fault) → (A → B) → Result A → Try Fault B
respond on_error reply (ok a) = success (reply a)
respond on_error reply (err e) = failure (on_error e)

unfoldable pub prepare_response : PrepareReply → Try Fault PrepareResponse
unfolding prepare_error
prepare_response r = elim r.error [
  | some e ↦ failure (prepare_error e)
  | none ↦ success (record { vote = r.vote; prepare_time = r.prepare_time })
]

module _ {L : Type 0} ⦃log : OpLog L⦄ where
  unfoldable pub tx_start : Shard L → String → ℕ → Try Fault (Unit {0}) × Shard L
  unfolding start_error
  tx_start s tx_id snapshot_time =
      let (result, s') = Shard.tx_start s tx_id in (respond start_error (λ _. tt) result, s')

  unfoldable pub tx_read : ℕ → Shard L → String → String → ℕ → Try Fault ReadReply × Shard L
  unfolding operation_error
  tx_read now s tx_id key snapshot_time =
      let (result, s') = Shard.tx_read now s tx_id key snapshot_time in
      (respond operation_error (λ r. r) result, s')

  unfoldable pub tx_write : ℕ → Shard L → String → String → String → Try Fault ℕ × Shard L
  unfolding operation_error
  tx_write now s tx_id key value =
      let (result, s') = Shard.tx_write now s tx_id key value in
      (respond operation_error (λ version. version) result, s')

  unfoldable pub tx_delete : ℕ → Shard L → String → String → Try Fault ℕ × Shard L
  unfolding operation_error
  tx_delete now s tx_id key =
      let (result, s') = Shard.tx_delete now s tx_id key in
      (respond operation_error (λ version. version) result, s')

  unfoldable pub prepare :
      ℕ → Shard L → String → ℕ → IsolationLevel → Try Fault PrepareResponse × Shard L
  unfolding prepare_response
  prepare now s tx_id snapshot_time iso =
      let (reply, s') = TwoPhase.prepare now s tx_id iso in (prepare_response reply, s')

  unfoldable pub commit : ℕ → Shard L → String → ℕ → Try Fault (Unit {0}) × Shard L
  unfolding commit_error
  commit now s tx_id commit_time =
      let (result, s') = TwoPhase.commit now s tx_id commit_time in
      (respond commit_error (λ _. tt) result, s')

  unfoldable pub abort : ℕ → Shard L → String → Try Fault (Unit {0}) × Shard L
  unfolding convert_error
  abort now s tx_id =
      let (result, s') = TwoPhase.abort now s tx_id in (respond convert_error (λ _. tt) result, s')

  unfoldable pub get_current_time : Shard L → ℕ
  get_current_time s = Shard.hlc_now s
