-- ===== src/OpLog.antt =====
-- internal/shard/component/oplog.go: the operation log as an interface, and the log that keeps
-- nothing.
use let_mil_go.Common.{ℕ, String, List, []}
use let_mil_go.Errors.{Result, ok}

pub data OpType : Type 0 where
  op_write op_delete op_read op_commit op_abort op_release : OpType

pub record OpEntry : Type 0 where
  pub timestamp : ℕ
  pub tx_id : String
  pub key : String
  pub value : String
  pub op_type : OpType

-- The interface: `L` is the state of an implementation. The shard's theorems hold for every log.
pub record OpLog (L : Type 0) : Type 0 where
  pub append : OpEntry → L → Result ℕ × L
  pub get_from : ℕ → L → Result (List OpEntry)
  pub get_range : ℕ → ℕ → L → Result (List OpEntry)
  pub last_timestamp : L → Result ℕ

pub data NoOpLog : Type 0 where
  no_op_log : NoOpLog

instance abbrev pub no_op : OpLog NoOpLog
no_op = record {
  append = λ entry l. (ok 0, l);
  get_from = λ timestamp l. ok [];
  get_range = λ start end l. ok [];
  last_timestamp = λ l. ok 0;
}
