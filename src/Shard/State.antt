-- ===== src/Shard/State.antt =====
-- The state of a shard and the replies of its methods, of internal/shard/component/shard.go.
use let_mil_go.Common.{ℕ, String, Bool, false, Option}
use let_mil_go.Errors.{Error, Result, ok, err}
use let_mil_go.Hlc.{Clock}
use let_mil_go.Hlc
use let_mil_go.Mvcc.{MvccStore, Found}
use let_mil_go.Mvcc
use let_mil_go.Locks.{LockManager}
use let_mil_go.Locks
use let_mil_go.Buffer.{TxBufferManager}
use let_mil_go.Buffer
use let_mil_go.TxStatus.{TxStatusTable}
use let_mil_go.TxStatus
use let_mil_go.OpLog.{NoOpLog, no_op_log}

-- proto/shard.proto
pub data IsolationLevel : Type 0 where
  isolation_unknown isolation_ra isolation_cc isolation_pc isolation_psi : IsolationLevel
  isolation_si isolation_ser : IsolationLevel

pub data Vote : Type 0 where
  vote_unknown vote_commit vote_abort : Vote

pub record Shard (L : Type 0) : Type 0 where
  pub id : String
  pub store : MvccStore
  pub clock : Clock
  pub buffer_mgr : TxBufferManager
  pub lock_mgr : LockManager
  pub tx_status_tbl : TxStatusTable
  pub oplog : L

-- hlc.GetClock() returns the clock of the process; this is the clock of a process that has just
-- started
unfoldable pub new_shard : String → Shard NoOpLog
new_shard id = record {
  id = id;
  store = Mvcc.new_store;
  clock = Hlc.new_with_now_fn;
  buffer_mgr = Buffer.new_tx_buffer_manager;
  lock_mgr = Locks.new_lock_manager;
  tx_status_tbl = TxStatus.new_tx_status_table;
  oplog = no_op_log;
}

-- what `TxRead` returns beside its error
pub record ReadReply : Type 0 where
  pub value : String
  pub version : ℕ
  pub found : Bool

abbrev pub not_found_reply : ReadReply
not_found_reply = record { value = ""; version = 0; found = false }

-- the three results of `Prepare`; nil is `none`
pub record PrepareReply : Type 0 where
  pub vote : Vote
  pub prepare_time : ℕ
  pub error : Option Error

-- the version that a write replaces: 0 where `GetLatest` fails
abbrev pub version_or_zero : Result Found → ℕ
version_or_zero (ok found) = found.version
version_or_zero (err _) = 0
