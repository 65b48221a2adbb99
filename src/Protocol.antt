-- ===== src/Protocol.antt =====
-- internal/model/isolation.go and internal/model/protocol.go: the isolation levels by their names, and
-- the messages of the two-phase commit. The `default` branches are for an int outside the enumeration.
use let_mil_go.Common.{ℕ, String, List}

pub data IsolationLevel : Type 0 where
  ra cc pc psi si ser : IsolationLevel

unfoldable pub level_name : IsolationLevel → String
level_name ra = "RA"
level_name IsolationLevel.cc = "CC"
level_name pc = "PC"
level_name psi = "PSI"
level_name si = "SI"
level_name ser = "SER"

pub data Vote : Type 0 where
  commit abort : Vote

unfoldable pub vote_name : Vote → String
vote_name commit = "COMMIT"
vote_name abort = "ABORT"

pub record WriteOp : Type 0 where
  pub key : String
  pub value : String

pub record PrepareMessage : Type 0 where
  pub tx_id : String
  pub write_buffer : List WriteOp
  pub check_set : List String
  pub snapshot_time : ℕ

pub record PrepareAck : Type 0 where
  pub tx_id : String
  pub vote : Vote
  pub prepare_time : ℕ

pub record CommitMessage : Type 0 where
  pub tx_id : String
  pub final_commit_timestamp : ℕ

pub record AbortMessage : Type 0 where
  pub tx_id : String
