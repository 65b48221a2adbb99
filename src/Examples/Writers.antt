-- ===== src/Examples/Writers.antt =====
-- Two transactions of internal/shard/component/shard.go that write one key.
use let_mil_go.Common.{
  ◌≡◌, ◌≢◌, refl, true, false, some, String, List, [], ◌∷◌, ==-differ, string_eq, nat_eq,
}
use let_mil_go.GoMap.{is_some, get-empty}
use let_mil_go.GoMap
use let_mil_go.Mvcc
use let_mil_go.Mvcc.{Found, versions_of, u64_mod}
use let_mil_go.Mvcc.Insert.{has_version}
use let_mil_go.Locks
use let_mil_go.Locks.{LockManager, LockMode, LockEntry, lock_none, lock_write}
use let_mil_go.Locks.View.{entry_of}
use let_mil_go.Buffer.{
  TxBuffer, WriteOp, ReadRecord, new_tx_buffer, put_write, get_write, write_keys,
}
use let_mil_go.Buffer
use let_mil_go.OpLog.{NoOpLog, no_op}
use let_mil_go.Shard
use let_mil_go.Shard.State.{Shard, new_shard}
use let_mil_go.Shard.Valid.{IsValid}
use let_mil_go.Shard.Valid.Runs.{Call, starts, writes, after, run, run-IsValid, new_shard-IsValid}

abbrev pub tx_a : String
tx_a = "a"

abbrev pub tx_b : String
tx_b = "b"

abbrev pub key_x : String
key_x = "x"

pub a_ne_b : tx_a ≢ tx_b
a_ne_b = ==-differ tx_a tx_b refl

-- two transactions have written the same key of an empty shard
abbrev pub calls : List Call
calls = starts tx_a ∷ starts tx_b ∷ writes 5 tx_a key_x "v" ∷ writes 6 tx_b key_x "w" ∷ []

abbrev pub two_writers : Shard NoOpLog
two_writers = run calls (new_shard "s")

pub two_writers-IsValid : IsValid two_writers
two_writers-IsValid = run-IsValid calls (new_shard "s") (new_shard-IsValid "s")

abbrev pub buffer_a : TxBuffer
buffer_a = put_write (new_tx_buffer tx_a) key_x "v" 0

abbrev pub buffer_b : TxBuffer
buffer_b = put_write (new_tx_buffer tx_b) key_x "w" 0

pub found_a : Buffer.get two_writers.buffer_mgr tx_a ≡ some buffer_a
unfolding run after Shard.tx_start Shard.tx_write Shard.log_ticked Shard.keep_buffer Buffer.get
    Buffer.start Buffer.keep GoMap.get GoMap.put Buffer.new_tx_buffer_manager new_shard GoMap.empty
    Mvcc.get_latest Mvcc.new_store Mvcc.versions_of
found_a = refl

pub found_b : Buffer.get two_writers.buffer_mgr tx_b ≡ some buffer_b
unfolding run after Shard.tx_start Shard.tx_write Shard.log_ticked Shard.keep_buffer Buffer.get
    Buffer.start Buffer.keep GoMap.get GoMap.put Buffer.new_tx_buffer_manager new_shard GoMap.empty
    Mvcc.get_latest Mvcc.new_store Mvcc.versions_of
found_b = refl

-- what the first transaction has written
abbrev pub op_a : WriteOp
op_a = record { key = key_x; value = "v"; deleted = false; original_version = 0 }

pub written_a : get_write buffer_a key_x ≡ some op_a
unfolding get_write put_write GoMap.get GoMap.put new_tx_buffer GoMap.empty
written_a = refl

pub wrote_a : is_some (get_write buffer_a key_x) ≡ true
wrote_a = rw written_a refl

pub wrote_b : is_some (get_write buffer_b key_x) ≡ true
unfolding get_write put_write GoMap.get GoMap.put new_tx_buffer GoMap.empty
wrote_b = refl

pub no_versions : versions_of two_writers.store key_x ≡ []
unfolding versions_of run after Shard.tx_start Shard.tx_write Shard.log_ticked Shard.keep_buffer
    new_shard Mvcc.new_store Buffer.get Buffer.start Buffer.keep GoMap.get GoMap.put GoMap.empty
    Buffer.new_tx_buffer_manager
no_versions = refl

pub no_version_9 : has_version 9 (versions_of two_writers.store key_x) ≡ false
no_version_9 = rw no_versions (unfold has_version in refl)

pub unlocked : (entry_of two_writers.lock_mgr key_x).mode ≡ lock_none
unfolding entry_of run after Shard.tx_start Shard.tx_write Shard.log_ticked Shard.keep_buffer
    new_shard Locks.new_lock_manager Buffer.get Buffer.start Buffer.keep GoMap.get GoMap.put
    GoMap.empty Buffer.new_tx_buffer_manager
unlocked = refl
