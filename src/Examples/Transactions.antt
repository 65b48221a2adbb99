-- ===== src/Examples/Transactions.antt =====
-- Concrete transactions on a shard of internal/shard/component/shard.go.
use let_mil_go.Common.{
  ℕ, ◌≡◌, true, none, some, String, arith, if◌then◌else◌, ◌==◌, string_eq, nat_eq,
}
use let_mil_go.Errors.{ok}
use let_mil_go.Mvcc
use let_mil_go.Mvcc.{Found, versions_of, u64_mod}
use let_mil_go.Mvcc.Snapshot.{readable}
use let_mil_go.Locks.View.{recorded}
use let_mil_go.Buffer.{
  TxBuffer, WriteOp, ReadRecord, new_tx_buffer, put_write, get_write, write_keys,
}
use let_mil_go.Buffer
use let_mil_go.OpLog.{no_op}
use let_mil_go.Shard.TwoPhase
use let_mil_go.Shard
use let_mil_go.Shard.State.{new_shard, not_found_reply}
use let_mil_go.Shard.Apply.{with_write}
use let_mil_go.Shard.Valid.{IsValid}
use let_mil_go.Shard.Valid.Runs.{run, run-IsValid, new_shard-IsValid}
use let_mil_go.Shard.Sessions.{read_own_writes, no_dirty_reads}
use let_mil_go.Shard.Committed.{commit_lem, commit_visible, commit_keeps_snapshots}
use let_mil_go.Examples.Writers.{
  tx_a, tx_b, key_x, a_ne_b, calls, two_writers, two_writers-IsValid, buffer_a, found_a, op_a,
  written_a, no_version_9,
}

read_own_writes_example :
    (version : ℕ) × ((Shard.tx_write 7 two_writers tx_a key_x "z").0 ≡ ok version)
    × ((Shard.tx_read 8 (Shard.tx_write 7 two_writers tx_a key_x "z").1 tx_a key_x 4).0
        ≡ ok (record { value = "z"; version = version; found = true }))
    × ((Shard.tx_read 8 (Shard.tx_delete 7 two_writers tx_a key_x).1 tx_a key_x 4).0
        ≡ ok not_found_reply)
read_own_writes_example = read_own_writes 7 8 two_writers tx_a key_x "z" 4 buffer_a found_a

no_dirty_reads_example :
    ((Shard.tx_read 8 (Shard.tx_write 7 two_writers tx_a key_x "z").1 tx_b key_x 4).0
      ≡ (Shard.tx_read 8 two_writers tx_b key_x 4).0)
    × ((Shard.tx_read 8 (Shard.tx_delete 7 two_writers tx_a key_x).1 tx_b key_x 4).0
        ≡ (Shard.tx_read 8 two_writers tx_b key_x 4).0)
no_dirty_reads_example = no_dirty_reads 7 8 two_writers tx_a tx_b key_x key_x "z" 4 a_ne_b

run-IsValid_example : IsValid (run calls (new_shard "s"))
run-IsValid_example = run-IsValid calls (new_shard "s") (new_shard-IsValid "s")

commit_lem_example :
    ((TwoPhase.commit 10 two_writers tx_a 9).0 ≡ ok tt)
    × ((key : String)
        → versions_of (TwoPhase.commit 10 two_writers tx_a 9).1.store key
          ≡ with_write 9 tx_a (get_write buffer_a key) (versions_of two_writers.store key))
    × ((u key : String)
        → recorded (TwoPhase.commit 10 two_writers tx_a 9).1.lock_mgr u key
          ≡ (if tx_a == u then none else recorded two_writers.lock_mgr u key))
    × ((u : String)
        → Buffer.get (TwoPhase.commit 10 two_writers tx_a 9).1.buffer_mgr u
          ≡ (if tx_a == u then none else Buffer.get two_writers.buffer_mgr u))
commit_lem_example = commit_lem 10 two_writers tx_a 9 buffer_a two_writers-IsValid found_a

commit_visible_example :
    readable (Mvcc.get (TwoPhase.commit 10 two_writers tx_a 9).1.store key_x 9)
    ≡ some (record { value = "v"; version = 9; tx_id = tx_a })
commit_visible_example =
    commit_visible 10 two_writers tx_a 9 buffer_a key_x op_a two_writers-IsValid (omega arith)
      found_a written_a no_version_9

commit_keeps_snapshots_example :
    readable (Mvcc.get (TwoPhase.commit 10 two_writers tx_a 9).1.store key_x 8)
    ≡ readable (Mvcc.get two_writers.store key_x 8)
commit_keeps_snapshots_example =
    commit_keeps_snapshots 10 two_writers tx_a 9 buffer_a key_x 8 two_writers-IsValid found_a
      (omega arith) (omega arith)
