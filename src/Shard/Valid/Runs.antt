-- ===== src/Shard/Valid/Runs.antt =====
-- Any sequence of calls of a shard of shard.go, by any transactions, and the invariant along it.
use let_mil_go.Common.{ℕ, String, List, [], ◌∷◌}
use let_mil_go.Mvcc
use let_mil_go.Mvcc.{new_store, versions_of}
use let_mil_go.Mvcc.Insert.{add_version-IsSorted, new_store-IsSorted}
use let_mil_go.Mvcc.Collect.{gc-IsSorted}
use let_mil_go.Locks.Invariant.{new_lock_manager-IsConsistent}
use let_mil_go.Buffer.Manager.{get-new}
use let_mil_go.OpLog.{OpLog}
use let_mil_go.Shard
use let_mil_go.Shard.TwoPhase
use let_mil_go.Shard.State.{Shard, IsolationLevel, new_shard}
use let_mil_go.Shard.Valid.{IsValid}
use let_mil_go.Shard.Valid.Handlers.{
  tx_start-IsValid, tx_read-IsValid, tx_write-IsValid, tx_delete-IsValid,
}
use let_mil_go.Shard.Valid.Phases.{prepare-IsValid, commit-IsValid, abort_cleanup-IsValid}

-- The exported methods that change a shard, with their arguments; the first number is the physical
-- time.
pub data Call : Type 0 where
  starts : String → Call
  reads : ℕ → String → String → ℕ → Call
  writes : ℕ → String → String → String → Call
  deletes : ℕ → String → String → Call
  prepares : ℕ → String → IsolationLevel → Call
  commits : ℕ → String → ℕ → Call
  aborts : ℕ → String → Call
  puts : String → String → ℕ → String → Call
  removes : String → ℕ → String → Call
  collects : ℕ → Call
  ticks : ℕ → Call
  updates : ℕ → ℕ → Call

module _ {L : Type 0} ⦃log : OpLog L⦄ where
  unfoldable pub after : Call → Shard L → Shard L
  after (starts tx_id) s = (Shard.tx_start s tx_id).1
  after (reads now tx_id key at) s = (Shard.tx_read now s tx_id key at).1
  after (writes now tx_id key value) s = (Shard.tx_write now s tx_id key value).1
  after (deletes now tx_id key) s = (Shard.tx_delete now s tx_id key).1
  after (prepares now tx_id iso) s = (TwoPhase.prepare now s tx_id iso).1
  after (commits now tx_id commit_time) s = (TwoPhase.commit now s tx_id commit_time).1
  after (aborts now tx_id) s = (TwoPhase.abort now s tx_id).1
  after (puts key value version tx_id) s = (Shard.put s key value version tx_id).1
  after (removes key version tx_id) s = (Shard.delete s key version tx_id).1
  after (collects min_version) s = (Shard.gc s min_version).1
  after (ticks now) s = (Shard.hlc_tick now s).1
  after (updates now incoming) s = (Shard.hlc_update now incoming s).1

  unfoldable pub run : List Call → Shard L → Shard L
  unfolding after
  run [] s = s
  run (c ∷ cs) s = run cs (after c s)

  -- Every exported method of a shard keeps its store sorted, its lock table consistent and its
  -- buffers ordered, on every branch.
  pub after-IsValid : (c : Call) (s : Shard L) → IsValid s → IsValid (after c s)
  unfolding after
  after-IsValid (starts tx_id) s h = tx_start-IsValid s tx_id h
  after-IsValid (reads now tx_id key at) s h = tx_read-IsValid now s tx_id key at h
  after-IsValid (writes now tx_id key value) s h = tx_write-IsValid now s tx_id key value h
  after-IsValid (deletes now tx_id key) s h = tx_delete-IsValid now s tx_id key h
  after-IsValid (prepares now tx_id iso) s h = prepare-IsValid now s tx_id iso h
  after-IsValid (commits now tx_id commit_time) s h = commit-IsValid now s tx_id commit_time h
  after-IsValid (aborts now tx_id) s h =
      unfold TwoPhase.abort in abort_cleanup-IsValid now s tx_id h
  after-IsValid (puts key value version tx_id) s h = record {
    sorted = unfold Shard.put Mvcc.put in add_version-IsSorted s.store key _ h.sorted;
    locks = unfold Shard.put in h.locks;
    buffers = unfold Shard.put in h.buffers;
  }
  after-IsValid (removes key version tx_id) s h = record {
    sorted = unfold Shard.delete Mvcc.delete in add_version-IsSorted s.store key _ h.sorted;
    locks = unfold Shard.delete in h.locks;
    buffers = unfold Shard.delete in h.buffers;
  }
  after-IsValid (collects min_version) s h = record {
    sorted = unfold Shard.gc in gc-IsSorted s.store min_version h.sorted;
    locks = unfold Shard.gc in h.locks;
    buffers = unfold Shard.gc in h.buffers;
  }
  after-IsValid (ticks now) s h =
      unfold Shard.hlc_tick in record { sorted = h.sorted; locks = h.locks; buffers = h.buffers }
  after-IsValid (updates now incoming) s h =
      unfold Shard.hlc_update in record { sorted = h.sorted; locks = h.locks; buffers = h.buffers }

  -- After any sequence of calls, by any transactions and in any interleaving, a shard that was
  -- valid is valid: its store sorted, its lock table consistent and every buffer ordered.
  pub run-IsValid : (cs : List Call) (s : Shard L) → IsValid s → IsValid (run cs s)
  unfolding run
  run-IsValid [] s h = h
  run-IsValid (c ∷ cs) s h = run-IsValid cs (after c s) (after-IsValid c s h)

-- A new shard is valid.
pub new_shard-IsValid : (id : String) → IsValid (new_shard id)
unfolding new_shard
new_shard-IsValid id = record {
  sorted = new_store-IsSorted;
  locks = new_lock_manager-IsConsistent;
  buffers = λ tx_id b e. absurd (cc (get-new tx_id));
}
