-- ===== src/Shard/Committed.antt =====
-- What `Commit` of internal/shard/component/shard.go leaves: the store that later reads see, the lock
-- table and the buffers.
use let_mil_go.Common.{
  ℕ, suc, ◌<◌, ◌≡◌, refl, inl, inr, String, true, false, Option, none, some, arith, ◌==◌, nat_eq,
  string_eq, if◌then◌else◌, Option-cases,
}
use let_mil_go.Errors.{ok, err, tx_not_found}
use let_mil_go.Mvcc.{MvccStore, Found, versions_of, u64_mod}
use let_mil_go.Mvcc
use let_mil_go.Mvcc.Insert.{IsSorted, has_version}
use let_mil_go.Mvcc.Reads.{newest, newest-insert_in}
use let_mil_go.Mvcc.Snapshot.{readable, readable-get, later_self}
use let_mil_go.Locks.View.{recorded, recorded-release}
use let_mil_go.Buffer.{TxBuffer, WriteOp, get_write, write_ops}
use let_mil_go.Buffer
use let_mil_go.Buffer.Manager.{get-remove}
use let_mil_go.OpLog.{OpLog}
use let_mil_go.Shard.State.{Shard}
use let_mil_go.Shard.Apply.{committed, with_write, apply_writes_lem}
use let_mil_go.Shard.TwoPhase
use let_mil_go.Shard.Valid.{IsValid}
use let_mil_go.Shard.Valid.Phases.{commit-IsValid}

-- what a reader at a time finds in a key's versions once a transaction has committed
newest-with_write :
    (at commit_time : ℕ) (tx_id : String) (op : Option WriteOp) (s : MvccStore) (key : String)
    → IsSorted s
    → at < commit_time
    → newest at (with_write commit_time tx_id op (versions_of s key))
      ≡ newest at (versions_of s key)
newest-with_write at commit_time tx_id none s key sorted early = refl
newest-with_write at commit_time tx_id (some op) s key sorted early = ground (
  arith,
  newest-insert_in at 0 (committed commit_time tx_id op) (versions_of s key) (sorted.at key),
)

newest-with_write_self :
    (commit_time : ℕ) (tx_id : String) (op : WriteOp) (s : MvccStore) (key : String)
    → IsSorted s
    → has_version commit_time (versions_of s key) ≡ false
    → newest commit_time (with_write commit_time tx_id (some op) (versions_of s key))
      ≡ some (committed commit_time tx_id op)
newest-with_write_self commit_time tx_id op s key sorted fresh =
    rw
      (
        fresh,
        newest-insert_in commit_time 0 (committed commit_time tx_id op) (versions_of s key)
            (sorted.at key) fresh,
        later_self (committed commit_time tx_id op) (versions_of s key) fresh,
      )
      (ground arith)

module _ {L : Type 0} ⦃log : OpLog L⦄ where
  -- On a valid shard a commit of a transaction that has a buffer succeeds. It adds to every key
  -- that the transaction has written the version of the commit time, unless the key has that
  -- version, in which case the write is lost; every other key keeps its versions. The transaction's
  -- locks and buffer are gone, those of the others as they were.
  pub commit_lem :
      (now : ℕ) (s : Shard L) (t : String) (commit_time : ℕ) (b : TxBuffer)
      → IsValid s
      → Buffer.get s.buffer_mgr t ≡ some b
      → ((TwoPhase.commit now s t commit_time).0 ≡ ok tt)
        × ((key : String)
            → versions_of (TwoPhase.commit now s t commit_time).1.store key
              ≡ with_write commit_time t (get_write b key) (versions_of s.store key))
        × ((u key : String)
            → recorded (TwoPhase.commit now s t commit_time).1.lock_mgr u key
              ≡ (if t == u then none else recorded s.lock_mgr u key))
        × ((u : String)
            → Buffer.get (TwoPhase.commit now s t commit_time).1.buffer_mgr u
              ≡ (if t == u then none else Buffer.get s.buffer_mgr u))
  unfolding TwoPhase.commit TwoPhase.finish_commit TwoPhase.cleanup get_write
  commit_lem now s t commit_time b h found =
      let (done, _, versions) =
        apply_writes_lem s.store commit_time t b h.sorted (h.buffers t b found) in
      (
        rw (found, TwoPhase.commit, done) refl,
        λ key. rw (found, TwoPhase.commit, done) (versions key),
        λ u key. rw (found, TwoPhase.commit, done) (recorded-release s.lock_mgr t u key),
        λ u. rw (found, TwoPhase.commit, done) (get-remove s.buffer_mgr t u),
      )

  -- On a valid shard a commit, at a time but the greatest, that the written key has no version of
  -- yet is seen at that time: the value of the last write, or nothing if it was a deletion.
  pub commit_visible :
      (now : ℕ) (s : Shard L) (t : String) (commit_time : ℕ) (b : TxBuffer) (key : String)
      (op : WriteOp)
      → IsValid s
      → suc commit_time < u64_mod
      → Buffer.get s.buffer_mgr t ≡ some b
      → get_write b key ≡ some op
      → has_version commit_time (versions_of s.store key) ≡ false
      → readable (Mvcc.get (TwoPhase.commit now s t commit_time).1.store key commit_time) ≡ (
          if op.deleted
          then none
          else some (record { value = op.value; version = commit_time; tx_id = t }))
  commit_visible now s t commit_time b key op h small found written fresh =
      let (_, versions, _, _) = commit_lem now s t commit_time b h found in
      rw
        (
          readable-get _ key commit_time (commit-IsValid now s t commit_time h).sorted small,
          versions key,
          written,
          newest-with_write_self commit_time t op s.store key h.sorted fresh,
        )
        (ground arith)

  -- On a valid shard, a reader at a time before the commit time sees on every key what it saw
  -- before the commit.
  pub commit_keeps_snapshots :
      (now : ℕ) (s : Shard L) (t : String) (commit_time : ℕ) (b : TxBuffer) (key : String) (at : ℕ)
      → IsValid s
      → Buffer.get s.buffer_mgr t ≡ some b
      → at < commit_time
      → suc at < u64_mod
      → readable (Mvcc.get (TwoPhase.commit now s t commit_time).1.store key at)
        ≡ readable (Mvcc.get s.store key at)
  commit_keeps_snapshots now s t commit_time b key at h found early small =
      let (_, versions, _, _) = commit_lem now s t commit_time b h found in
      rw
        (
          readable-get _ key at (commit-IsValid now s t commit_time h).sorted small,
          readable-get s.store key at h.sorted small,
          versions key,
          newest-with_write at commit_time t (get_write b key) s.store key h.sorted early,
        )
        refl

  -- On a valid shard a write whose key has a version of the commit time already is lost: the commit
  -- succeeds, and the key keeps the versions it had.
  pub commit_drops_write :
      (now : ℕ) (s : Shard L) (t : String) (commit_time : ℕ) (b : TxBuffer) (key : String)
      → IsValid s
      → Buffer.get s.buffer_mgr t ≡ some b
      → has_version commit_time (versions_of s.store key) ≡ true
      → ((TwoPhase.commit now s t commit_time).0 ≡ ok tt)
        × (versions_of (TwoPhase.commit now s t commit_time).1.store key ≡ versions_of s.store key)
  commit_drops_write now s t commit_time b key h found taken =
      let (done, versions, _, _) = commit_lem now s t commit_time b h found in
      (
        done,
        elim (Option-cases (get_write b key)) [
          | inl unwritten ↦ rw (versions key, unwritten) refl
          | inr (op, written) ↦ rw (versions key, written, taken) refl
        ],
      )

  -- A transaction without a buffer cannot commit: `Commit` and `Prepare` report it and change
  -- nothing.
  pub commit_unknown :
      (now : ℕ) (s : Shard L) (t : String) (commit_time : ℕ)
      → Buffer.get s.buffer_mgr t ≡ none
      → TwoPhase.commit now s t commit_time ≡ (err tx_not_found, s)
  unfolding TwoPhase.commit
  commit_unknown now s t commit_time missing = rw (missing, TwoPhase.commit) refl
