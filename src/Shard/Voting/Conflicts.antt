-- ===== src/Shard/Voting/Conflicts.antt =====
-- Transactions of shard.go that write the same key, and what SI lets through.
use let_mil_go.Common.{
  ℕ, ◌≡◌, ◌≢◌, refl, inl, inr, String, true, false, none, some, [], ◌∷◌, arith, ==-refl, ==-ne,
  nat_eq, string_eq,
}
use let_mil_go.Errors.{Result, ok, err}
use let_mil_go.GoMap.{is_some, get-put}
use let_mil_go.Mvcc
use let_mil_go.Mvcc.{Found}
use let_mil_go.Locks.{lock_none, lock_write}
use let_mil_go.Locks.View.{recorded, entry_of}
use let_mil_go.Locks.Exclusion.{acquire_write_unlocked, write_excludes}
use let_mil_go.Buffer.{
  TxBuffer, WriteOp, get_write, put_write, has_write, write_ops, write_keys, read_records,
}
use let_mil_go.Buffer
use let_mil_go.Buffer.Manager.{get-keep}
use let_mil_go.OpLog.{OpLog}
use let_mil_go.Shard.State.{
  Shard, vote_commit, vote_abort, IsolationLevel, isolation_si, version_or_zero,
}
use let_mil_go.Shard.Loops.{validate, check_writes, write_current, acquire_writes}
use let_mil_go.Shard
use let_mil_go.Shard.TwoPhase
use let_mil_go.Shard.Valid.{IsValid}
use let_mil_go.Shard.Valid.Phases.{prepare-IsValid}
use let_mil_go.Shard.Voting.{prepare_lem}

-- the first write of a buffer
put_write-single :
    (b : TxBuffer) (key value : String) (version : ℕ)
    → write_keys b ≡ []
    → get_write b key ≡ none
    → (write_keys (put_write b key value version) ≡ key ∷ [])
      × (write_ops (put_write b key value version)
          ≡ some (record { key = key; value = value; deleted = false; original_version = version })
            ∷ [])
unfolding write_keys write_ops put_write get_write has_write
put_write-single b key value version empty fresh =
    (rw (fresh, empty) refl, rw (fresh, empty, get-put, ==-refl key) refl)

-- the latest version, as a write has just recorded it
write_current_self :
    (latest : Result Found) (key value : String)
    → write_current latest (record {
      key = key;
      value = value;
      deleted = false;
      original_version = version_or_zero latest;
    })
      ≡ true
write_current_self (ok found) key value = ==-refl found.version
write_current_self (err e) key value = refl

module _ {L : Type 0} ⦃log : OpLog L⦄ where
  -- A transaction that writes a key which another one has locked for writing is voted down, and the
  -- other keeps its lock.
  pub prepare_locked_out :
      (now : ℕ) (s : Shard L) (t u key : String) (iso : IsolationLevel) (b : TxBuffer)
      → IsValid s
      → Buffer.get s.buffer_mgr t ≡ some b
      → is_some (get_write b key) ≡ true
      → t ≢ u
      → recorded s.lock_mgr u key ≡ some lock_write
      → ((TwoPhase.prepare now s t iso).0.vote ≡ vote_abort)
        × (recorded (TwoPhase.prepare now s t iso).1.lock_mgr u key ≡ some lock_write)
  prepare_locked_out now s t u key iso b h found written ne owned =
      elim (prepare_lem now s t iso b h found) [
        | inr (refused, c) ↦ (refused, ground (arith, c.locks u key, ==-ne t u ne, owned))
        | inl (_, p) ↦
            let s' = (TwoPhase.prepare now s t iso).1 in
            let h' = prepare-IsValid now s t iso h in
            let mine : recorded s'.lock_mgr t key ≡ some lock_write =
              ground (arith, p.locks t key, ==-refl t, written) in
            let theirs : recorded s'.lock_mgr u key ≡ some lock_write =
              ground (arith, p.locks u key, ==-ne t u ne, owned) in
            absurd (cc (write_excludes s'.lock_mgr t u key h'.locks mine ne, theirs))
      ]

  -- the vote on a single write of an unlocked key
  pub single_write :
      (now : ℕ) (s : Shard L) (t : String) (c : TxBuffer) (op : WriteOp)
      → Buffer.get s.buffer_mgr t ≡ some c
      → write_keys c ≡ op.key ∷ []
      → write_ops c ≡ some op ∷ []
      → (entry_of s.lock_mgr op.key).mode ≡ lock_none
      → write_current (Mvcc.get_latest s.store op.key) op ≡ true
      → (TwoPhase.prepare now s t isolation_si).0.vote ≡ vote_commit
  unfolding TwoPhase.prepare TwoPhase.lock_and_validate TwoPhase.start_and_lock TwoPhase.decide_vote
      TwoPhase.prepared acquire_writes validate check_writes
  single_write now s t c op found keys ops free current =
      rw
        (
          found,
          TwoPhase.prepare,
          keys,
          ops,
          acquire_write_unlocked s.lock_mgr t op.key free,
          acquire_writes,
          validate,
          current,
        )
        refl

  -- The validation of SI knows nothing of a snapshot: a transaction whose buffer has no write yet,
  -- from whatever snapshot its reads were made, and whose first write is of an unlocked key is
  -- voted to commit, even if the key has got a version since that snapshot.
  pub si_ignores_snapshot :
      (now now' : ℕ) (s : Shard L) (t key value : String) (b : TxBuffer)
      → Buffer.get s.buffer_mgr t ≡ some b
      → write_keys b ≡ []
      → get_write b key ≡ none
      → (entry_of s.lock_mgr key).mode ≡ lock_none
      → (TwoPhase.prepare now' (Shard.tx_write now s t key value).1 t isolation_si).0.vote
        ≡ vote_commit
  unfolding Shard.tx_write Shard.log_ticked Shard.keep_buffer
  si_ignores_snapshot now now' s t key value b found empty fresh free =
      let latest = Mvcc.get_latest s.store key in
      let version = version_or_zero latest in
      let op : WriteOp = record {
        key = key;
        value = value;
        deleted = false;
        original_version = version;
      } in
      let single = put_write-single b key value version empty fresh in
      rw (found, Shard.tx_write)
        (single_write now' _ t (put_write b key value version) op
          (ground (arith, get-keep s.buffer_mgr t t (put_write b key value version), ==-refl t))
          single.0 single.1 free (write_current_self latest key value))
