-- ===== src/Shard/Interleaving.antt =====
-- Between the two phases of a transaction of shard.go, whatever the others do.
use let_mil_go.Common.{
  ℕ, ◌≡◌, ◌≢◌, refl, sym, ap, ◌∙◌, String, Bool, true, false, some, List, [], ◌∷◌, arith, All, ◌==◌,
  ==-refl, ==-differ, string_eq, inl, inr,
}
use let_mil_go.GoMap.{is_some}
use let_mil_go.Locks.{lock_write}
use let_mil_go.Locks.View.{recorded}
use let_mil_go.Buffer.{TxBuffer, get_write}
use let_mil_go.Buffer
use let_mil_go.OpLog.{OpLog}
use let_mil_go.Shard.State.{Shard, IsolationLevel, vote_commit, vote_abort}
use let_mil_go.Shard
use let_mil_go.Shard.TwoPhase
use let_mil_go.Shard.Valid.{IsValid}
use let_mil_go.Shard.Valid.Phases.{prepare-IsValid}
use let_mil_go.Shard.Valid.Runs.{
  Call, starts, reads, writes, deletes, prepares, commits, aborts, puts, removes, collects, ticks,
  updates, after, run, after-IsValid, run-IsValid,
}
use let_mil_go.Shard.Voting.{prepare_lem}
use let_mil_go.Shard.Voting.Conflicts.{prepare_locked_out}
use let_mil_go.Shard.Untouched.{
  Untouched, same_state-Untouched, tx_start-Untouched, tx_read-Untouched, tx_write-Untouched,
  tx_delete-Untouched, prepare-Untouched, commit-Untouched, abort-Untouched,
}

-- whether a call is one of a transaction
abbrev pub made_by : String → Call → Bool
made_by t (starts u) = u == t
made_by t (reads _ u _ _) = u == t
made_by t (writes _ u _ _) = u == t
made_by t (deletes _ u _) = u == t
made_by t (prepares _ u _) = u == t
made_by t (commits _ u _) = u == t
made_by t (aborts _ u) = u == t
made_by t _ = false

module _ {L : Type 0} ⦃log : OpLog L⦄ (t : String) where
  after-Untouched :
      (c : Call) (s : Shard L) → IsValid s → made_by t c ≡ false → Untouched t s (after c s)
  unfolding after
  after-Untouched (starts u) s h other = tx_start-Untouched t u s (==-differ u t other)
  after-Untouched (reads now u key at) s h other =
      tx_read-Untouched t u now s key at (==-differ u t other)
  after-Untouched (writes now u key value) s h other =
      tx_write-Untouched t u now s key value (==-differ u t other)
  after-Untouched (deletes now u key) s h other =
      tx_delete-Untouched t u now s key (==-differ u t other)
  after-Untouched (prepares now u iso) s h other =
      prepare-Untouched t u now s iso h (==-differ u t other)
  after-Untouched (commits now u commit_time) s h other =
      commit-Untouched t u now s commit_time h (==-differ u t other)
  after-Untouched (aborts now u) s h other = abort-Untouched t u now s (==-differ u t other)
  after-Untouched (puts key value version u) s h other =
      unfold Shard.put in record { locks = λ k. refl; buffer = refl }
  after-Untouched (removes key version u) s h other =
      unfold Shard.delete in record { locks = λ k. refl; buffer = refl }
  after-Untouched (collects min_version) s h other =
      unfold Shard.gc in record { locks = λ k. refl; buffer = refl }
  after-Untouched (ticks now) s h other =
      unfold Shard.hlc_tick in record { locks = λ k. refl; buffer = refl }
  after-Untouched (updates now incoming) s h other =
      unfold Shard.hlc_update in record { locks = λ k. refl; buffer = refl }

  -- Calls that are not a transaction's own leave its locks and its buffer.
  pub run-Untouched :
      (cs : List Call) (s : Shard L)
      → IsValid s
      → All (λ c. made_by t c ≡ false) cs
      → Untouched t s (run cs s)
  unfolding run
  run-Untouched [] s h others = same_state-Untouched t s
  run-Untouched (c ∷ cs) s h others =
      let first = after-Untouched c s h others.0 in
      let rest = run-Untouched cs (after c s) (after-IsValid c s h) others.1 in
      record {
        locks = λ key. rest.locks key ∙ first.locks key;
        buffer = rest.buffer ∙ first.buffer;
      }

module _ {L : Type 0} ⦃log : OpLog L⦄ where
  -- On a valid shard, from the vote to commit a transaction until its own next call, whatever calls
  -- the other transactions make and in whatever order, it keeps the write lock on every key that it
  -- has written, and its buffer, which the commit applies, stays.
  pub prepared_holds :
      (now : ℕ) (s : Shard L) (t key : String) (iso : IsolationLevel) (b : TxBuffer)
      (cs : List Call)
      → IsValid s
      → Buffer.get s.buffer_mgr t ≡ some b
      → (TwoPhase.prepare now s t iso).0.vote ≡ vote_commit
      → is_some (get_write b key) ≡ true
      → All (λ c. made_by t c ≡ false) cs
      → (recorded (run cs (TwoPhase.prepare now s t iso).1).lock_mgr t key ≡ some lock_write)
        × (Buffer.get (run cs (TwoPhase.prepare now s t iso).1).buffer_mgr t ≡ some b)
  prepared_holds now s t key iso b cs h found voted written others =
      let u =
        run-Untouched t cs (TwoPhase.prepare now s t iso).1 (prepare-IsValid now s t iso h)
          others in
      elim (prepare_lem now s t iso b h found) [
        | inr (refused, _) ↦ absurd (cc (voted, refused))
        | inl (_, p) ↦ (
          u.locks key ∙ ground (arith, p.locks t key, ==-refl t, written),
          u.buffer ∙ ap (λ m. Buffer.get m t) p.buffers ∙ found,
        )
      ]

  -- On a valid shard, from the vote to commit a transaction until its own next call, whatever calls
  -- the other transactions make, every other transaction that writes one of its keys is voted down,
  -- at any isolation levels.
  pub prepared_blocks :
      (now now' : ℕ) (s : Shard L) (t u key : String) (iso iso' : IsolationLevel) (b c : TxBuffer)
      (cs : List Call)
      → IsValid s
      → Buffer.get s.buffer_mgr t ≡ some b
      → (TwoPhase.prepare now s t iso).0.vote ≡ vote_commit
      → is_some (get_write b key) ≡ true
      → All (λ c. made_by t c ≡ false) cs
      → t ≢ u
      → Buffer.get (run cs (TwoPhase.prepare now s t iso).1).buffer_mgr u ≡ some c
      → is_some (get_write c key) ≡ true
      → (TwoPhase.prepare now' (run cs (TwoPhase.prepare now s t iso).1) u iso').0.vote ≡ vote_abort
  prepared_blocks now now' s t u key iso iso' b c cs h found voted written others ne found_u wrote =
      let (held, _) = prepared_holds now s t key iso b cs h found voted written others in
      let s' = (TwoPhase.prepare now s t iso).1 in
      let h' = run-IsValid cs s' (prepare-IsValid now s t iso h) in
      (prepare_locked_out now' (run cs s') u t key iso' c h' found_u wrote (λ e. ne (sym e)) held).0
