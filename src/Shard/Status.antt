-- ===== src/Shard/Status.antt =====
-- The status of a transaction in internal/model/transaction.go along the two phases of shard.go.
use let_mil_go.Common.{
  ℕ, ◌≡◌, refl, subst, inl, inr, String, ◌&&◌, some, length, ◌==◌, ==-refl, nat_eq, string_eq,
  Bool-cases,
}
use let_mil_go.GoMap.{get-put}
use let_mil_go.Hlc
use let_mil_go.Buffer.{TxBuffer, write_ops, read_records}
use let_mil_go.Buffer
use let_mil_go.TxStatus.{
  TxStatusTable, TxState, TxStatus, tx_running, tx_prepared, tx_committed, tx_aborted, change,
}
use let_mil_go.TxStatus
use let_mil_go.OpLog.{OpLog}
use let_mil_go.Shard.State.{Shard, IsolationLevel, vote_commit}
use let_mil_go.Shard.Loops.{Check, valid, invalid, broken}
use let_mil_go.Shard.TwoPhase
use let_mil_go.Shard
use let_mil_go.Shard.Valid.{IsValid}
use let_mil_go.Shard.Apply.{apply_writes_lem}
use let_mil_go.Shard.Valid.Phases.{prepare-IsValid}

-- a change of a state that the table has
get-change :
    (f : TxState → TxState) (t : TxStatusTable) (tx_id : String) (state : TxState)
    → TxStatus.get t tx_id ≡ some state
    → TxStatus.get (change f t tx_id) tx_id ≡ some (f state)
unfolding TxStatus.get change
get-change f t tx_id state found = rw (change, found, get-put, ==-refl tx_id) refl

get-started :
    (t : TxStatusTable) (tx_id : String)
    → TxStatus.get (TxStatus.start t tx_id) tx_id
      ≡ some (record { status = tx_running; prepare_time = 0 })
unfolding TxStatus.get TxStatus.start
get-started t tx_id = rw (get-put, ==-refl tx_id) refl

module _ {L : Type 0} ⦃log : OpLog L⦄ where
  decided_commit :
      (now : ℕ) (s : Shard L) (t : String) (c : Check)
      → (TwoPhase.decide_vote now s t c).0.vote ≡ vote_commit
      → TwoPhase.decide_vote now s t c ≡ TwoPhase.prepared now s t
  unfolding TwoPhase.decide_vote TwoPhase.refuse
  decided_commit now s t valid voted = refl
  decided_commit now s t invalid voted = absurd (cc voted)
  decided_commit now s t broken voted = absurd (cc voted)

  -- the only way to the vote to commit
  prepare_commit :
      (now : ℕ) (s : Shard L) (t : String) (iso : IsolationLevel) (b : TxBuffer)
      → Buffer.get s.buffer_mgr t ≡ some b
      → (TwoPhase.prepare now s t iso).0.vote ≡ vote_commit
      → TwoPhase.prepare now s t iso ≡ TwoPhase.prepared now (TwoPhase.start_and_lock s t b).1 t
  unfolding TwoPhase.prepare TwoPhase.lock_and_validate TwoPhase.refuse
  prepare_commit now s t iso b found voted =
      let v = rw (found, TwoPhase.prepare) at voted in
      rw (found, TwoPhase.prepare)
        (elim (Bool-cases (length (write_ops b) == 0 && length (read_records b) == 0)) [
          | inl idle ↦ absurd (cc (rw idle at v))
          | inr busy ↦
              let v' = rw busy at v in
              rw busy (elim (Bool-cases (TwoPhase.start_and_lock s t b).0) [
                | inr refused ↦ absurd (cc (rw refused at v'))
                | inl all ↦ rw all (decided_commit now _ t _ (rw all at v'))
              ])
        ])

  -- the status table, when the vote is to commit
  get-prepared :
      (now : ℕ) (s : Shard L) (t : String) (b : TxBuffer)
      → TxStatus.get (TwoPhase.prepared now (TwoPhase.start_and_lock s t b).1 t).1.tx_status_tbl t
        ≡ some (record { status = tx_prepared; prepare_time = (Hlc.tick now s.clock).0 })
  unfolding TwoPhase.prepared TwoPhase.start_and_lock TxStatus.prepare
  get-prepared now s t b =
      get-change _ (TxStatus.start s.tx_status_tbl t) t _ (get-started s.tx_status_tbl t)

  get-committed :
      (now : ℕ) (s : Shard L) (t : String) (commit_time : ℕ) (b : TxBuffer) (state : TxState)
      → IsValid s
      → Buffer.get s.buffer_mgr t ≡ some b
      → TxStatus.get s.tx_status_tbl t ≡ some state
      → TxStatus.get (TwoPhase.commit now s t commit_time).1.tx_status_tbl t
        ≡ some (record state { status = tx_committed })
  unfolding TwoPhase.commit TwoPhase.finish_commit TwoPhase.cleanup TxStatus.commit
  get-committed now s t commit_time b state h found known =
      let (done, _, _) = apply_writes_lem s.store commit_time t b h.sorted (h.buffers t b found) in
      rw (found, TwoPhase.commit, done) (get-change _ s.tx_status_tbl t state known)

  get-aborted :
      (now : ℕ) (s : Shard L) (t : String) (state : TxState)
      → TxStatus.get s.tx_status_tbl t ≡ some state
      → TxStatus.get (TwoPhase.abort now s t).1.tx_status_tbl t
        ≡ some (record state { status = tx_aborted })
  unfolding TwoPhase.abort TwoPhase.abort_cleanup TwoPhase.cleanup TxStatus.abort Shard.log_ticked
  get-aborted now s t state known = get-change _ s.tx_status_tbl t state known

  -- On a valid shard, a vote to commit makes the status of its transaction PREPARED, with the
  -- timestamp that the clock issued and the reply carries; a commit then makes it COMMITTED, and an
  -- abort ABORTED, with the same timestamp.
  pub two_phase_status :
      (now now' : ℕ) (s : Shard L) (t : String) (iso : IsolationLevel) (b : TxBuffer)
      (commit_time : ℕ)
      → IsValid s
      → Buffer.get s.buffer_mgr t ≡ some b
      → (TwoPhase.prepare now s t iso).0.vote ≡ vote_commit
      → ((TwoPhase.prepare now s t iso).0.prepare_time ≡ (Hlc.tick now s.clock).0)
        × (TxStatus.get (TwoPhase.prepare now s t iso).1.tx_status_tbl t
            ≡ some (record { status = tx_prepared; prepare_time = (Hlc.tick now s.clock).0 }))
        × (TxStatus.get
              (TwoPhase.commit now' (TwoPhase.prepare now s t iso).1 t commit_time).1.tx_status_tbl
              t
            ≡ some (record { status = tx_committed; prepare_time = (Hlc.tick now s.clock).0 }))
        × (TxStatus.get (TwoPhase.abort now' (TwoPhase.prepare now s t iso).1 t).1.tx_status_tbl t
            ≡ some (record { status = tx_aborted; prepare_time = (Hlc.tick now s.clock).0 }))
  two_phase_status now now' s t iso b commit_time h found voted =
      let e = prepare_commit now s t iso b found voted in
      let s1 = (TwoPhase.prepared now (TwoPhase.start_and_lock s t b).1 t).1 in
      let h' : IsValid s1 = subst (λ p. IsValid p.1) e (prepare-IsValid now s t iso h) in
      let kept : Buffer.get s1.buffer_mgr t ≡ some b =
        unfold TwoPhase.prepared TwoPhase.start_and_lock in found in
      let known = get-prepared now s t b in
      rw e (
        unfold TwoPhase.prepared TwoPhase.start_and_lock in refl,
        known,
        get-committed now' s1 t commit_time b _ h' kept known,
        get-aborted now' s1 t _ known,
      )
