-- ===== src/Shard/Voting.antt =====
-- What the vote of `Prepare` of internal/shard/component/shard.go promises.
pub mod Locking
pub mod Validation
pub mod Conflicts
use let_mil_go.Common.{
  ℕ, ◌≡◌, ◌≢◌, refl, ap, ◌∙◌, inl, inr, ◌⊎◌, String, Bool, true, false, ◌&&◌, Option, none, some,
  List, [], ◌∷◌, arith, length, ◌==◌, ==_iff, ==-refl, ==-ne, nat_eq, string_eq, if◌then◌else◌,
  Bool-cases, Option-cases,
}
use let_mil_go.Errors.{Result, ok, err, tx_no_ops}
use let_mil_go.GoMap.{is_some}
use let_mil_go.GoMap
use let_mil_go.GoMap.Unique.{elem}
use let_mil_go.Mvcc
use let_mil_go.Locks.{LockManager, LockMode, lock_write}
use let_mil_go.Locks.View.{recorded, recorded-release}
use let_mil_go.Buffer.{TxBuffer, WriteOp, get_write, write_ops, write_keys, read_records}
use let_mil_go.Buffer
use let_mil_go.Buffer.Invariant.{IsOrdered}
use let_mil_go.Buffer.Manager.{get-remove}
use let_mil_go.OpLog.{OpLog}
use let_mil_go.Shard.State.{
  Shard, PrepareReply, Vote, vote_unknown, vote_commit, vote_abort, IsolationLevel, isolation_si,
  isolation_ser,
}
use let_mil_go.Shard.Loops.{Check, valid, invalid, broken, validate, acquire_writes}
use let_mil_go.Shard
use let_mil_go.Shard.TwoPhase
use let_mil_go.Shard.Valid.{IsValid}
use let_mil_go.Shard.Voting.Locking.{acquire_writes-others, acquire_writes-recorded}
use let_mil_go.Shard.Voting.Validation.{is_broken, validate-not_broken}

module _ {L : Type 0} ⦃log : OpLog L⦄ where
  -- the shard has nothing of a transaction any more; the others' locks and buffers, and the store,
  -- stay
  pub record Cleaned (s s' : Shard L) (t : String) : Type 0 where
    pub locks :
        (u key : String)
        → recorded s'.lock_mgr u key ≡ (if t == u then none else recorded s.lock_mgr u key)
    pub buffers :
        (u : String)
        → Buffer.get s'.buffer_mgr u ≡ (if t == u then none else Buffer.get s.buffer_mgr u)
    pub store : s'.store ≡ s.store

  -- A cleanup after an abort leaves nothing of the transaction and all of the others.
  pub abort_cleanup-Cleaned :
      (now : ℕ) (s : Shard L) (t : String) → Cleaned s (TwoPhase.abort_cleanup now s t) t
  unfolding TwoPhase.abort_cleanup TwoPhase.cleanup Shard.log_ticked
  abort_cleanup-Cleaned now s t = record {
    locks = λ u key. recorded-release s.lock_mgr t u key;
    buffers = λ u. get-remove s.buffer_mgr t u;
    store = refl;
  }

  -- every key that the transaction has written is locked for it and the validation has passed; the
  -- other locks, the buffers and the store stay
  pub record Prepared (s s' : Shard L) (t : String) (b : TxBuffer) (iso : IsolationLevel)
      : Type 0 where
    pub locks :
        (u key : String)
        → recorded s'.lock_mgr u key ≡ (
            if t == u && is_some (get_write b key)
            then some lock_write
            else recorded s.lock_mgr u key)
    pub current : validate s.store b iso ≡ valid
    pub buffers : s'.buffer_mgr ≡ s.buffer_mgr
    pub store : s'.store ≡ s.store

  start_and_lock_lem :
      (s : Shard L) (t u key : String) (b : TxBuffer)
      → IsValid s
      → t ≢ u
      → recorded (TwoPhase.start_and_lock s t b).1.lock_mgr u key ≡ recorded s.lock_mgr u key
  unfolding TwoPhase.start_and_lock
  start_and_lock_lem s t u key b h ne =
      acquire_writes-others t s.lock_mgr (write_keys b) u key h.locks ne

  refuse-Cleaned :
      (now : ℕ) (s : Shard L) (t : String) (b : TxBuffer)
      → IsValid s
      → Cleaned s (TwoPhase.abort_cleanup now (TwoPhase.start_and_lock s t b).1 t) t
  refuse-Cleaned now s t b h =
      let c = abort_cleanup-Cleaned now (TwoPhase.start_and_lock s t b).1 t in
      record {
        locks = λ u key. c.locks u key ∙ elim (Bool-cases (t == u)) [
          | inl same ↦ rw same refl
          | inr other ↦
              rw other (start_and_lock_lem s t u key b h (λ e. ground (arith, ==_iff t u)))
        ];
        buffers = λ u. c.buffers u ∙ unfold TwoPhase.start_and_lock in refl;
        store = c.store ∙ unfold TwoPhase.start_and_lock in refl;
      }

  abbrev pub Outcome :
      Shard L → String → IsolationLevel → TxBuffer → PrepareReply × Shard L → Type 0
  Outcome s t iso b (reply, s') =
      ((reply.vote ≡ vote_commit) × Prepared s s' t b iso)
      ⊎ ((reply.vote ≡ vote_abort) × Cleaned s s' t)

  -- the vote, once every key is locked
  decided :
      (now : ℕ) (s : Shard L) (t : String) (iso : IsolationLevel) (b : TxBuffer) (c : Check)
      → IsValid s
      → IsOrdered b
      → (TwoPhase.start_and_lock s t b).0 ≡ true
      → validate s.store b iso ≡ c
      → Outcome s t iso b (TwoPhase.decide_vote now (TwoPhase.start_and_lock s t b).1 t c)
  unfolding TwoPhase.decide_vote TwoPhase.refuse TwoPhase.prepared
  decided now s t iso b valid h o all e = inl (
    refl,
    record {
      locks = λ u key.
          unfold TwoPhase.start_and_lock write_keys get_write in
          rw (← o.listed key)
            (acquire_writes-recorded t s.lock_mgr b.write_order u key h.locks all);
      current = e;
      buffers = unfold TwoPhase.start_and_lock in refl;
      store = unfold TwoPhase.start_and_lock in refl;
    },
  )
  decided now s t iso b invalid h o all e = inr (refl, refuse-Cleaned now s t b h)
  decided now s t iso b broken h o all e =
      absurd (cc (ap is_broken e, validate-not_broken s.store b iso o))

  -- On a valid shard `Prepare` of a transaction that has a buffer either votes commit, and then
  -- every key that the transaction has written is locked for it and the validation of its isolation
  -- level has passed, or votes abort, and then the shard keeps no lock and no buffer of it. The
  -- store and the locks of the other transactions stay.
  pub prepare_lem :
      (now : ℕ) (s : Shard L) (t : String) (iso : IsolationLevel) (b : TxBuffer)
      → IsValid s
      → Buffer.get s.buffer_mgr t ≡ some b
      → Outcome s t iso b (TwoPhase.prepare now s t iso)
  unfolding TwoPhase.prepare TwoPhase.lock_and_validate
  prepare_lem now s t iso b h found =
      rw (found, TwoPhase.prepare)
        (elim (Bool-cases (length (write_ops b) == 0 && length (read_records b) == 0)) [
          | inl idle ↦ rw idle (inr (refl, abort_cleanup-Cleaned now s t))
          | inr busy ↦ rw busy (elim (Bool-cases (TwoPhase.start_and_lock s t b).0) [
            | inr refused ↦
                rw refused (unfold TwoPhase.refuse in inr (refl, refuse-Cleaned now s t b h))
            | inl all ↦ rw all (
                decided now s t iso b _ h (h.buffers t b found) all
                  (unfold TwoPhase.start_and_lock in refl))
          ])
        ])
