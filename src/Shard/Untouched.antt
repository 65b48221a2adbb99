-- ===== src/Shard/Untouched.antt =====
-- What a call of a shard of shard.go by one transaction leaves of another: its locks and its buffer.
use let_mil_go.Common.{
  ℕ, ◌≡◌, ◌≢◌, refl, ap, inl, inr, String, arith, ==-ne, string_eq, Bool-cases, Option-cases,
}
use let_mil_go.Errors.{Result, ok, err, key_not_found, version_not_found}
use let_mil_go.Mvcc
use let_mil_go.Mvcc.{Found}
use let_mil_go.Locks.View.{recorded}
use let_mil_go.Buffer.{TxBuffer}
use let_mil_go.Buffer
use let_mil_go.Buffer.Manager.{get-keep, get-start}
use let_mil_go.OpLog.{OpLog, OpType}
use let_mil_go.Shard.State.{Shard, IsolationLevel}
use let_mil_go.Shard
use let_mil_go.Shard.TwoPhase
use let_mil_go.Shard.Valid.{IsValid}
use let_mil_go.Shard.Committed.{commit_lem, commit_unknown}
use let_mil_go.Shard.Voting.{Cleaned, prepare_lem, abort_cleanup-Cleaned}

module _ {L : Type 0} ⦃log : OpLog L⦄ where
  -- the locks and the buffer of a transaction are as they were
  pub record Untouched (t : String) (s s' : Shard L) : Type 0 where
    pub locks : (key : String) → recorded s'.lock_mgr t key ≡ recorded s.lock_mgr t key
    pub buffer : Buffer.get s'.buffer_mgr t ≡ Buffer.get s.buffer_mgr t

  pub same_state-Untouched : (t : String) (s : Shard L) → Untouched t s s
  same_state-Untouched t s = record { locks = λ key. refl; buffer = refl }

  kept-Untouched :
      (t u : String) (s : Shard L) (b : TxBuffer) → u ≢ t → Untouched t s (Shard.keep_buffer s u b)
  unfolding Shard.keep_buffer
  kept-Untouched t u s b other = record {
    locks = λ key. refl;
    buffer = ground (arith, get-keep s.buffer_mgr u t b, ==-ne u t other);
  }

  logged-Untouched :
      (t u : String) (now : ℕ) (key value : String) (op_type : OpType) (s : Shard L) (b : TxBuffer)
      → u ≢ t
      → Untouched t s (Shard.log_ticked now u key value op_type (Shard.keep_buffer s u b))
  unfolding Shard.log_ticked
  logged-Untouched t u now key value op_type s b other =
      let k = kept-Untouched t u s b other in record { locks = k.locks; buffer = k.buffer }

  pub tx_start-Untouched :
      (t u : String) (s : Shard L) → u ≢ t → Untouched t s (Shard.tx_start s u).1
  unfolding Shard.tx_start
  tx_start-Untouched t u s other = elim (Option-cases (Buffer.get s.buffer_mgr u)) [
    | inr (b, old) ↦ rw (old, Shard.tx_start) (same_state-Untouched t s)
    | inl missing ↦
        rw (missing, Shard.tx_start)
          (record {
            locks = λ key. refl;
            buffer = ground (arith, get-start s.buffer_mgr u t, ==-ne u t other);
          })
  ]

  external_read-Untouched :
      (t u : String) (now : ℕ) (s : Shard L) (b : TxBuffer) (key : String) (r : Result Found)
      → u ≢ t
      → Untouched t s (Shard.external_read now s u b key r).1
  unfolding Shard.external_read
  external_read-Untouched t u now s b key (err key_not_found) other = kept-Untouched t u s _ other
  external_read-Untouched t u now s b key (err version_not_found) other =
      kept-Untouched t u s _ other
  external_read-Untouched t u now s b key (err _) other = same_state-Untouched t s
  external_read-Untouched t u now s b key (ok found) other =
      logged-Untouched t u now key found.value _ s _ other

  pub tx_read-Untouched :
      (t u : String) (now : ℕ) (s : Shard L) (key : String) (at : ℕ)
      → u ≢ t
      → Untouched t s (Shard.tx_read now s u key at).1
  unfolding Shard.tx_read
  tx_read-Untouched t u now s key at other = elim (Option-cases (Buffer.get s.buffer_mgr u)) [
    | inl missing ↦ rw (missing, Shard.tx_read) (same_state-Untouched t s)
    | inr (b, found) ↦
        rw (found, Shard.tx_read)
          (elim (Option-cases (Buffer.get_write b key)) [
            | inl external ↦
                rw external
                  (external_read-Untouched t u now s b key (Mvcc.get s.store key at) other)
            | inr (op, own) ↦ rw own (elim (Bool-cases op.deleted) [
              | inl gone ↦ rw gone (same_state-Untouched t s)
              | inr kept ↦ rw kept (same_state-Untouched t s)
            ])
          ])
  ]

  pub tx_write-Untouched :
      (t u : String) (now : ℕ) (s : Shard L) (key value : String)
      → u ≢ t
      → Untouched t s (Shard.tx_write now s u key value).1
  unfolding Shard.tx_write
  tx_write-Untouched t u now s key value other = elim (Option-cases (Buffer.get s.buffer_mgr u)) [
    | inl missing ↦ rw (missing, Shard.tx_write) (same_state-Untouched t s)
    | inr (b, found) ↦ rw (found, Shard.tx_write) (logged-Untouched t u now key value _ s _ other)
  ]

  pub tx_delete-Untouched :
      (t u : String) (now : ℕ) (s : Shard L) (key : String)
      → u ≢ t
      → Untouched t s (Shard.tx_delete now s u key).1
  unfolding Shard.tx_delete
  tx_delete-Untouched t u now s key other = elim (Option-cases (Buffer.get s.buffer_mgr u)) [
    | inl missing ↦ rw (missing, Shard.tx_delete) (same_state-Untouched t s)
    | inr (b, found) ↦ rw (found, Shard.tx_delete) (logged-Untouched t u now key "" _ s _ other)
  ]

  Cleaned-Untouched : (t u : String) (s s' : Shard L) → u ≢ t → Cleaned s s' u → Untouched t s s'
  Cleaned-Untouched t u s s' other c = record {
    locks = λ key. ground (arith, c.locks t key, ==-ne u t other);
    buffer = ground (arith, c.buffers t, ==-ne u t other);
  }

  pub prepare-Untouched :
      (t u : String) (now : ℕ) (s : Shard L) (iso : IsolationLevel)
      → IsValid s
      → u ≢ t
      → Untouched t s (TwoPhase.prepare now s u iso).1
  unfolding TwoPhase.prepare
  prepare-Untouched t u now s iso h other = elim (Option-cases (Buffer.get s.buffer_mgr u)) [
    | inl missing ↦ rw (missing, TwoPhase.prepare) (same_state-Untouched t s)
    | inr (b, found) ↦ elim (prepare_lem now s u iso b h found) [
      | inl (_, p) ↦ record {
        locks = λ key. ground (arith, p.locks t key, ==-ne u t other);
        buffer = ap (λ m. Buffer.get m t) p.buffers;
      }
      | inr (_, c) ↦ Cleaned-Untouched t u s _ other c
    ]
  ]

  pub commit-Untouched :
      (t u : String) (now : ℕ) (s : Shard L) (commit_time : ℕ)
      → IsValid s
      → u ≢ t
      → Untouched t s (TwoPhase.commit now s u commit_time).1
  commit-Untouched t u now s commit_time h other = elim (Option-cases (Buffer.get s.buffer_mgr u)) [
    | inl missing ↦ rw (commit_unknown now s u commit_time missing) (same_state-Untouched t s)
    | inr (b, found) ↦
        let (_, _, locks, buffers) = commit_lem now s u commit_time b h found in
        record {
          locks = λ key. ground (arith, locks t key, ==-ne u t other);
          buffer = ground (arith, buffers t, ==-ne u t other);
        }
  ]

  pub abort-Untouched :
      (t u : String) (now : ℕ) (s : Shard L) → u ≢ t → Untouched t s (TwoPhase.abort now s u).1
  unfolding TwoPhase.abort
  abort-Untouched t u now s other = Cleaned-Untouched t u s _ other (abort_cleanup-Cleaned now s u)
