-- ===== src/Shard/Survival.antt =====
-- The nil pointers of shard.go: no handler of internal/shard/server.go meets one on a valid shard.
use let_mil_go.Common.{
  ℕ, ◌≡◌, ◌≢◌, refl, inl, inr, String, Bool, true, false, ◌&&◌, some, length, ◌==◌, nat_eq,
  string_eq, Bool-cases, Option-cases,
}
use let_mil_go.Errors.{
  Error, key_not_found, version_not_found, version_conflict, lock_conflict, lock_not_held, deadlock,
  tx_already_exists, tx_not_found, tx_no_ops, panic,
}
use let_mil_go.Rpc.{Try, success, failure}
use let_mil_go.Buffer.{TxBuffer, write_ops, read_records}
use let_mil_go.Buffer
use let_mil_go.OpLog.{OpLog}
use let_mil_go.Shard.State.{Shard, IsolationLevel, vote_unknown}
use let_mil_go.Shard.Loops.{Check, valid, invalid, broken, validate}
use let_mil_go.Shard.TwoPhase
use let_mil_go.Shard.Valid.{IsValid}
use let_mil_go.Shard.Voting.{prepare_lem}
use let_mil_go.Shard.Committed.{commit_lem, commit_unknown}
use let_mil_go.Shard.Server.{Fault, status, crash, prepare_error, commit_error, convert_error}
use let_mil_go.Shard.Server

abbrev pub ends_process : Fault → Bool
ends_process crash = true
ends_process (status _) = false

abbrev pub is_crash : {A : Type 0} → Try Fault A → Bool
is_crash (failure f) = ends_process f
is_crash (success _) = false

-- only a panic ends the process
prepare_error_status : (e : Error) → e ≢ panic → ends_process (prepare_error e) ≡ false
unfolding prepare_error
prepare_error_status key_not_found h = refl
prepare_error_status version_not_found h = refl
prepare_error_status version_conflict h = refl
prepare_error_status lock_conflict h = refl
prepare_error_status lock_not_held h = refl
prepare_error_status deadlock h = refl
prepare_error_status tx_already_exists h = refl
prepare_error_status tx_not_found h = refl
prepare_error_status tx_no_ops h = refl
prepare_error_status panic h = absurd (h refl)

module _ {L : Type 0} ⦃log : OpLog L⦄ where
  -- a panic of `Prepare` is no vote
  decide_panic :
      (now : ℕ) (s : Shard L) (t : String) (c : Check)
      → (TwoPhase.decide_vote now s t c).0.error ≡ some panic
      → (TwoPhase.decide_vote now s t c).0.vote ≡ vote_unknown
  unfolding TwoPhase.decide_vote TwoPhase.refuse TwoPhase.prepared
  decide_panic now s t valid h = absurd (cc h)
  decide_panic now s t invalid h = absurd (cc h)
  decide_panic now s t broken h = refl

  prepare_panic :
      (now : ℕ) (s : Shard L) (t : String) (iso : IsolationLevel) (b : TxBuffer)
      → Buffer.get s.buffer_mgr t ≡ some b
      → (TwoPhase.prepare now s t iso).0.error ≡ some panic
      → (TwoPhase.prepare now s t iso).0.vote ≡ vote_unknown
  unfolding TwoPhase.prepare TwoPhase.lock_and_validate
  prepare_panic now s t iso b found =
      rw (found, TwoPhase.prepare)
        (elim (Bool-cases (length (write_ops b) == 0 && length (read_records b) == 0)) [
          | inl idle ↦ rw idle (λ h. absurd (cc h))
          | inr busy ↦ rw busy (elim (Bool-cases (TwoPhase.start_and_lock s t b).0) [
            | inr refused ↦ rw refused (unfold TwoPhase.refuse in λ h. absurd (cc h))
            | inl all ↦ rw all (
                decide_panic now (TwoPhase.start_and_lock s t b).1 t
                  (validate (TwoPhase.start_and_lock s t b).1.store b iso))
          ])
        ])

  pub prepare_survives :
      (now : ℕ) (s : Shard L) (t : String) (at : ℕ) (iso : IsolationLevel)
      → IsValid s
      → is_crash (Server.prepare now s t at iso).0 ≡ false
  unfolding Server.prepare Server.prepare_response
  prepare_survives now s t at iso h = elim (Option-cases (Buffer.get s.buffer_mgr t)) [
    | inl missing ↦ unfold TwoPhase.prepare prepare_error in rw (missing, TwoPhase.prepare) refl
    | inr (b, found) ↦ elim (Option-cases (TwoPhase.prepare now s t iso).0.error) [
      | inl fine ↦ rw (fine, Server.prepare_response) refl
      | inr (e, failed) ↦
          rw (failed, Server.prepare_response)
            (prepare_error_status e (λ is_panic.
              let unknown = prepare_panic now s t iso b found (rw is_panic at failed) in
              elim (prepare_lem now s t iso b h found) [
                | inl (voted, _) ↦ cc (unknown, voted)
                | inr (refused, _) ↦ cc (unknown, refused)
              ]))
    ]
  ]

  pub commit_survives :
      (now : ℕ) (s : Shard L) (t : String) (at : ℕ)
      → IsValid s
      → is_crash (Server.commit now s t at).0 ≡ false
  unfolding Server.commit commit_error
  commit_survives now s t at h = elim (Option-cases (Buffer.get s.buffer_mgr t)) [
    | inl missing ↦ rw (commit_unknown now s t at missing) refl
    | inr (b, found) ↦ rw (commit_lem now s t at b h found).0 refl
  ]

  -- On a valid shard the handlers of `Prepare` and `Commit`, the two that read through pointers of a
  -- transaction's buffer, meet no nil pointer: each answers with a response or a status, for every
  -- transaction, known or not.
  pub handlers_survive :
      (now : ℕ) (s : Shard L) (t : String) (at : ℕ) (iso : IsolationLevel)
      → IsValid s
      → (is_crash (Server.prepare now s t at iso).0 ≡ false)
        × (is_crash (Server.commit now s t at).0 ≡ false)
  handlers_survive now s t at iso h =
      (prepare_survives now s t at iso h, commit_survives now s t at h)
