-- ===== src/Mulberry/Outcome.antt =====
-- When the commit of mulberry.go succeeds, and what a change of the topology between its phases does.
use let_mil_go.Common.{
  ℕ, ◌≡◌, refl, ◌∙◌, ◌⊎◌, inl, inr, String, true, none, List, [], ◌∷◌, ◌==◌, ==_iff, string_eq,
  Option-cases, Bool-cases,
}
use let_mil_go.GoMap
use let_mil_go.GoMap.{is_some}
use let_mil_go.GoMap.Unique.{elem, elem-keys}
use let_mil_go.Rpc.{Try, success, failure}
use let_mil_go.Csrs
use let_mil_go.Mulberry.Network.{Network}
use let_mil_go.Mulberry.State.{TxContext, RouterError, prepare_stub, panicked, Sys, Action, ◌>>◌}
use let_mil_go.Mulberry.Router.{shard_info, remove_tx_context}
use let_mil_go.Mulberry.TwoPhase
use let_mil_go.Mulberry.TwoPhase.{max_time, vote_of, update_clock}
use let_mil_go.Mulberry.Journal.{Journal, recording}
use let_mil_go.Mulberry.Kept.{stub_of_lem}

module _ {W C : Type 0} (net : Network W C) where
  -- a shard whose stub is not to be had, or that is not registered, stops the second phase
  abbrev Stopped : Sys (Journal W C) C → Try RouterError (Unit {0}) × Sys (Journal W C) C → Type 0
  Stopped s (r, s') =
      ((r ≡ failure panicked) ⊎ (r ≡ success tt))
      × (s'.router.topology ≡ s.router.topology)
      × (s'.router.active_txns ≡ s.router.active_txns)

  commit_shard-Stopped :
      (tx_id id : String) (at : ℕ) (s : Sys (Journal W C) C)
      → Stopped s (TwoPhase.commit_shard ⦃net = recording net⦄ tx_id at id s)
  unfolding TwoPhase.commit_shard TwoPhase.send_commit
  commit_shard-Stopped tx_id id at s = elim (Option-cases (shard_info s id)) [
    | inl gone ↦ rw (gone, TwoPhase.commit_shard) (inl refl, refl, refl)
    | inr (info, known) ↦
        let (k, same, active, reply) = stub_of_lem net prepare_stub info.address s in
        rw (known, TwoPhase.commit_shard)
          (elim reply [
            | inl (stub, e, _) ↦ rw (e, TwoPhase.send_commit) (inr refl, k.topology, active)
            | inr (_, st, e) ↦ rw (e, TwoPhase.send_commit) (inl refl, k.topology, active)
          ])
  ]

  commit_shard_gone :
      (tx_id id : String) (at : ℕ) (s : Sys (Journal W C) C)
      → shard_info s id ≡ none
      → (TwoPhase.commit_shard ⦃net = recording net⦄ tx_id at id s).0 ≡ failure panicked
  unfolding TwoPhase.commit_shard
  commit_shard_gone tx_id id at s gone = rw (gone, TwoPhase.commit_shard) refl

  abbrev Panics : Sys (Journal W C) C → Try RouterError (Unit {0}) × Sys (Journal W C) C → Type 0
  Panics s (r, s') = (r ≡ failure panicked) × (s'.router.active_txns ≡ s.router.active_txns)

  -- one round, and the rest if it has not panicked
  then-Panics :
      (s : Sys (Journal W C) C) (first : Try RouterError (Unit {0}) × Sys (Journal W C) C)
      (rest : Action (Journal W C) C (Unit {0}))
      → Stopped s first
      → (first.0 ≡ success tt → Panics first.1 (rest first.1))
      → Panics s (((λ _. first) >> rest) s)
  then-Panics s (failure e, t) rest (inl h, _, active) _ = (h, active)
  then-Panics s (failure e, t) rest (inr h, _, active) _ = absurd (cc h)
  then-Panics s (success u, t) rest (_, _, active) later =
      let (h, a) = later refl in (h, a ∙ active)

  commit_shards_gone :
      (tx_id gone : String) (at : ℕ) (ids : List String) (s : Sys (Journal W C) C)
      → elem gone ids ≡ true
      → shard_info s gone ≡ none
      → Panics s (TwoPhase.commit_shards ⦃net = recording net⦄ tx_id at ids s)
  unfolding TwoPhase.commit_shards
  commit_shards_gone tx_id gone at [] s h missing = absurd (cc h)
  commit_shards_gone tx_id gone at (id ∷ ids) s h missing =
      let one = TwoPhase.commit_shard ⦃net = recording net⦄ tx_id at id s in
      let stopped = commit_shard-Stopped tx_id id at s in
      then-Panics s one (TwoPhase.commit_shards ⦃net = recording net⦄ tx_id at ids) stopped (λ done.
        elim (Bool-cases (id == gone)) [
          | inl same ↦
              absurd
                (cc (done, commit_shard_gone tx_id id at s (rw ((==_iff id gone).0 same) missing)))
          | inr other ↦
              commit_shards_gone tx_id gone at ids one.1 (rw other at h)
                (unfold shard_info in rw stopped.1 missing)
        ])

  Panics-finish :
      (tx_id : String) (s : Sys (Journal W C) C)
      (p : Try RouterError (Unit {0}) × Sys (Journal W C) C)
      → Panics s p
      → Panics s (((λ _. p) >> remove_tx_context tx_id) s)
  Panics-finish tx_id s (failure e, t) h = h
  Panics-finish tx_id s (success u, t) (h, _) = absurd (cc h)

  -- Where a shard of the transaction has left the topology since it has voted, the second phase
  -- reads a nil pointer: it panics, and the transaction stays open in the router.
  pub finish_gone :
      (tx_id gone : String) (at : ℕ) (ctx : TxContext) (s : Sys (Journal W C) C)
      → is_some (GoMap.get ctx.involved_shards gone) ≡ true
      → Csrs.get_shard_info s.router.topology gone ≡ none
      → ((TwoPhase.finish ⦃net = recording net⦄ tx_id ctx at s).0 ≡ failure panicked)
        × ((TwoPhase.finish ⦃net = recording net⦄ tx_id ctx at s).1.router.active_txns
            ≡ s.router.active_txns)
  unfolding TwoPhase.finish
  finish_gone tx_id gone at ctx s involved missing =
      let ids = GoMap.keys ctx.involved_shards in
      Panics-finish tx_id s (TwoPhase.commit_shards ⦃net = recording net⦄ tx_id at ids s) (
        commit_shards_gone tx_id gone at ids s (elem-keys ctx.involved_shards gone ∙ involved)
          (unfold shard_info in missing))
