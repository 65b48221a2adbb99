-- ===== src/Mulberry/Unanimous.antt =====
-- What the two-phase commit of mulberry.go asks of the shards, and when it tells them to commit.
use mathlib.Core.List.{append_assoc, append-nil}
use let_mil_go.Common.{
  ℕ, suc, ◌≡◌, refl, ap, ◌∙◌, inl, inr, String, List, [], ◌∷◌, ◌++◌, length, All, string_eq,
  Option-cases,
}
use let_mil_go.Rpc.{Try, success, failure}
use let_mil_go.Mulberry.Network.{Network}
use let_mil_go.Mulberry.State.{
  TxContext, RouterError, prepare_stub, gone_in_commit, Sys, Action, pure, ◌>>=◌,
}
use let_mil_go.Mulberry.Router.{shard_info}
use let_mil_go.Mulberry.TwoPhase
use let_mil_go.Mulberry.TwoPhase.{max_time, vote_of}
use let_mil_go.Mulberry.Journal.{Journal, recording, votes, commits}
use let_mil_go.Mulberry.Kept.{Kept, Kept-refl, Kept-trans, stub_of_lem}
use let_mil_go.Mulberry.Counting.{
  Ready, Kept-Ready, GivenUp, give_up-GivenUp, Prepared, count_vote-Prepared,
}

module _ {W C : Type 0} (net : Network W C) where
  pub prepare_shard-Prepared :
      (tx_id id : String) (ctx : TxContext) (s : Sys (Journal W C) C)
      → Prepared net tx_id s id (TwoPhase.prepare_shard ⦃net = recording net⦄ tx_id ctx id s)
  unfolding TwoPhase.prepare_shard TwoPhase.ask_vote
  prepare_shard-Prepared tx_id id ctx s = elim (Option-cases (shard_info s id)) [
    | inl gone ↦
        rw (gone, TwoPhase.prepare_shard)
          (unfold TwoPhase.give_up in
            give_up-GivenUp net tx_id ctx (gone_in_commit id) s s refl refl)
    | inr (info, known) ↦
        let (k, same, active, reply) = stub_of_lem net prepare_stub info.address s in
        rw (known, TwoPhase.prepare_shard)
          (elim reply [
            | inl (stub, e, found) ↦
                rw (e, TwoPhase.ask_vote)
                  (count_vote-Prepared net tx_id id ctx info stub s _ _ _ known k same active found)
            | inr (_, st, e) ↦
                rw (e, TwoPhase.ask_vote)
                  (unfold TwoPhase.give_up in
                    give_up-GivenUp net tx_id ctx (prepare_stub st) s _ refl (ap commits same))
          ])
  ]

  abbrev pub AllPrepared :
      String
      → Sys (Journal W C) C
      → List String
      → Try RouterError (List ℕ) × Sys (Journal W C) C
      → Type 0
  AllPrepared tx_id s ids (success times, s') =
      Kept s s'
      × (s'.router.active_txns ≡ s.router.active_txns)
      × (votes s'.world.events ≡ votes s.world.events ++ times)
      × (commits s'.world.events ≡ commits s.world.events)
      × All (Ready s') ids
      × (length times ≡ length ids)
  AllPrepared tx_id s ids (failure e, s') = GivenUp tx_id e s s'

  prepend :
      (tx_id id : String) (ids : List String) (at : ℕ) (s t : Sys (Journal W C) C)
      (r : Try RouterError (List ℕ)) (u : Sys (Journal W C) C)
      → Prepared net tx_id s id (success at, t)
      → AllPrepared tx_id t ids (r, u)
      → AllPrepared tx_id s
          (id ∷ ids)
          (elim r [ success times ↦ (success (at ∷ times), u) | failure e ↦ (failure e, u) ])
  prepend tx_id id ids at s t (failure e) u (k, active, vs, cs, ready) (h, same, gone) =
      (h, same ∙ cs, gone)
  prepend tx_id id ids at s t (success times) u (k, active, vs, cs, ready) (l, a, v, c, rs, n) = (
    Kept-trans k l,
    a ∙ active,
    rw (v, vs) (append_assoc (votes s.world.events) (at ∷ []) times),
    c ∙ cs,
    (Kept-Ready id l ready, rs),
    ap suc n,
  )

  then_prepare :
      (tx_id id : String) (ids : List String) (s : Sys (Journal W C) C)
      (first : Try RouterError ℕ × Sys (Journal W C) C) (rest : Action (Journal W C) C (List ℕ))
      → Prepared net tx_id s id first
      → ((t : Sys (Journal W C) C) → AllPrepared tx_id t ids (rest t))
      → AllPrepared tx_id s
          (id ∷ ids)
          (((λ _. first) >>= λ at. rest >>= λ times. pure (at ∷ times)) s)
  then_prepare tx_id id ids s (failure e, t) rest h others = h
  then_prepare tx_id id ids s (success at, t) rest h others =
      prepend tx_id id ids at s t (rest t).0 (rest t).1 h (others t)

  -- The first phase: it has a vote to commit of every shard, or gives up.
  pub prepare_shards-AllPrepared :
      (tx_id : String) (ctx : TxContext) (ids : List String) (s : Sys (Journal W C) C)
      → AllPrepared tx_id s ids (TwoPhase.prepare_shards ⦃net = recording net⦄ tx_id ctx ids s)
  unfolding TwoPhase.prepare_shards
  prepare_shards-AllPrepared tx_id ctx [] s =
      (Kept-refl s, refl, rw append-nil refl, refl, tt, refl)
  prepare_shards-AllPrepared tx_id ctx (id ∷ ids) s =
      then_prepare tx_id id ids s (TwoPhase.prepare_shard ⦃net = recording net⦄ tx_id ctx id s)
        (TwoPhase.prepare_shards ⦃net = recording net⦄ tx_id ctx ids)
        (prepare_shard-Prepared tx_id id ctx s) (λ t. prepare_shards-AllPrepared tx_id ctx ids t)
