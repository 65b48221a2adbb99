-- ===== src/Mulberry/Asking.antt =====
-- The first phase of the commit of mulberry.go over shard servers.
use let_mil_go.Common.{
  ℕ, ◌≡◌, refl, ap, ◌∙◌, inl, inr, String, List, [], ◌∷◌, string_eq, Option-cases,
}
use let_mil_go.Rpc.{Status, Try, success, failure}
use let_mil_go.OpLog.{OpLog}
use let_mil_go.Shard.Server.{PrepareResponse}
use let_mil_go.Mulberry.State.{
  TxContext, RouterError, prepare_stub, gone_in_commit, prepare_failed, Sys, Action, pure, ◌>>=◌,
}
use let_mil_go.Mulberry.Router.{stub_of, shard_info}
use let_mil_go.Mulberry.TwoPhase
use let_mil_go.Mulberry.TwoPhase.{max_time, vote_of, update_clock}
use let_mil_go.Mulberry.Cluster.{Cluster, cluster_network}
use let_mil_go.Mulberry.Cluster.Serve.{store_at, buffers_at, Asked, prepare-Asked}
use let_mil_go.Mulberry.Direct.{IsDirect, stub_of-Dialled, give_up-KeepsStores}

module _ {L : Type 0} ⦃log : OpLog L⦄ where
  -- how the first phase, or a round of it, has ended
  abbrev pub Phase :
      {A : Type 0} → Sys (Cluster L) String → Try RouterError A × Sys (Cluster L) String → Type 0
  Phase s (success _, s') =
      IsDirect s'
      × (s'.router.topology ≡ s.router.topology)
      × ((a : String) → store_at s'.world a ≡ store_at s.world a)
      × ((a : String) → buffers_at s'.world a ≡ buffers_at s.world a)
  Phase s (failure _, s') = (a : String) → store_at s'.world a ≡ store_at s.world a

  -- the count of an answer that the cluster has given
  count_vote-Phase :
      (t id : String) (ctx : TxContext) (s s1 : Sys (Cluster L) String)
      (p : Try Status PrepareResponse × Cluster L)
      → IsDirect s1
      → s1.world ≡ s.world
      → s1.router.topology ≡ s.router.topology
      → Asked s1.world p
      → Phase s
          (TwoPhase.count_vote ⦃net = cluster_network⦄ t ctx id p.0 (record s1 { world = p.1 }))
  unfolding TwoPhase.count_vote
  count_vote-Phase t id ctx s s1 (reply, c) d same topology (valid, stores, buffers) =
      elim (Option-cases (vote_of reply)) [
        | inr (time, agreed) ↦
            rw (agreed, TwoPhase.count_vote)
              (
                record { shards = valid; stubs = d.stubs },
                topology,
                λ a. stores a ∙ ap (λ w. store_at w a) same,
                λ a. buffers time agreed a ∙ ap (λ w. buffers_at w a) same,
              )
        | inl no_vote ↦
            rw (no_vote, TwoPhase.count_vote)
              (unfold TwoPhase.give_up in
                λ a.
                  (give_up-KeepsStores ℕ t ctx (prepare_failed id) (record s1 { world = c })
                      (record { shards = valid; stubs = d.stubs })).1
                    a
                  ∙ stores a
                  ∙ ap (λ w. store_at w a) same)
      ]

  prepare_shard-Phase :
      (t id : String) (ctx : TxContext) (s : Sys (Cluster L) String)
      → IsDirect s
      → Phase s (TwoPhase.prepare_shard ⦃net = cluster_network⦄ t ctx id s)
  unfolding TwoPhase.prepare_shard TwoPhase.ask_vote
  prepare_shard-Phase t id ctx s h = elim (Option-cases (shard_info s id)) [
    | inl gone ↦
        rw (gone, TwoPhase.prepare_shard)
          (unfold TwoPhase.give_up in (give_up-KeepsStores ℕ t ctx (gone_in_commit id) s h).1)
    | inr (info, known) ↦
        let (e, same, topology, d) = stub_of-Dialled prepare_stub info.address s h in
        let s1 = (stub_of ⦃net = cluster_network⦄ prepare_stub info.address s).1 in
        rw (known, TwoPhase.prepare_shard)
          (rw (e, TwoPhase.ask_vote)
            (count_vote-Phase t id ctx s s1 _ d same topology (
              prepare-Asked t info.address ctx.snapshot_time ctx.isolation_level s1.world
                d.shards)))
  ]

  then-Phase :
      (s : Sys (Cluster L) String) (first : Try RouterError ℕ × Sys (Cluster L) String)
      (rest : Action (Cluster L) String (List ℕ))
      → Phase s first
      → ((s' : Sys (Cluster L) String) → IsDirect s' → Phase s' (rest s'))
      → Phase s (((λ _. first) >>= λ at. rest >>= λ times. pure (at ∷ times)) s)
  then-Phase s (failure e, s') rest h others = h
  then-Phase s (success at, s') rest (d, topology, stores, buffers) others =
      joined s s' at (rest s').0 (rest s').1 (d, topology, stores, buffers) (others s' d)
    where
      joined :
          (s s' : Sys (Cluster L) String) (at : ℕ) (r : Try RouterError (List ℕ))
          (u : Sys (Cluster L) String)
          → Phase s (success at, s')
          → Phase s' (r, u)
          → Phase {A = List ℕ} s
              (elim r [ success times ↦ (success (at ∷ times), u) | failure e ↦ (failure e, u) ])
      joined s s' at (success times) u (_, k, a, b) (d, l, a', b') =
          (d, l ∙ k, (λ x. a' x ∙ a x), (λ x. b' x ∙ b x))
      joined s s' at (failure e) u (_, k, a, b) a' = λ x. a' x ∙ a x

  pub prepare_shards-Phase :
      (t : String) (ctx : TxContext) (ids : List String) (s : Sys (Cluster L) String)
      → IsDirect s
      → Phase s (TwoPhase.prepare_shards ⦃net = cluster_network⦄ t ctx ids s)
  unfolding TwoPhase.prepare_shards
  prepare_shards-Phase t ctx [] s h = (h, refl, (λ a. refl), (λ a. refl))
  prepare_shards-Phase t ctx (id ∷ ids) s h =
      then-Phase s (TwoPhase.prepare_shard ⦃net = cluster_network⦄ t ctx id s)
        (TwoPhase.prepare_shards ⦃net = cluster_network⦄ t ctx ids)
        (prepare_shard-Phase t id ctx s h) (λ s' d. prepare_shards-Phase t ctx ids s' d)
