-- ===== src/Mulberry/Applying.antt =====
-- The second phase of mulberry.go over shard servers: what it applies, and at which addresses.
use let_mil_go.Common.{
  ℕ, ◌≡◌, refl, ap, ◌∙◌, inl, inr, String, true, false, some, List, [], ◌∷◌, arith, All, ◌==◌,
  ==_iff, string_eq, Bool-cases,
}
use let_mil_go.GoMap
use let_mil_go.GoMap.Unique.{elem}
use let_mil_go.GoMap.Unique.Pigeons.{NoRepeats}
use let_mil_go.Rpc.{Try, success, failure}
use let_mil_go.Csrs.Registry.{ShardInfo}
use let_mil_go.Csrs
use let_mil_go.OpLog.{OpLog}
use let_mil_go.Mulberry.State.{RouterError, prepare_stub, Sys, Action, ◌>>◌}
use let_mil_go.Mulberry.Router.{stub_of, shard_info}
use let_mil_go.Mulberry.TwoPhase
use let_mil_go.Mulberry.TwoPhase.{max_time, update_clock}
use let_mil_go.Mulberry.Cluster.{Cluster, cluster_network}
use let_mil_go.Mulberry.Cluster.Ends.{Applied, commit_applies}
use let_mil_go.Mulberry.Direct.{IsDirect, stub_of-Dialled}

module _ {L : Type 0} ⦃log : OpLog L⦄ where
  -- the shards are registered at these addresses
  abbrev pub Located : Sys (Cluster L) String → List String → List String → Type 0
  Located s [] [] = Unit
  Located s (id ∷ ids) (a ∷ addresses) =
      ((info : ShardInfo) × (Csrs.get_shard_info s.router.topology id ≡ some info)
        × (info.address ≡ a))
      × Located s ids addresses
  Located s _ _ = ⊥

  pub Located-registry :
      (s s' : Sys (Cluster L) String) (ids addresses : List String)
      → s'.router.topology.registry ≡ s.router.topology.registry
      → Located s ids addresses
      → Located s' ids addresses
  unfolding Csrs.get_shard_info
  Located-registry s s' [] [] same h = tt
  Located-registry s s' (id ∷ ids) (a ∷ addresses) same ((info, known, at), h) =
      ((info, rw same known, at), Located-registry s s' ids addresses same h)
  Located-registry s s' [] (a ∷ addresses) same h = absurd h
  Located-registry s s' (id ∷ ids) [] same h = absurd h

  -- the second phase at some addresses: the writes are applied there, the other servers stay
  abbrev pub Ended :
      Sys (Cluster L) String
      → String
      → ℕ
      → List String
      → Try RouterError (Unit {0}) × Sys (Cluster L) String
      → Type 0
  Ended s t at addresses (r, s') =
      (r ≡ success tt)
      × IsDirect s'
      × (s'.router.topology ≡ s.router.topology)
      × ((b : String)
          → elem b addresses ≡ false
          → GoMap.get s'.world.shards b ≡ GoMap.get s.world.shards b)
      × All (Applied s.world s'.world t at) addresses

  commit_shard-Ended :
      (t id : String) (at : ℕ) (s : Sys (Cluster L) String) (info : ShardInfo)
      → IsDirect s
      → Csrs.get_shard_info s.router.topology id ≡ some info
      → Ended s t at (info.address ∷ []) (TwoPhase.commit_shard ⦃net = cluster_network⦄ t at id s)
  unfolding TwoPhase.commit_shard TwoPhase.send_commit shard_info
  commit_shard-Ended t id at s info h known =
      let (e, same, topology, d) = stub_of-Dialled prepare_stub info.address s h in
      let s1 = (stub_of ⦃net = cluster_network⦄ prepare_stub info.address s).1 in
      let (valid, others, applied) = commit_applies t info.address at s1.world d.shards in
      rw (known, TwoPhase.commit_shard)
        (rw (e, TwoPhase.send_commit)
          (
            refl,
            record { shards = valid; stubs = d.stubs },
            topology,
            λ b miss. others b (ground (arith, miss)) ∙ ap (λ c. GoMap.get c.shards b) same,
            (
              λ u b found has.
                  applied u b (ap (λ c. GoMap.get c.shards info.address) same ∙ found) has,
              tt,
            ),
          ))

  -- what has been applied at an address stays where the later servers are others
  keep-Applied :
      (c c1 c2 : Cluster L) (t a : String) (at : ℕ)
      → GoMap.get c2.shards a ≡ GoMap.get c1.shards a
      → Applied c c1 t at a
      → Applied c c2 t at a
  keep-Applied c c1 c2 t a at same applied u b found has =
      let (s', there, versions) = applied u b found has in (s', same ∙ there, versions)

  -- and where the earlier servers are others, it is applied to what was there before
  All-Applied :
      (c c1 c2 : Cluster L) (t : String) (at : ℕ) (addresses : List String)
      → ((b : String) → elem b addresses ≡ true → GoMap.get c1.shards b ≡ GoMap.get c.shards b)
      → All (Applied c1 c2 t at) addresses
      → All (Applied c c2 t at) addresses
  All-Applied c c1 c2 t at [] same h = tt
  All-Applied c c1 c2 t at (a ∷ addresses) same (h, rest) = (
    λ u b found has. h u b (same a (ground (arith, ==_iff a a)) ∙ found) has,
    All-Applied c c1 c2 t at addresses (λ b e. same b (ground (arith, e))) rest,
  )

  then-Ended :
      (t a : String) (at : ℕ) (addresses : List String) (s : Sys (Cluster L) String)
      (first : Try RouterError (Unit {0}) × Sys (Cluster L) String)
      (rest : Action (Cluster L) String (Unit {0}))
      → elem a addresses ≡ false
      → Ended s t at (a ∷ []) first
      → Ended first.1 t at addresses (rest first.1)
      → Ended s t at (a ∷ addresses) (((λ _. first) >> rest) s)
  then-Ended t a at addresses s (failure e, s1) rest fresh (done, _, _, _, _) h = absurd (cc done)
  then-Ended t a at addresses s (success _, s1) rest fresh (_, _, k, others, (one, _))
        (done, d, l, others', all) =
      (
        done,
        d,
        l ∙ k,
        λ b miss. others' b (ground (arith, miss)) ∙ others b (ground (arith, miss)),
        (
          keep-Applied s.world s1.world (rest s1).1.world t a at (others' a fresh) one,
          All-Applied s.world s1.world (rest s1).1.world t at addresses
              (λ b e. others b (elim (Bool-cases (a == b)) [
                | inl same ↦ absurd (cc (fresh, rw (← (==_iff a b).0 same) at e))
                | inr other ↦ ground (arith, other)
              ]))
              all,
        ),
      )

  pub commit_shards-Ended :
      (t : String) (at : ℕ) (ids addresses : List String) (s : Sys (Cluster L) String)
      → IsDirect s
      → Located s ids addresses
      → NoRepeats addresses
      → Ended s t at addresses (TwoPhase.commit_shards ⦃net = cluster_network⦄ t at ids s)
  unfolding TwoPhase.commit_shards
  commit_shards-Ended t at [] [] s h located n = (refl, h, refl, (λ b miss. refl), tt)
  commit_shards-Ended t at (id ∷ ids) (a ∷ addresses) s h ((info, known, here), located)
        (fresh, n) =
      let first = TwoPhase.commit_shard ⦃net = cluster_network⦄ t at id s in
      let one : Ended s t at (a ∷ []) first =
        rw (← here) (commit_shard-Ended t id at s info h known) in
      then-Ended t a at addresses s first (TwoPhase.commit_shards ⦃net = cluster_network⦄ t at ids)
        fresh one
        (commit_shards-Ended t at ids addresses first.1 one.1
          (Located-registry s first.1 ids addresses (ap (λ m. m.registry) one.2) located) n)
  commit_shards-Ended t at [] (a ∷ addresses) s h located n = absurd located
  commit_shards-Ended t at (id ∷ ids) [] s h located n = absurd located
