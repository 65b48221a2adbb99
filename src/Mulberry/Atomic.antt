-- ===== src/Mulberry/Atomic.antt =====
-- The two-phase commit of mulberry.go over shard servers: all of the transaction's writes, or none.
use let_mil_go.Common.{
  ℕ, ◌≡◌, refl, ap, ◌∙◌, some-inj, ◌⊎◌, inl, inr, String, some, List, [], ◌∷◌, All, string_eq,
  Option-cases,
}
use let_mil_go.GoMap
use let_mil_go.GoMap.Unique.Pigeons.{NoRepeats}
use let_mil_go.Rpc.{Try, success, failure}
use let_mil_go.Hlc
use let_mil_go.Buffer
use let_mil_go.Buffer.{TxBuffer}
use let_mil_go.OpLog.{OpLog}
use let_mil_go.Shard.State.{Shard}
use let_mil_go.Mulberry.State.{TxContext, RouterError, tx_missing, Sys, ◌>>=◌, ◌>>◌, or_raise-some}
use let_mil_go.Mulberry.Router.{get_tx_context, remove_tx_context}
use let_mil_go.Mulberry.TwoPhase
use let_mil_go.Mulberry.TwoPhase.{max_time, update_clock}
use let_mil_go.Mulberry.Cluster.{Cluster, cluster_network}
use let_mil_go.Mulberry.Cluster.Serve.{store_at, buffers_at}
use let_mil_go.Mulberry.Cluster.Ends.{Applied}
use let_mil_go.Mulberry.Direct.{IsDirect}
use let_mil_go.Mulberry.Asking.{Phase, prepare_shards-Phase}
use let_mil_go.Mulberry.Applying.{Located, Located-registry, Ended, commit_shards-Ended}

module _ {L : Type 0} ⦃log : OpLog L⦄ where
  -- a shard that looks as before
  seen_again :
      (c c1 : Cluster L) (a : String) (s : Shard L)
      → store_at c1 a ≡ store_at c a
      → buffers_at c1 a ≡ buffers_at c a
      → GoMap.get c.shards a ≡ some s
      → (s1 : Shard L) × (GoMap.get c1.shards a ≡ some s1)
        × (s1.store ≡ s.store)
        × (s1.buffer_mgr ≡ s.buffer_mgr)
  seen_again c c1 a s stores buffers found = elim (Option-cases (GoMap.get c1.shards a)) [
    | inl missing ↦ absurd (cc (rw (found, missing) at stores))
    | inr (s1, found1) ↦ (
      s1,
      found1,
      some-inj (rw (found, found1) at stores),
      some-inj (rw (found, found1) at buffers),
    )
  ]

  -- writes that were applied after the first phase were applied to the stores before it
  Applied-before :
      (c c1 c2 : Cluster L) (t : String) (at : ℕ) (addresses : List String)
      → ((a : String) → store_at c1 a ≡ store_at c a)
      → ((a : String) → buffers_at c1 a ≡ buffers_at c a)
      → All (Applied c1 c2 t at) addresses
      → All (Applied c c2 t at) addresses
  Applied-before c c1 c2 t at [] stores buffers h = tt
  Applied-before c c1 c2 t at (a ∷ addresses) stores buffers (h, rest) = (
    λ s b found has.
        let (s1, found1, same, same_buffers) = seen_again c c1 a s (stores a) (buffers a) found in
        let (s', there, versions) = h s1 b found1 (ap (λ m. Buffer.get m t) same_buffers ∙ has) in
        (s', there, λ key. rw (← same) (versions key)),
    Applied-before c c1 c2 t at addresses stores buffers rest,
  )

  -- all of the transaction's writes, or none
  abbrev pub AllOrNothing :
      Sys (Cluster L) String
      → String
      → List String
      → Try RouterError (Unit {0}) × Sys (Cluster L) String
      → Type 0
  AllOrNothing s t addresses (r, s') =
      ((r ≡ success tt) × (at : ℕ) × All (Applied s.world s'.world t at) addresses)
      ⊎ ((e : RouterError) × (r ≡ failure e)
          × ((a : String) → store_at s'.world a ≡ store_at s.world a))

  then_removed :
      (t : String) (at : ℕ) (addresses : List String) (s u : Sys (Cluster L) String)
      (p : Try RouterError (Unit {0}) × Sys (Cluster L) String)
      → ((a : String) → store_at u.world a ≡ store_at s.world a)
      → ((a : String) → buffers_at u.world a ≡ buffers_at s.world a)
      → Ended u t at addresses p
      → AllOrNothing s t addresses (((λ _. p) >> remove_tx_context t) u)
  unfolding remove_tx_context
  then_removed t at addresses s u (failure e, v) stores buffers (done, _, _, _, _) =
      absurd (cc done)
  then_removed t at addresses s u (success _, v) stores buffers (_, _, _, _, all) =
      inl (refl, at, Applied-before s.world u.world v.world t at addresses stores buffers all)

  decided :
      (now : ℕ) (t : String) (ctx : TxContext) (s : Sys (Cluster L) String)
      (addresses : List String) (first : Try RouterError (List ℕ) × Sys (Cluster L) String)
      → Located s (GoMap.keys ctx.involved_shards) addresses
      → NoRepeats addresses
      → Phase s first
      → AllOrNothing s t addresses (
          ((λ _. first) >>= λ times.
          update_clock now (max_time 0 times) >>= TwoPhase.finish ⦃net = cluster_network⦄ t ctx)
            s)
  unfolding update_clock TwoPhase.finish
  decided now t ctx s addresses (failure e, u) located n h = inr (e, refl, h)
  decided now t ctx s addresses (success times, u) located n (d, k, stores, buffers) =
      let ids = GoMap.keys ctx.involved_shards in
      let (at, clock) = Hlc.update now (max_time 0 times) u.router.topology.clock in
      let v : Sys (Cluster L) String = record u {
        router = record u.router { topology = record u.router.topology { clock = clock } };
      } in
      then_removed t at addresses s v (TwoPhase.commit_shards ⦃net = cluster_network⦄ t at ids v)
        stores buffers
        (commit_shards-Ended t at ids addresses v (record { shards = d.shards; stubs = d.stubs })
          (Located-registry s v ids addresses (ap (λ m. m.registry) k) located) n)

  -- Over a cluster of valid shards, `Commit` of an open transaction whose shards are registered, no
  -- two at one address, is atomic. If it succeeds, then at every one of the shards at which the
  -- transaction has a buffer all its writes are versions of one commit time, as a single shard's
  -- commit makes them; if it fails, every store of the cluster is as before.
  pub commit_atomic :
      (now : ℕ) (t : String) (s : Sys (Cluster L) String) (ctx : TxContext)
      (addresses : List String)
      → GoMap.get s.router.active_txns t ≡ some ctx
      → IsDirect s
      → Located s (GoMap.keys ctx.involved_shards) addresses
      → NoRepeats addresses
      → AllOrNothing s t addresses (TwoPhase.commit ⦃net = cluster_network⦄ now t s)
  unfolding TwoPhase.commit get_tx_context
  commit_atomic now t s ctx addresses open_tx d located n =
      let ids = GoMap.keys ctx.involved_shards in
      rw
        (or_raise-some (tx_missing t) (GoMap.get s.router.active_txns t) ctx
          (λ ctx'.
            TwoPhase.prepare_shards ⦃net = cluster_network⦄ t ctx' (GoMap.keys ctx'.involved_shards)
            >>= λ times.
                update_clock now (max_time 0 times)
                >>= TwoPhase.finish ⦃net = cluster_network⦄ t ctx')
          s open_tx)
        (decided now t ctx s addresses (TwoPhase.prepare_shards ⦃net = cluster_network⦄ t ctx ids s)
          located n (prepare_shards-Phase t ctx ids s d))
