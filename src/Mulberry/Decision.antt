-- ===== src/Mulberry/Decision.antt =====
-- The decision of the two-phase commit of mulberry.go, from its first request to its last.
use mathlib.Core.List.{append_assoc, append-nil}
use let_mil_go.Common.{
  ℕ, suc, ◌≡◌, refl, ap, ◌∙◌, subst, inl, inr, String, false, none, some, List, [], ◌∷◌, ◌++◌,
  length, replicate, All, ==-refl, string_eq,
}
use let_mil_go.GoMap.{get-delete}
use let_mil_go.GoMap
use let_mil_go.Rpc.{Try, success, failure}
use let_mil_go.Hlc
use let_mil_go.Csrs
use let_mil_go.Mulberry.Network.{Network}
use let_mil_go.Mulberry.State.{
  TxContext, Router, RouterError, prepare_stub, tx_missing, Sys, Action, or_raise-some, ◌>>=◌, ◌>>◌,
}
use let_mil_go.Mulberry.Router.{shard_info, get_tx_context, remove_tx_context}
use let_mil_go.Mulberry.TwoPhase
use let_mil_go.Mulberry.TwoPhase.{max_time, update_clock}
use let_mil_go.Mulberry.Journal.{Journal, recording, votes, commits, votes-append, commits-append}
use let_mil_go.Mulberry.Kept.{Kept, Kept-refl, Kept-trans, stub_of_lem}
use let_mil_go.Mulberry.Counting.{is_panic, Ready, All-Ready}
use let_mil_go.Mulberry.Unanimous.{AllPrepared, prepare_shards-AllPrepared}

module _ {W C : Type 0} (net : Network W C) (tx_id : String) (commit_time : ℕ) where
  abbrev pub Committed :
      Sys (Journal W C) C → ℕ → Try RouterError (Unit {0}) × Sys (Journal W C) C → Type 0
  Committed s sent (r, s') =
      (r ≡ success tt)
      × Kept s s'
      × (votes s'.world.events ≡ votes s.world.events)
      × (commits s'.world.events ≡ commits s.world.events ++ replicate sent commit_time)

  commit_shard-Committed :
      (id : String) (s : Sys (Journal W C) C)
      → Ready s id
      → Committed s 1 (TwoPhase.commit_shard ⦃net = recording net⦄ tx_id commit_time id s)
  unfolding TwoPhase.commit_shard TwoPhase.send_commit votes commits
  commit_shard-Committed id s (info, known, stub, found) =
      let (k, same, active, reply) = stub_of_lem net prepare_stub info.address s in
      rw (known, TwoPhase.commit_shard)
        (elim reply [
          | inl (stub', e, _) ↦
              rw (e, TwoPhase.send_commit)
                (
                  refl,
                  record { topology = k.topology; stubs = k.stubs },
                  rw (votes-append, append-nil, same) refl,
                  rw (commits-append, same) refl,
                )
          | inr (missing, _, _) ↦ absurd (cc (missing, found))
        ])

  then_commit :
      (ids : List String) (s : Sys (Journal W C) C)
      (first : Try RouterError (Unit {0}) × Sys (Journal W C) C)
      (rest : Action (Journal W C) C (Unit {0}))
      → Committed s 1 first
      → Committed first.1 (length ids) (rest first.1)
      → Committed s (suc (length ids)) (((λ _. first) >> rest) s)
  then_commit ids s (failure e, t) rest (done, _, _, _) h = absurd (cc done)
  then_commit ids s (success _, t) rest (_, k, v, c) (done, l, w, d) = (
    done,
    Kept-trans k l,
    w ∙ v,
    rw (d, c)
        (append_assoc (commits s.world.events) (commit_time ∷ [])
          (replicate (length ids) commit_time)),
  )

  pub commit_shards-Committed :
      (ids : List String) (s : Sys (Journal W C) C)
      → All (Ready s) ids
      → Committed s
          (length ids)
          (TwoPhase.commit_shards ⦃net = recording net⦄ tx_id commit_time ids s)
  unfolding TwoPhase.commit_shards
  commit_shards-Committed [] s ready = (refl, Kept-refl s, refl, rw append-nil refl)
  commit_shards-Committed (id ∷ ids) s ready =
      let first = commit_shard-Committed id s ready.0 in
      let t = (TwoPhase.commit_shard ⦃net = recording net⦄ tx_id commit_time id s).1 in
      then_commit ids s (TwoPhase.commit_shard ⦃net = recording net⦄ tx_id commit_time id s)
        (TwoPhase.commit_shards ⦃net = recording net⦄ tx_id commit_time ids) first
        (commit_shards-Committed ids t (All-Ready ids first.1 ready.1))

-- how a commit over an empty journal has ended
abbrev pub Decided :
    {W C : Type 0}
    → Router C
    → ℕ
    → String
    → ℕ
    → Try RouterError (Unit {0}) × Sys (Journal W C) C
    → Type 0
Decided router now tx_id shards (success _, s) =
    (length (votes s.world.events) ≡ shards)
    × (commits s.world.events
        ≡ replicate shards
            (Hlc.update now (max_time 0 (votes s.world.events)) router.topology.clock).0)
    × (GoMap.get s.router.active_txns tx_id ≡ none)
Decided router now tx_id shards (failure e, s) =
    (is_panic e ≡ false)
    × (commits s.world.events ≡ [])
    × (GoMap.get s.router.active_txns tx_id ≡ none)

module _ {W C : Type 0} (net : Network W C) where
  -- the end of a second phase that has sent its commits
  finished :
      (router : Router C) (now : ℕ) (tx_id : String) (sent : ℕ) (times : List ℕ)
      (s : Sys (Journal W C) C) (p : Try RouterError (Unit {0}) × Sys (Journal W C) C)
      → votes s.world.events ≡ times
      → commits s.world.events ≡ []
      → length times ≡ sent
      → Committed net tx_id (Hlc.update now (max_time 0 times) router.topology.clock).0 s sent p
      → Decided router now tx_id sent (((λ _. p) >> remove_tx_context tx_id) s)
  unfolding remove_tx_context
  finished router now tx_id sent times s (failure e, t) vs cs n (done, _, _, _) = absurd (cc done)
  finished router now tx_id sent times s (success _, t) vs cs n (done, k, v, c) =
      (rw (v, vs) n, rw (v, vs, c, cs) refl, rw (get-delete, ==-refl tx_id) refl)

  -- the second phase, once every shard is ready
  decided :
      (router : Router C) (now : ℕ) (tx_id : String) (ctx : TxContext) (times : List ℕ)
      (s : Sys (Journal W C) C)
      → s.router.topology ≡ router.topology
      → votes s.world.events ≡ times
      → commits s.world.events ≡ []
      → All (Ready s) (GoMap.keys ctx.involved_shards)
      → length times ≡ length (GoMap.keys ctx.involved_shards)
      → Decided router now tx_id (length (GoMap.keys ctx.involved_shards)) (
          (update_clock now (max_time 0 times) >>= TwoPhase.finish ⦃net = recording net⦄ tx_id ctx)
            s)
  unfolding update_clock TwoPhase.finish shard_info Csrs.get_shard_info
  decided router now tx_id ctx times s topology vs cs ready n =
      let ids = GoMap.keys ctx.involved_shards in
      let (at, clock) = Hlc.update now (max_time 0 times) s.router.topology.clock in
      let t : Sys (Journal W C) C = record s {
        router = record s.router { topology = record s.router.topology { clock = clock } };
      } in
      finished router now tx_id (length ids) times t
        (TwoPhase.commit_shards ⦃net = recording net⦄ tx_id at ids t) vs cs n
        (subst
          (λ c.
            Committed net tx_id (Hlc.update now (max_time 0 times) c.clock).0 t (length ids)
              (TwoPhase.commit_shards ⦃net = recording net⦄ tx_id at ids t))
          topology (commit_shards-Committed net tx_id at ids t ready))

  Decided-after :
      (router : Router C) (now : ℕ) (tx_id : String) (ctx : TxContext) (s : Sys (Journal W C) C)
      (first : Try RouterError (List ℕ) × Sys (Journal W C) C)
      → s.router ≡ router
      → s.world.events ≡ []
      → AllPrepared net tx_id s (GoMap.keys ctx.involved_shards) first
      → Decided router now tx_id (length (GoMap.keys ctx.involved_shards)) (
          ((λ _. first) >>= λ times.
          update_clock now (max_time 0 times) >>= TwoPhase.finish ⦃net = recording net⦄ tx_id ctx)
            s)
  unfolding commits votes
  Decided-after router now tx_id ctx s (failure e, t) same empty (h, c, gone) =
      (h, c ∙ ap commits empty, gone)
  Decided-after router now tx_id ctx s (success times, t) same empty (k, _, v, c, ready, n) =
      decided router now tx_id ctx times t (k.topology ∙ ap (λ r. r.topology) same)
        (v ∙ ap (λ e. votes e ++ times) empty) (c ∙ ap commits empty) ready n

  pub commit_open :
      (now : ℕ) (tx_id : String) (ctx : TxContext) (s : Sys (Journal W C) C)
      → GoMap.get s.router.active_txns tx_id ≡ some ctx
      → TwoPhase.commit ⦃net = recording net⦄ now tx_id s
        ≡ (TwoPhase.prepare_shards ⦃net = recording net⦄ tx_id ctx (GoMap.keys ctx.involved_shards)
              >>= λ times.
                  update_clock now (max_time 0 times)
                  >>= TwoPhase.finish ⦃net = recording net⦄ tx_id ctx)
            s
  unfolding TwoPhase.commit get_tx_context
  commit_open now tx_id ctx s open_tx =
      or_raise-some (tx_missing tx_id) (GoMap.get s.router.active_txns tx_id) ctx
        (λ ctx'.
          TwoPhase.prepare_shards ⦃net = recording net⦄ tx_id ctx' (GoMap.keys ctx'.involved_shards)
          >>= λ times.
              update_clock now (max_time 0 times)
              >>= TwoPhase.finish ⦃net = recording net⦄ tx_id ctx')
        s open_tx

  pub commit_unanimous :
      (now : ℕ) (tx_id : String) (router : Router C) (w : W) (ctx : TxContext)
      → GoMap.get router.active_txns tx_id ≡ some ctx
      → Decided router now tx_id (length (GoMap.keys ctx.involved_shards)) (
          TwoPhase.commit ⦃net = recording net⦄ now tx_id
            (record { router = router; world = record { world = w; events = [] } }))
  commit_unanimous now tx_id router w ctx open_tx =
      let s : Sys (Journal W C) C = record {
        router = router;
        world = record { world = w; events = [] };
      } in
      rw (commit_open now tx_id ctx s open_tx) (
        Decided-after router now tx_id ctx s
          (TwoPhase.prepare_shards ⦃net = recording net⦄ tx_id ctx (GoMap.keys ctx.involved_shards)
            s)
          refl refl (prepare_shards-AllPrepared net tx_id ctx (GoMap.keys ctx.involved_shards) s))
