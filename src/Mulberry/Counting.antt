-- ===== src/Mulberry/Counting.antt =====
-- What the first phase of mulberry.go makes of the answer of a shard.
use mathlib.Core.List.{append-nil}
use let_mil_go.Common.{
  ℕ, ◌≡◌, refl, ap, ◌∙◌, inl, inr, String, Bool, true, false, none, some, List, [], ◌∷◌, ◌++◌, All,
  ==-refl, string_eq, Option-cases,
}
use let_mil_go.GoMap.{get-delete}
use let_mil_go.GoMap
use let_mil_go.Rpc.{Status, Try, success, failure}
use let_mil_go.Csrs.Registry.{ShardInfo}
use let_mil_go.Shard.Server.{PrepareResponse}
use let_mil_go.Mulberry.Network.{Network}
use let_mil_go.Mulberry.Connections.{Stub}
use let_mil_go.Mulberry.State.{TxContext, RouterError, prepare_stub, prepare_failed, panicked, Sys}
use let_mil_go.Mulberry.Router.{shard_info, remove_tx_context}
use let_mil_go.Mulberry.TwoPhase
use let_mil_go.Mulberry.TwoPhase.{max_time, vote_of}
use let_mil_go.Mulberry.Journal.{
  voted, Journal, recording, votes, commits, votes-append, commits-append,
}
use let_mil_go.Mulberry.Kept.{Kept, pooled, stub_of_lem}

abbrev pub is_panic : RouterError → Bool
is_panic panicked = true
is_panic _ = false

module _ {W C : Type 0} where
  -- the shard is registered and its stub in the pool
  abbrev pub Ready : Sys (Journal W C) C → String → Type 0
  Ready s shard_id =
      (info : ShardInfo) × (shard_info s shard_id ≡ some info)
      × (stub : Stub C) × (pooled s info.address ≡ some stub)

  pub Kept-Ready : {s s' : Sys (Journal W C) C} (id : String) → Kept s s' → Ready s id → Ready s' id
  unfolding shard_info
  Kept-Ready id k (info, known, stub, found) =
      (info, rw k.topology known, stub, k.stubs info.address stub found)

  pub All-Ready :
      {s s' : Sys (Journal W C) C} (ids : List String)
      → Kept s s'
      → All (Ready s) ids
      → All (Ready s') ids
  All-Ready [] k a = tt
  All-Ready (id ∷ ids) k a = (Kept-Ready id k a.0, All-Ready ids k a.1)

  -- what a call that gives up leaves: no commit is sent, and the transaction is forgotten
  abbrev pub GivenUp : String → RouterError → Sys (Journal W C) C → Sys (Journal W C) C → Type 0
  GivenUp tx_id e s s' =
      (is_panic e ≡ false)
      × (commits s'.world.events ≡ commits s.world.events)
      × (GoMap.get s'.router.active_txns tx_id ≡ none)

module _ {W C : Type 0} (net : Network W C) where
  abort_shard-commits :
      (tx_id id : String) (s : Sys (Journal W C) C)
      → commits (TwoPhase.abort_shard ⦃net = recording net⦄ tx_id id s).world.events
        ≡ commits s.world.events
  unfolding TwoPhase.abort_shard TwoPhase.send_abort commits
  abort_shard-commits tx_id id s = elim (Option-cases (shard_info s id)) [
    | inl gone ↦ rw (gone, TwoPhase.abort_shard) refl
    | inr (info, known) ↦
        let (_, same, _, reply) = stub_of_lem net prepare_stub info.address s in
        rw (known, TwoPhase.abort_shard)
          (elim reply [
            | inl (stub, e, _) ↦
                rw (e, TwoPhase.send_abort) (rw commits-append (rw (append-nil, same) refl))
            | inr (_, st, e) ↦ rw (e, TwoPhase.send_abort) (ap commits same)
          ])
  ]

  abort_shards-commits :
      (tx_id : String) (ids : List String) (s : Sys (Journal W C) C)
      → commits (TwoPhase.abort_shards ⦃net = recording net⦄ tx_id ids s).world.events
        ≡ commits s.world.events
  unfolding TwoPhase.abort_shards
  abort_shards-commits tx_id [] s = refl
  abort_shards-commits tx_id (id ∷ ids) s =
      abort_shards-commits tx_id ids (TwoPhase.abort_shard ⦃net = recording net⦄ tx_id id s)
      ∙ abort_shard-commits tx_id id s

  pub give_up-GivenUp :
      (tx_id : String) (ctx : TxContext) (e : RouterError) (s t : Sys (Journal W C) C)
      → is_panic e ≡ false
      → commits t.world.events ≡ commits s.world.events
      → GivenUp tx_id e s (TwoPhase.give_up ⦃net = recording net⦄ {A = ℕ} tx_id ctx e t).1
  unfolding TwoPhase.give_up TwoPhase.abort_all remove_tx_context
  give_up-GivenUp tx_id ctx e s t h same = (
    h,
    abort_shards-commits tx_id (GoMap.keys ctx.involved_shards) t ∙ same,
    rw (get-delete, ==-refl tx_id) refl,
  )

  abbrev pub Prepared :
      String → Sys (Journal W C) C → String → Try RouterError ℕ × Sys (Journal W C) C → Type 0
  Prepared tx_id s id (success at, s') =
      Kept s s'
      × (s'.router.active_txns ≡ s.router.active_txns)
      × (votes s'.world.events ≡ votes s.world.events ++ at ∷ [])
      × (commits s'.world.events ≡ commits s.world.events)
      × Ready s' id
  Prepared tx_id s id (failure e, s') = GivenUp tx_id e s s'

  pub count_vote-Prepared :
      (tx_id id : String) (ctx : TxContext) (info : ShardInfo) (stub : Stub C)
      (s t : Sys (Journal W C) C) (w : W) (reply : Try Status PrepareResponse)
      → shard_info s id ≡ some info
      → Kept s t
      → t.world.events ≡ s.world.events
      → t.router.active_txns ≡ s.router.active_txns
      → pooled t info.address ≡ some stub
      → Prepared tx_id s id (
          TwoPhase.count_vote ⦃net = recording net⦄ tx_id ctx id reply (record t {
            world = record {
              world = w;
              events = t.world.events ++ voted stub.conn (vote_of reply) ∷ [];
            };
          }))
  unfolding TwoPhase.count_vote votes commits shard_info
  count_vote-Prepared tx_id id ctx info stub s t w reply known k same active found =
      let none_sent : commits (t.world.events ++ voted stub.conn (vote_of reply) ∷ [])
          ≡ commits s.world.events =
        rw (commits-append, append-nil, same) refl in
      elim (Option-cases (vote_of reply)) [
        | inr (at, agreed) ↦
            rw (agreed, TwoPhase.count_vote)
              (
                record { topology = k.topology; stubs = k.stubs },
                active,
                rw (votes-append, same) (rw (agreed, votes) refl),
                none_sent,
                (info, rw k.topology known, stub, found),
              )
        | inl no_vote ↦
            rw (no_vote, TwoPhase.count_vote)
              (unfold TwoPhase.give_up in
                give_up-GivenUp tx_id ctx (prepare_failed id) s _ refl none_sent)
      ]
