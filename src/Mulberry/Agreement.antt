-- ===== src/Mulberry/Agreement.antt =====
-- The commit of mulberry.go where every shard can be reached and votes to commit.
use let_mil_go.Common.{
  ℕ, ◌≡◌, refl, inl, inr, String, some, List, [], ◌∷◌, All, string_eq, Option-cases,
}
use let_mil_go.GoMap
use let_mil_go.Rpc.{Status, Try, success, failure}
use let_mil_go.Hlc
use let_mil_go.Csrs.Registry.{ShardInfo}
use let_mil_go.Csrs
use let_mil_go.Shard.State.{IsolationLevel}
use let_mil_go.Mulberry.Network.{Network}
use let_mil_go.Mulberry.Connections.{Stub, Connections, connect, get_stub}
use let_mil_go.Mulberry.State.{
  TxContext, RouterError, prepare_stub, Sys, Action, pure, ◌>>=◌, ◌>>◌, wrap,
}
use let_mil_go.Mulberry.Router.{stub_of, shard_info, remove_tx_context}
use let_mil_go.Mulberry.TwoPhase
use let_mil_go.Mulberry.TwoPhase.{max_time, vote_of, update_clock}
use let_mil_go.Mulberry.Journal.{Journal, recording}
use let_mil_go.Mulberry.Kept.{pooled, get_stub_new}
use let_mil_go.Mulberry.Counting.{Prepared}
use let_mil_go.Mulberry.Unanimous.{AllPrepared, prepare_shards-AllPrepared, prepare_shard-Prepared}
use let_mil_go.Mulberry.Decision.{commit_shards-Committed, commit_open}

-- a network on which every address can be dialled and every shard votes to commit
pub record IsAgreeing {W C : Type 0} (net : Network W C) : Type 0 where
  pub dials :
      (address : String) (w : W) → (conn : C) × ((net.new_client address w).0 ≡ success conn)
  pub agrees :
      (conn : C) (t : String) (at : ℕ) (iso : IsolationLevel) (w : W)
      → (time : ℕ) × (vote_of (net.prepare conn t at iso w).0 ≡ some time)

module _ {W C : Type 0} (net : Network W C) (agreeing : IsAgreeing net) where
  abbrev Registered : Sys (Journal W C) C → String → Type 0
  Registered s id = (info : ShardInfo) × (Csrs.get_shard_info s.router.topology id ≡ some info)

  connect_dials :
      (on_error : Status → RouterError) (m : Connections C) (address : String)
      (p : Try Status C × Journal W C) (conn : C)
      → p.0 ≡ success conn
      → (stub : Stub C) × (wrap on_error (connect m address p).0 ≡ success stub)
  unfolding connect
  connect_dials on_error m address (failure e, w) conn h = absurd (cc h)
  connect_dials on_error m address (success c, w) conn h = (record { conn = c }, refl)

  stub_of_dials :
      (on_error : Status → RouterError) (address : String) (s : Sys (Journal W C) C)
      → (stub : Stub C) × ((stub_of ⦃net = recording net⦄ on_error address s).0 ≡ success stub)
  unfolding stub_of
  stub_of_dials on_error address s = elim (Option-cases (pooled s address)) [
    | inr (stub, found) ↦ (stub, unfold get_stub in rw (found, get_stub) refl)
    | inl missing ↦
        let (conn, dialled) = agreeing.dials address s.world.world in
        rw (get_stub_new net address s missing) (
          connect_dials on_error s.router.conn_mgr address
            ((recording net).new_client address s.world) conn dialled)
  ]

  prepare_shard_agrees :
      (tx_id id : String) (ctx : TxContext) (s : Sys (Journal W C) C)
      → Registered s id
      → (time : ℕ) × ((TwoPhase.prepare_shard ⦃net = recording net⦄ tx_id ctx id s).0
          ≡ success time)
  unfolding TwoPhase.prepare_shard TwoPhase.ask_vote TwoPhase.count_vote shard_info
  prepare_shard_agrees tx_id id ctx s (info, known) =
      let (stub, e) = stub_of_dials prepare_stub info.address s in
      let t = (stub_of ⦃net = recording net⦄ prepare_stub info.address s).1 in
      let (time, agreed) =
        agreeing.agrees stub.conn tx_id ctx.snapshot_time ctx.isolation_level t.world.world in
      (
        time,
        rw (known, TwoPhase.prepare_shard)
            (rw (e, TwoPhase.ask_vote) (rw (agreed, TwoPhase.count_vote) refl)),
      )

  All-Registered :
      (ids : List String) (s t : Sys (Journal W C) C)
      → t.router.topology ≡ s.router.topology
      → All (Registered s) ids
      → All (Registered t) ids
  All-Registered [] s t k a = tt
  All-Registered (id ∷ ids) s t k ((info, known), a) =
      ((info, rw k known), All-Registered ids s t k a)

  abbrev Succeeds : {A : Type 0} → Try RouterError A × Sys (Journal W C) C → Type 0
  Succeeds {A} (r, s) = (a : A) × (r ≡ success a)

  then_agrees :
      (s : Sys (Journal W C) C) (tx_id id : String)
      (first : Try RouterError ℕ × Sys (Journal W C) C) (rest : Action (Journal W C) C (List ℕ))
      → Prepared net tx_id s id first
      → Succeeds first
      → ((t : Sys (Journal W C) C) → t.router.topology ≡ s.router.topology → Succeeds (rest t))
      → Succeeds (((λ _. first) >>= λ at. rest >>= λ times. pure (at ∷ times)) s)
  then_agrees s tx_id id (failure e, t) rest _ (at, h) _ = absurd (cc h)
  then_agrees s tx_id id (success at, t) rest (k, _, _, _, _) _ later =
      let (times, h) = later t k.topology in (at ∷ times, rw (h, ◌>>=◌) refl)

  prepare_shards_agree :
      (tx_id : String) (ctx : TxContext) (ids : List String) (s : Sys (Journal W C) C)
      → All (Registered s) ids
      → Succeeds (TwoPhase.prepare_shards ⦃net = recording net⦄ tx_id ctx ids s)
  unfolding TwoPhase.prepare_shards
  prepare_shards_agree tx_id ctx [] s a = ([], refl)
  prepare_shards_agree tx_id ctx (id ∷ ids) s (registered, a) =
      then_agrees s tx_id id (TwoPhase.prepare_shard ⦃net = recording net⦄ tx_id ctx id s)
        (TwoPhase.prepare_shards ⦃net = recording net⦄ tx_id ctx ids)
        (prepare_shard-Prepared net tx_id id ctx s) (prepare_shard_agrees tx_id id ctx s registered)
        (λ t k. prepare_shards_agree tx_id ctx ids t (All-Registered ids s t k a))

  then_finished :
      (tx_id : String) (s : Sys (Journal W C) C)
      (p : Try RouterError (Unit {0}) × Sys (Journal W C) C)
      → p.0 ≡ success tt
      → (((λ _. p) >> remove_tx_context tx_id) s).0 ≡ success tt
  unfolding remove_tx_context
  then_finished tx_id s (failure e, t) h = h
  then_finished tx_id s (success u, t) h = refl

  then_finishes :
      (now : ℕ) (tx_id : String) (ctx : TxContext) (s : Sys (Journal W C) C)
      (first : Try RouterError (List ℕ) × Sys (Journal W C) C)
      → AllPrepared net tx_id s (GoMap.keys ctx.involved_shards) first
      → Succeeds first
      → (((λ _. first) >>= λ times.
            update_clock now (max_time 0 times) >>= TwoPhase.finish ⦃net = recording net⦄ tx_id ctx)
          s).0
        ≡ success tt
  unfolding update_clock TwoPhase.finish shard_info Csrs.get_shard_info
  then_finishes now tx_id ctx s (failure e, t) _ (_, h) = absurd (cc h)
  then_finishes now tx_id ctx s (success times, t) (_, _, _, _, ready, _) _ =
      let ids = GoMap.keys ctx.involved_shards in
      let (at, clock) = Hlc.update now (max_time 0 times) t.router.topology.clock in
      let u : Sys (Journal W C) C = record t {
        router = record t.router { topology = record t.router.topology { clock = clock } };
      } in
      then_finished tx_id u (TwoPhase.commit_shards ⦃net = recording net⦄ tx_id at ids u)
        (commit_shards-Committed net tx_id at ids u ready).0

  -- Where every address can be dialled and every shard that is asked votes to commit, `Commit` of an
  -- open transaction whose shards are registered succeeds.
  pub commit_agreed :
      (now : ℕ) (tx_id : String) (s : Sys (Journal W C) C) (ctx : TxContext)
      → GoMap.get s.router.active_txns tx_id ≡ some ctx
      → All (Registered s) (GoMap.keys ctx.involved_shards)
      → (TwoPhase.commit ⦃net = recording net⦄ now tx_id s).0 ≡ success tt
  commit_agreed now tx_id s ctx open_tx registered =
      let ids = GoMap.keys ctx.involved_shards in
      rw (commit_open net now tx_id ctx s open_tx) (
        then_finishes now tx_id ctx s
          (TwoPhase.prepare_shards ⦃net = recording net⦄ tx_id ctx ids s)
          (prepare_shards-AllPrepared net tx_id ctx ids s)
          (prepare_shards_agree tx_id ctx ids s registered))
