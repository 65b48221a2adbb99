-- ===== src/Mulberry/TwoPhase.antt =====
-- internal/mulberry/mulberry.go: `Commit`, the two-phase commit over the shards of a transaction, and
-- `Abort`. A loop meets the involved shards in the order in which they were involved.
use let_mil_go.Common.{
  ℕ, String, Bool, true, false, Option, none, some, List, [], ◌∷◌, string_eq, ltb, if◌then◌else◌,
}
use let_mil_go.GoMap.{Map}
use let_mil_go.GoMap
use let_mil_go.Rpc.{Status, Try, success, failure}
use let_mil_go.Hlc
use let_mil_go.Shard.State.{Vote, vote_commit}
use let_mil_go.Shard.Server.{PrepareResponse}
use let_mil_go.Mulberry.Network.{Network}
use let_mil_go.Mulberry.Connections.{Stub}
use let_mil_go.Mulberry.State.{
  TxContext, RouterError, prepare_stub, gone_in_commit, prepare_failed, panicked, Sys, Action, pure,
  ◌>>=◌, ◌>>◌,
}
use let_mil_go.Mulberry.Router.{stub_of, shard_info, get_tx_context, remove_tx_context}

abbrev pub is_commit : Vote → Bool
is_commit vote_commit = true
is_commit _ = false

-- the time of a response that votes to commit
abbrev pub vote_of : Try Status PrepareResponse → Option ℕ
vote_of (failure _) = none
vote_of (success resp) = if is_commit resp.vote then some resp.prepare_time else none

-- the greatest of the prepare times, from `commitTime` on
unfoldable pub max_time : ℕ → List ℕ → ℕ
max_time commit_time [] = commit_time
max_time commit_time (pt ∷ rest) = max_time (if ltb commit_time pt then pt else commit_time) rest

module _ {W C : Type 0} where
  -- r.clock.Update
  unfoldable pub update_clock : ℕ → ℕ → Action W C ℕ
  update_clock now incoming s =
      let (ts, clock) = Hlc.update now incoming s.router.topology.clock in
      let topology = record s.router.topology { clock = clock } in
      (success ts, record s { router = record s.router { topology = topology } })

module _ {W C : Type 0} ⦃net : Network W C⦄ where
  -- stub.Abort at one shard: what fails is passed over
  unfoldable pub send_abort : String → Try RouterError (Stub C) × Sys W C → Sys W C
  send_abort tx_id (failure _, s) = s
  send_abort tx_id (success stub, s) = record s { world = (net.abort stub.conn tx_id s.world).1 }

  unfoldable pub abort_shard : String → String → Sys W C → Sys W C
  unfolding send_abort
  abort_shard tx_id shard_id s = elim (shard_info s shard_id) [
    | none ↦ s
    | some info ↦ send_abort tx_id (stub_of prepare_stub info.address s)
  ]

  unfoldable pub abort_shards : String → List String → Sys W C → Sys W C
  unfolding abort_shard
  abort_shards tx_id [] s = s
  abort_shards tx_id (shard_id ∷ rest) s = abort_shards tx_id rest (abort_shard tx_id shard_id s)

  unfoldable pub abort_all : String → TxContext → Action W C (Unit {0})
  unfolding abort_shards
  abort_all tx_id ctx s =
      remove_tx_context tx_id (abort_shards tx_id (GoMap.keys ctx.involved_shards) s)

  -- r.abortAll(…) and the error that `Commit` returns
  unfoldable pub give_up : {A : Type 0} → String → TxContext → RouterError → Action W C A
  unfolding abort_all
  give_up tx_id ctx e s = (failure e, (abort_all tx_id ctx s).1)

  -- the answer to `Prepare` of one shard
  unfoldable pub count_vote :
      String → TxContext → String → Try Status PrepareResponse → Action W C ℕ
  unfolding give_up
  count_vote tx_id ctx shard_id reply s = elim (vote_of reply) [
    | some prepare_time ↦ (success prepare_time, s)
    | none ↦ give_up tx_id ctx (prepare_failed shard_id) s
  ]

  unfoldable pub ask_vote :
      String → TxContext → String → Try RouterError (Stub C) × Sys W C → Try RouterError ℕ × Sys W C
  unfolding give_up count_vote
  ask_vote tx_id ctx shard_id (failure e, s) = give_up tx_id ctx e s
  ask_vote tx_id ctx shard_id (success stub, s) =
      let (reply, w) = net.prepare stub.conn tx_id ctx.snapshot_time ctx.isolation_level s.world in
      count_vote tx_id ctx shard_id reply (record s { world = w })

  -- one round of the loop of the first phase
  unfoldable pub prepare_shard : String → TxContext → String → Action W C ℕ
  unfolding give_up ask_vote
  prepare_shard tx_id ctx shard_id s = elim (shard_info s shard_id) [
    | none ↦ give_up tx_id ctx (gone_in_commit shard_id) s
    | some info ↦ ask_vote tx_id ctx shard_id (stub_of prepare_stub info.address s)
  ]

  -- the first phase: the prepare times, one for each shard
  unfoldable pub prepare_shards : String → TxContext → List String → Action W C (List ℕ)
  unfolding prepare_shard
  prepare_shards tx_id ctx [] = pure []
  prepare_shards tx_id ctx (shard_id ∷ rest) = do
    prepare_time ← prepare_shard tx_id ctx shard_id
    times ← prepare_shards tx_id ctx rest
    pure (prepare_time ∷ times)

  -- one round of the second phase: an error of the shard is passed over, a nil pointer is not
  unfoldable pub send_commit :
      String → ℕ → Try RouterError (Stub C) × Sys W C → Try RouterError (Unit {0}) × Sys W C
  send_commit tx_id commit_time (failure _, s) = (failure panicked, s)
  send_commit tx_id commit_time (success stub, s) =
      (success tt, record s { world = (net.commit stub.conn tx_id commit_time s.world).1 })

  unfoldable pub commit_shard : String → ℕ → String → Action W C (Unit {0})
  unfolding send_commit
  commit_shard tx_id commit_time shard_id s = elim (shard_info s shard_id) [
    | none ↦ (failure panicked, s)
    | some info ↦ send_commit tx_id commit_time (stub_of prepare_stub info.address s)
  ]

  unfoldable pub commit_shards : String → ℕ → List String → Action W C (Unit {0})
  unfolding commit_shard
  commit_shards tx_id commit_time [] = pure tt
  commit_shards tx_id commit_time (shard_id ∷ rest) = do
    commit_shard tx_id commit_time shard_id
    commit_shards tx_id commit_time rest

  -- the second phase
  unfoldable pub finish : String → TxContext → ℕ → Action W C (Unit {0})
  unfolding commit_shards
  finish tx_id ctx commit_time = do
    commit_shards tx_id commit_time (GoMap.keys ctx.involved_shards)
    remove_tx_context tx_id

  unfoldable pub commit : ℕ → String → Action W C (Unit {0})
  unfolding prepare_shards update_clock finish
  commit now tx_id = do
    ctx ← get_tx_context tx_id
    times ← prepare_shards tx_id ctx (GoMap.keys ctx.involved_shards)
    commit_time ← update_clock now (max_time 0 times)
    finish tx_id ctx commit_time

  unfoldable pub abort : String → Action W C (Unit {0})
  unfolding abort_all
  abort tx_id = do ctx ← get_tx_context tx_id; abort_all tx_id ctx
