-- ===== src/Mulberry/Router.antt =====
-- internal/mulberry/mulberry.go: the calls of a transaction but its commit. `hash` is the hash of the
-- ring, `now` and `now'` what the clock's time source returns.
use Prim.Native.String as Text
use let_mil_go.Common.{ℕ, String, Bool, true, Option, none, some, string_eq, if◌then◌else◌}
use let_mil_go.Common.Decimal.{decimal}
use let_mil_go.GoMap.{Map, is_some}
use let_mil_go.GoMap
use let_mil_go.Rpc.{Status, success, failure}
use let_mil_go.Hlc
use let_mil_go.Csrs.Registry.{ShardInfo}
use let_mil_go.Csrs.{TopologyManager}
use let_mil_go.Csrs.Ring.{or_false}
use let_mil_go.Csrs
use let_mil_go.Shard.State.{IsolationLevel}
use let_mil_go.Mulberry.Network.{Network}
use let_mil_go.Mulberry.Connections.{Stub, Connections}
use let_mil_go.Mulberry.Connections
use let_mil_go.Mulberry.State.{
  TxContext, RouterError, tx_exists, tx_missing, unroutable, not_in_topology, no_stub, start_stub,
  start_failed, read_failed, write_failed, delete_failed, Sys, Action, pure, or_raise, wrap, call,
  ◌>>=◌, ◌>>◌,
}

unfoldable pub tx_name : ℕ → String
unfolding decimal
tx_name version = Text.◌++◌ "tx_" (decimal version)

module _ {W C : Type 0} where
  -- `BeginTransaction` once it has its version
  unfoldable pub open_transaction : ℕ → IsolationLevel → String → Action W C String
  open_transaction now iso tx_id s =
      if is_some (GoMap.get s.router.active_txns tx_id)
      then (failure (tx_exists tx_id), s)
      else let (snapshot_time, clock) = Hlc.tick now s.router.topology.clock in
        let ctx : TxContext = record {
          tx_id = tx_id;
          snapshot_time = snapshot_time;
          isolation_level = iso;
          involved_shards = GoMap.empty;
        } in
        let topology = record s.router.topology { clock = clock } in
        (
          success tx_id,
          record s {
            router = record s.router {
              topology = topology;
              active_txns = GoMap.put s.router.active_txns tx_id ctx;
            };
          },
        )

  unfoldable pub begin_transaction : ℕ → ℕ → IsolationLevel → Action W C String
  unfolding open_transaction tx_name
  begin_transaction now now' iso s =
      let (version, topology) = Csrs.bump_topology_version now s.router.topology in
      open_transaction now' iso (tx_name version)
        (record s { router = record s.router { topology = topology } })

  unfoldable pub get_tx_context : String → Action W C TxContext
  get_tx_context tx_id s = or_raise (tx_missing tx_id) (GoMap.get s.router.active_txns tx_id) s

  unfoldable pub remove_tx_context : String → Action W C (Unit {0})
  remove_tx_context tx_id s = (
    success tt,
    record s { router = record s.router { active_txns = GoMap.delete s.router.active_txns tx_id } },
  )

  -- r.topology.GetShardInfo
  unfoldable pub shard_info : Sys W C → String → Option ShardInfo
  shard_info s shard_id = Csrs.get_shard_info s.router.topology shard_id

  -- the shard and its address
  unfoldable pub route_key : (String → ℕ) → String → Action W C (String × String)
  unfolding shard_info
  route_key hash key s =
      let (shard_id, error) = Csrs.get_shard_for_key hash s.router.topology key in
      elim error [
        | some e ↦ (failure (unroutable e), s)
        | none ↦ elim (shard_info s shard_id) [
          | none ↦ (failure (not_in_topology shard_id), s)
          | some info ↦ (success (shard_id, info.address), s)
        ]
      ]

  -- txCtx.InvolvedShards[shardID] = true, through the pointer
  unfoldable pub mark_involved : TxContext → String → Action W C (Unit {0})
  mark_involved ctx shard_id s =
      let ctx' = record ctx { involved_shards = GoMap.put ctx.involved_shards shard_id true } in
      (
        success tt,
        record s {
          router = record s.router { active_txns = GoMap.put s.router.active_txns ctx.tx_id ctx' };
        },
      )

module _ {W C : Type 0} ⦃net : Network W C⦄ where
  -- r.connMgr.GetStub
  unfoldable pub stub_of : (Status → RouterError) → String → Action W C (Stub C)
  stub_of on_error address s =
      let (reply, (conn_mgr, w)) = Connections.get_stub s.router.conn_mgr s.world address in
      (wrap on_error reply, record { router = record s.router { conn_mgr = conn_mgr }; world = w })

  unfoldable pub start_shard : TxContext → String → String → Action W C (Unit {0})
  unfolding stub_of mark_involved
  start_shard ctx shard_id address = do
    stub ← stub_of start_stub address
    call (start_failed shard_id) (net.tx_start stub.conn ctx.tx_id ctx.snapshot_time)
    mark_involved ctx shard_id

  unfoldable pub ensure_shard_started : TxContext → String → String → Action W C (Unit {0})
  unfolding start_shard
  ensure_shard_started ctx shard_id address =
      if or_false (GoMap.get ctx.involved_shards shard_id)
      then pure tt
      else start_shard ctx shard_id address

  -- the beginning of `Read`, `Write` and `Delete`: the transaction and the stub of the key's shard
  unfoldable pub reach_shard : (String → ℕ) → String → String → Action W C (TxContext × Stub C)
  unfolding get_tx_context route_key ensure_shard_started stub_of
  reach_shard hash tx_id key = do
    ctx ← get_tx_context tx_id
    route ← route_key hash key
    ensure_shard_started ctx route.0 route.1
    stub ← stub_of no_stub route.1
    pure (ctx, stub)

  unfoldable pub read : (String → ℕ) → String → String → Action W C (String × Bool)
  unfolding reach_shard
  read hash tx_id key = do
    reached ← reach_shard hash tx_id key
    resp ← call read_failed (net.tx_read reached.1.conn tx_id key reached.0.snapshot_time)
    pure (resp.value, resp.found)

  unfoldable pub write : (String → ℕ) → String → String → String → Action W C (Unit {0})
  unfolding reach_shard
  write hash tx_id key value = do
    reached ← reach_shard hash tx_id key
    _ ← call write_failed (net.tx_write reached.1.conn tx_id key value)
    pure tt

  unfoldable pub delete : (String → ℕ) → String → String → Action W C (Unit {0})
  unfolding reach_shard
  delete hash tx_id key = do
    reached ← reach_shard hash tx_id key
    _ ← call delete_failed (net.tx_delete reached.1.conn tx_id key)
    pure tt

  -- `Shutdown` of the router
  unfoldable pub shutdown : Sys W C → Option Status × Sys W C
  shutdown s =
      let (error, (conn_mgr, w)) = Connections.shutdown s.router.conn_mgr s.world in
      (error, record { router = record s.router { conn_mgr = conn_mgr }; world = w })
