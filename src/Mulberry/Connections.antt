-- ===== src/Mulberry/Connections.antt =====
-- internal/mulberry/connection_manager.go: the pool of the connections to the shard servers. Each
-- critical section of a mutex is one step; `GetStub` and `GetConnection` have two or three.
pub mod Pool
use let_mil_go.Common.{ℕ, String, Option, none, some, List, [], ◌∷◌, string_eq}
use let_mil_go.GoMap.{Map}
use let_mil_go.GoMap
use let_mil_go.Rpc.{Status, Try, success, failure}
use let_mil_go.Mulberry.Network.{Network}

-- pb.ShardServiceClient: the generated client of a connection
pub record Stub (C : Type 0) : Type 0 where
  pub conn : C

pub record Connections (C : Type 0) : Type 0 where
  pub connections : Map String C
  pub stubs : Map String (Stub C)

unfoldable pub new_shard_connection_manager : {C : Type 0} → Connections C
new_shard_connection_manager = record { connections = GoMap.empty; stubs = GoMap.empty }

module _ {W C : Type 0} where
  -- grpc.NewClient and, if that succeeds, the two new entries
  unfoldable pub connect :
      Connections C → String → Try Status C × W → Try Status (Stub C) × (Connections C × W)
  connect m address (failure e, w) = (failure e, (m, w))
  connect m address (success conn, w) = (
    success (record { conn = conn }),
    (
      record {
        connections = GoMap.put m.connections address conn;
        stubs = GoMap.put m.stubs address (record { conn = conn });
      },
      w,
    ),
  )

module _ {W C : Type 0} ⦃net : Network W C⦄ where
  -- `GetStub` from the write lock on, with its second look at the pool
  unfoldable pub get_or_connect :
      Connections C → W → String → Try Status (Stub C) × (Connections C × W)
  unfolding connect
  get_or_connect m w address = elim (GoMap.get m.stubs address) [
    | some stub ↦ (success stub, (m, w))
    | none ↦ connect m address (net.new_client address w)
  ]

  unfoldable pub get_stub : Connections C → W → String → Try Status (Stub C) × (Connections C × W)
  unfolding get_or_connect
  get_stub m w address = elim (GoMap.get m.stubs address) [
    | some stub ↦ (success stub, (m, w))
    | none ↦ get_or_connect m w address
  ]

  -- the end of `GetConnection`: m.connections[address], nil where it is missing
  unfoldable pub connection_after :
      String
      → Try Status (Stub C) × (Connections C × W)
      → Try Status (Option C) × (Connections C × W)
  connection_after address (failure e, s) = (failure e, s)
  connection_after address (success _, (m, w)) = (success (GoMap.get m.connections address), (m, w))

  unfoldable pub get_connection :
      Connections C → W → String → Try Status (Option C) × (Connections C × W)
  unfolding get_stub connection_after
  get_connection m w address = elim (GoMap.get m.connections address) [
    | some conn ↦ (success (some conn), (m, w))
    | none ↦ connection_after address (get_stub m w address)
  ]

  unfoldable pub remove_connection :
      Connections C → W → String → Option Status × (Connections C × W)
  remove_connection m w address = elim (GoMap.get m.connections address) [
    | none ↦ (none, (m, w))
    | some conn ↦
        let (error, w') = net.close conn w in
        (
          error,
          (
            record {
              connections = GoMap.delete m.connections address;
              stubs = GoMap.delete m.stubs address;
            },
            w',
          ),
        )
  ]

  -- the loop of `Shutdown`, with the last error so far
  unfoldable pub close_all :
      Option Status → List (String × C) → Connections C → W → Option Status × (Connections C × W)
  close_all last_err [] m w = (last_err, (m, w))
  close_all last_err ((addr, conn) ∷ rest) m w =
      let (error, w') = net.close conn w in
      close_all (elim error [ some e ↦ some e | none ↦ last_err ]) rest
        (record {
          connections = GoMap.delete m.connections addr;
          stubs = GoMap.delete m.stubs addr;
        })
        w'

  unfoldable pub shutdown : Connections C → W → Option Status × (Connections C × W)
  unfolding close_all
  shutdown m w = close_all none m.connections.entries m w

unfoldable pub connection_count : {C : Type 0} → Connections C → ℕ
connection_count m = GoMap.len m.connections
