-- ===== src/Mulberry/Connections/Pool.antt =====
-- The pool of connection_manager.go along its calls: every address has a connection and the stub of
-- it, or neither.
use let_mil_go.Common.{
  ◌≡◌, refl, ap, ◌∙◌, inl, inr, String, Option, none, some, List, [], ◌∷◌, arith, ==_iff, string_eq,
  if◌then◌else◌, Option-cases,
}
use let_mil_go.GoMap.{Map, is_some, get-put, get-delete, get-empty}
use let_mil_go.GoMap
use let_mil_go.GoMap.Unique.{elem, elem-keys}
use let_mil_go.Rpc.{Status, Try, success, failure}
use let_mil_go.Mulberry.Network.{Network}
use let_mil_go.Mulberry.Connections.{
  Stub, Connections, new_shard_connection_manager, connect, get_or_connect, get_stub,
  connection_after, get_connection, remove_connection, close_all, shutdown,
}

abbrev pub stub_of_conn : {C : Type 0} → Option C → Option (Stub C)
stub_of_conn none = none
stub_of_conn (some c) = some (record { conn = c })

pub record IsPaired {C : Type 0} (m : Connections C) : Type 0 where
  pub pairs :
      (address : String)
      → GoMap.get m.stubs address ≡ stub_of_conn (GoMap.get m.connections address)

pub new_pool-IsPaired : {C : Type 0} → IsPaired (new_shard_connection_manager {C = C})
unfolding new_shard_connection_manager
new_pool-IsPaired {C} = record {
  pairs = λ a. rw (get-empty {V = Stub C} a, get-empty {V = C} a) refl;
}

-- the calls of the manager that change the pool
pub data PoolCall : Type 0 where
  gets connects removes : String → PoolCall
  fetches : String → PoolCall
  shuts : PoolCall

dropped-IsPaired :
    {C : Type 0} (m : Connections C) (address : String)
    → IsPaired m
    → IsPaired (record {
      connections = GoMap.delete m.connections address;
      stubs = GoMap.delete m.stubs address;
    })
dropped-IsPaired m address h = record {
  pairs = λ a.
      ground (arith, h.pairs a, get-delete m.stubs address a, get-delete m.connections address a);
}

module _ {W C : Type 0} where
  connect-IsPaired :
      (m : Connections C) (address : String) (p : Try Status C × W)
      → IsPaired m
      → IsPaired (connect m address p).1.0
  unfolding connect
  connect-IsPaired m address (failure e, w) h = h
  connect-IsPaired m address (success conn, w) h = record {
    pairs = λ a. ground (
      arith,
      h.pairs a,
      get-put m.stubs address a (record { conn = conn }),
      get-put m.connections address a conn,
    );
  }

module _ {W C : Type 0} ⦃net : Network W C⦄ where
  -- the pool after a call
  unfoldable pub after : PoolCall → Connections C × W → Connections C × W
  after (gets address) (m, w) = (get_stub m w address).1
  after (connects address) (m, w) = (get_or_connect m w address).1
  after (fetches address) (m, w) = (get_connection m w address).1
  after (removes address) (m, w) = (remove_connection m w address).1
  after shuts (m, w) = (shutdown m w).1

  -- the pool after the calls, in their order
  unfoldable pub run : List PoolCall → Connections C × W → Connections C × W
  unfolding after
  run [] p = p
  run (c ∷ cs) p = run cs (after c p)

  get_or_connect-IsPaired :
      (m : Connections C) (w : W) (address : String)
      → IsPaired m
      → IsPaired (get_or_connect m w address).1.0
  unfolding get_or_connect
  get_or_connect-IsPaired m w address h = elim (Option-cases (GoMap.get m.stubs address)) [
    | inl missing ↦
        rw (missing, get_or_connect) (connect-IsPaired m address (net.new_client address w) h)
    | inr (stub, found) ↦ rw (found, get_or_connect) h
  ]

  get_stub-IsPaired :
      (m : Connections C) (w : W) (address : String)
      → IsPaired m
      → IsPaired (get_stub m w address).1.0
  unfolding get_stub
  get_stub-IsPaired m w address h = elim (Option-cases (GoMap.get m.stubs address)) [
    | inl missing ↦ rw (missing, get_stub) (get_or_connect-IsPaired m w address h)
    | inr (stub, found) ↦ rw (found, get_stub) h
  ]

  connection_after-pool :
      (address : String) (p : Try Status (Stub C) × (Connections C × W))
      → (connection_after address p).1 ≡ p.1
  unfolding connection_after
  connection_after-pool address (failure e, s) = refl
  connection_after-pool address (success stub, (m, w)) = refl

  get_connection-IsPaired :
      (m : Connections C) (w : W) (address : String)
      → IsPaired m
      → IsPaired (get_connection m w address).1.0
  unfolding get_connection
  get_connection-IsPaired m w address h = elim (Option-cases (GoMap.get m.connections address)) [
    | inr (conn, found) ↦ rw (found, get_connection) h
    | inl missing ↦
        rw (missing, get_connection)
          (rw (connection_after-pool address (get_stub m w address))
            (get_stub-IsPaired m w address h))
  ]

  remove_connection-IsPaired :
      (m : Connections C) (w : W) (address : String)
      → IsPaired m
      → IsPaired (remove_connection m w address).1.0
  unfolding remove_connection
  remove_connection-IsPaired m w address h = elim (Option-cases (GoMap.get m.connections address)) [
    | inl missing ↦ rw (missing, remove_connection) h
    | inr (conn, found) ↦ rw (found, remove_connection) (dropped-IsPaired m address h)
  ]

  close_all-IsPaired :
      (l : List (String × C)) (last_err : Option Status) (m : Connections C) (w : W)
      → IsPaired m
      → IsPaired (close_all last_err l m w).1.0
  unfolding close_all
  close_all-IsPaired [] last_err m w h = h
  close_all-IsPaired ((address, conn) ∷ l) last_err m w h =
      close_all-IsPaired l _ _ _ (dropped-IsPaired m address h)

  after-IsPaired :
      (c : PoolCall) (m : Connections C) (w : W) → IsPaired m → IsPaired (after c (m, w)).0
  unfolding after shutdown
  after-IsPaired (gets address) m w h = get_stub-IsPaired m w address h
  after-IsPaired (connects address) m w h = get_or_connect-IsPaired m w address h
  after-IsPaired (fetches address) m w h = get_connection-IsPaired m w address h
  after-IsPaired (removes address) m w h = remove_connection-IsPaired m w address h
  after-IsPaired shuts m w h = close_all-IsPaired m.connections.entries none m w h

  -- Whatever calls of the manager are made, also where goroutines meet between the two looks of
  -- `GetStub` at the pool: an address has a stub exactly when it has a connection, and the stub is
  -- that connection's.
  pub run-IsPaired :
      (cs : List PoolCall) (m : Connections C) (w : W) → IsPaired m → IsPaired (run cs (m, w)).0
  unfolding run
  run-IsPaired [] m w h = h
  run-IsPaired (c ∷ cs) m w h =
      run-IsPaired cs (after c (m, w)).0 (after c (m, w)).1 (after-IsPaired c m w h)

  close_all_lem :
      (l : List (String × C)) (last_err : Option Status) (m : Connections C) (w : W) (a : String)
      → GoMap.get (close_all last_err l m w).1.0.connections a
        ≡ (if elem a (GoMap.keys (record { entries = l })) then none else GoMap.get m.connections a)
  unfolding close_all GoMap.keys
  close_all_lem [] last_err m w a = refl
  close_all_lem ((address, conn) ∷ l) last_err m w a =
      close_all_lem l _ _ _ a ∙ ground (arith, get-delete m.connections address a, ==_iff address a)

  -- `Shutdown` leaves no connection in the pool, and no stub, whatever errors the closing meets.
  pub shutdown_empties :
      (m : Connections C) (w : W) (a : String)
      → IsPaired m
      → (GoMap.get (shutdown m w).1.0.connections a ≡ none)
        × (GoMap.get (shutdown m w).1.0.stubs a ≡ none)
  unfolding shutdown
  shutdown_empties m w a h =
      let gone = close_all_lem m.connections.entries none m w a in
      let paired = (close_all-IsPaired m.connections.entries none m w h).pairs a in
      let none_left : GoMap.get (close_all none m.connections.entries m w).1.0.connections a
          ≡ none =
        gone ∙ ground (arith, elem-keys m.connections a) in
      (none_left, paired ∙ ap stub_of_conn none_left)
