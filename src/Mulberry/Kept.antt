-- ===== src/Mulberry/Kept.antt =====
-- What the calls of mulberry.go leave alone, over a network that keeps a journal.
use let_mil_go.Common.{
  ◌≡◌, refl, ◌∙◌, ◌⊎◌, inl, inr, String, Option, none, some, arith, ==_iff, string_eq, Option-cases,
}
use let_mil_go.GoMap.{get-put}
use let_mil_go.GoMap
use let_mil_go.Rpc.{Status, Try, success, failure}
use let_mil_go.Mulberry.Network.{Network}
use let_mil_go.Mulberry.Connections.{Stub, connect, get_or_connect, get_stub}
use let_mil_go.Mulberry.State.{RouterError, Sys, wrap}
use let_mil_go.Mulberry.Router.{stub_of}
use let_mil_go.Mulberry.Journal.{Journal, recording}

module _ {W C : Type 0} where
  -- the topology stays, and the pool keeps the stubs that it has
  pub record Kept (s s' : Sys (Journal W C) C) : Type 0 where
    pub topology : s'.router.topology ≡ s.router.topology
    pub stubs :
        (address : String) (stub : Stub C)
        → GoMap.get s.router.conn_mgr.stubs address ≡ some stub
        → GoMap.get s'.router.conn_mgr.stubs address ≡ some stub

  pub Kept-refl : (s : Sys (Journal W C) C) → Kept s s
  Kept-refl s = record { topology = refl; stubs = λ address stub h. h }

  pub Kept-trans : {s t u : Sys (Journal W C) C} → Kept s t → Kept t u → Kept s u
  Kept-trans k l = record {
    topology = l.topology ∙ k.topology;
    stubs = λ address stub h. l.stubs address stub (k.stubs address stub h);
  }

  -- what the router's pool returns for an address
  abbrev pub pooled : Sys (Journal W C) C → String → Option (Stub C)
  pooled s address = GoMap.get s.router.conn_mgr.stubs address

  abbrev pub Stubbed :
      (Status → RouterError)
      → Sys (Journal W C) C
      → String
      → Try RouterError (Stub C) × Sys (Journal W C) C
      → Type 0
  Stubbed on_error s address (r, s') =
      Kept s s'
      × (s'.world.events ≡ s.world.events)
      × (s'.router.active_txns ≡ s.router.active_txns)
      × (((stub : Stub C) × (r ≡ success stub) × (pooled s' address ≡ some stub))
          ⊎ ((pooled s address ≡ none) × (e : Status) × (r ≡ failure (on_error e))))

  stub_of_new :
      (on_error : Status → RouterError) (address : String) (s : Sys (Journal W C) C)
      (dialled : Try Status C × Journal W C)
      → pooled s address ≡ none
      → dialled.1.events ≡ s.world.events
      → Stubbed on_error s address (
          let (reply, (conn_mgr, w)) = connect s.router.conn_mgr address dialled in
          (
            wrap on_error reply,
            record { router = record s.router { conn_mgr = conn_mgr }; world = w },
          ))
  unfolding connect
  stub_of_new on_error address s (failure e, w) missing same =
      (record { topology = refl; stubs = λ a stub h. h }, same, refl, inr (missing, e, refl))
  stub_of_new on_error address s (success conn, w) missing same = (
    record {
      topology = refl;
      stubs = λ a stub h. ground (
        arith,
        h,
        missing,
        ==_iff address a,
        get-put s.router.conn_mgr.stubs address a (record { conn = conn }),
      );
    },
    same,
    refl,
    inl (
      record { conn = conn },
      refl,
      ground (
        arith,
        ==_iff address address,
        get-put s.router.conn_mgr.stubs address address (record { conn = conn }),
      ),
    ),
  )

module _ {W C : Type 0} (net : Network W C) where
  -- without a stub in the pool, `GetStub` connects
  pub get_stub_new :
      (address : String) (s : Sys (Journal W C) C)
      → pooled s address ≡ none
      → get_stub ⦃net = recording net⦄ s.router.conn_mgr s.world address
        ≡ connect s.router.conn_mgr address ((recording net).new_client address s.world)
  unfolding get_stub get_or_connect
  get_stub_new address s missing = rw (missing, get_stub) (rw (get_or_connect, missing) refl)

  -- A stub comes from the pool, or a new connection is put into it.
  pub stub_of_lem :
      (on_error : Status → RouterError) (address : String) (s : Sys (Journal W C) C)
      → Stubbed on_error s address (stub_of ⦃net = recording net⦄ on_error address s)
  unfolding stub_of
  stub_of_lem on_error address s = elim (Option-cases (pooled s address)) [
    | inr (stub, found) ↦
        unfold get_stub in
        rw (found, get_stub)
          (record { topology = refl; stubs = λ a st h. h }, refl, refl, inl (stub, refl, found))
    | inl missing ↦
        rw (get_stub_new address s missing)
          (stub_of_new on_error address s ((recording net).new_client address s.world) missing refl)
  ]
