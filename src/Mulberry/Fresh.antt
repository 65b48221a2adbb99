-- ===== src/Mulberry/Fresh.antt =====
-- `BeginTransaction` of mulberry.go makes the names of its transactions of the versions of the
-- topology, and no name twice.
use Prim.Native.Char.{Char}
use Prim.Native.String as Text
use let_mil_go.Common.{
  ℕ, suc, ◌^◌, ◌≤◌, ◌<◌, ◌≡◌, ◌≢◌, refl, sym, ap, ◌∙◌, inl, inr, String, true, none, some, [],
  arith, ◌==◌, ==_iff, ==-refl, string_eq, Option-cases, Bool-cases,
}
use let_mil_go.Common.Decimal.{decimal}
use let_mil_go.Common.Numerals.{value_from, value_from-decimal}
use let_mil_go.GoMap.{Map, is_some, get-put}
use let_mil_go.GoMap
use let_mil_go.Rpc.{Try, success, failure}
use let_mil_go.Hlc.{tick, u64_mod}
use let_mil_go.Hlc.Issued.{ts-tick}
use let_mil_go.Hlc.Order.{tick-eq-max}
use let_mil_go.Csrs.{TopologyManager, increment_version}
use let_mil_go.Csrs
use let_mil_go.Csrs.Versions.{IsCurrent}
use let_mil_go.Shard.State.{IsolationLevel}
use let_mil_go.Mulberry.State.{TxContext, Router, RouterError, Sys}
use let_mil_go.Mulberry.Router.{tx_name, open_transaction, begin_transaction}

-- a text without its first character
after_first : String → String
after_first Text.[] = Text.[]
after_first (Text.◌∷◌ c s) = s

after_first-append :
    (c : Char) (s t : String) → after_first (Text.◌++◌ (Text.◌∷◌ c s) t) ≡ Text.◌++◌ s t
unfolding after_first
after_first-append c s t = ap after_first (λ i. Text.append.cons c s t i)

-- the number in a transaction's name
version_of : String → ℕ
version_of t = value_from 0 (after_first (after_first (after_first t)))

strip : (d : String) → after_first (after_first (after_first (Text.◌++◌ "tx_" d))) ≡ d
unfolding after_first
strip d =
    ap (λ t. after_first (after_first t)) (after_first-append _ _ d)
    ∙ ap after_first (after_first-append _ _ d)
    ∙ after_first-append _ Text.[] d
    ∙ (λ i. Text.append.nil d i)

tx_name_lem : (v : ℕ) → tx_name v ≡ Text.◌++◌ "tx_" (decimal v)
unfolding tx_name
tx_name_lem v = refl

-- The name of a transaction tells its version.
version_of-tx_name : (v : ℕ) → v < u64_mod → version_of (tx_name v) ≡ v
unfolding version_of
version_of-tx_name v h =
    ap version_of (tx_name_lem v) ∙ ap (value_from 0) (strip (decimal v)) ∙ value_from-decimal v h

-- the names of the open transactions are those of versions that the topology has had
pub record IsNumbered {C : Type 0} (r : Router C) : Type 0 where
  pub numbered :
      (t : String)
      → is_some (GoMap.get r.active_txns t) ≡ true
      → (v : ℕ) × (v ≤ r.topology.topology_version) × (t ≡ tx_name v)
  pub current : IsCurrent r.topology

-- the name of a later version is no open transaction's
unused :
    {C : Type 0} (r : Router C) (v : ℕ)
    → IsNumbered r
    → r.topology.topology_version < v
    → v < u64_mod
    → GoMap.get r.active_txns (tx_name v) ≡ none
unused r v h later fits = elim (Option-cases (GoMap.get r.active_txns (tx_name v))) [
  | inl free ↦ free
  | inr (ctx, taken) ↦
      let (u, earlier, same) = h.numbered (tx_name v) (rw taken refl) in
      absurd (
        omega (
          arith,
          version_of-tx_name v fits,
          version_of-tx_name u (omega arith),
          ap version_of same,
        ))
]

put_elsewhere :
    {V : Type 0} (m : Map String V) (k u : String) (v : V)
    → u ≢ k
    → GoMap.get (GoMap.put m k v) u ≡ GoMap.get m u
put_elsewhere m k u v other = elim (Bool-cases (k == u)) [
  | inl same ↦ absurd (other (sym ((==_iff k u).0 same)))
  | inr apart ↦ rw (get-put, apart) refl
]

-- a transaction that is opened under the name of a new version
put-IsNumbered :
    {C : Type 0} (r : Router C) (v : ℕ) (ctx : TxContext) (tm : TopologyManager)
    → IsNumbered r
    → r.topology.topology_version < v
    → tm.topology_version ≡ v
    → IsCurrent tm
    → IsNumbered (record r { topology = tm; active_txns = GoMap.put r.active_txns (tx_name v) ctx })
put-IsNumbered r v ctx tm h later at current = record {
  numbered = λ t open_tx. elim (Bool-cases (tx_name v == t)) [
    | inl same ↦ (v, omega (arith, at), sym ((==_iff (tx_name v) t).0 same))
    | inr other ↦
        let elsewhere : GoMap.get (GoMap.put r.active_txns (tx_name v) ctx) t
            ≡ GoMap.get r.active_txns t =
          rw (get-put, other) refl in
        let (u, had, named) = h.numbered t (ap is_some (sym elsewhere) ∙ open_tx) in
        (u, omega (arith, at), named)
  ];
  current = current;
}

-- a new transaction is open under the name, and the others are as before
abbrev pub Opened :
    {W C : Type 0} → IsolationLevel → Sys W C → Try RouterError String × Sys W C → Type 0
Opened iso s (failure _, _) = ⊥
Opened iso s (success t, s') =
    (GoMap.get s.router.active_txns t ≡ none)
    × ((ctx : TxContext) × (GoMap.get s'.router.active_txns t ≡ some ctx)
        × (ctx.tx_id ≡ t)
        × (ctx.isolation_level ≡ iso)
        × (GoMap.keys ctx.involved_shards ≡ [])
        × (s.router.topology.clock.ts < ctx.snapshot_time))
    × ((u : String) → u ≢ t → GoMap.get s'.router.active_txns u ≡ GoMap.get s.router.active_txns u)
    × IsNumbered s'.router

module _ {W C : Type 0} where
  -- On a router whose open transactions are named for versions of its topology, `BeginTransaction`
  -- never finds its name taken: it opens a transaction under a new one, with the isolation level that
  -- was asked for, no shard, and a snapshot time after every timestamp of the clock, and leaves the
  -- others alone. This holds of the router after it again, as long as the physical times are below
  -- the last of 48 bits and the clock has two timestamps left.
  pub begin_transaction-Opened :
      (now now' : ℕ) (iso : IsolationLevel) (s : Sys W C)
      → IsNumbered s.router
      → suc now < 2 ^ 48
      → now' < 2 ^ 48
      → suc (suc s.router.topology.clock.ts) < u64_mod
      → Opened iso s (begin_transaction now now' iso s)
  unfolding begin_transaction open_transaction Csrs.bump_topology_version increment_version
      GoMap.keys GoMap.empty
  begin_transaction-Opened now now' iso s h early early' room =
      let c = s.router.topology.clock in
      let first = tick-eq-max now c (omega arith) (omega arith) in
      let version = (tick now c).0 in
      let issued = ts-tick now c in
      let second = tick-eq-max now' (tick now c).1 early' (omega (arith, first, issued)) in
      let later : s.router.topology.topology_version < version =
        omega (arith, first, h.current.issued) in
      let free = unused s.router version h later (omega (arith, first)) in
      let name = tx_name version in
      let ctx : TxContext = record {
        tx_id = name;
        snapshot_time = (tick now' (tick now c).1).0;
        isolation_level = iso;
        involved_shards = GoMap.empty;
      } in
      rw (free, begin_transaction, open_transaction)
        (
          free,
          (
            ctx,
            rw (get-put, ==-refl name) refl,
            refl,
            refl,
            refl,
            omega (arith, first, issued, second),
          ),
          λ u other. put_elsewhere s.router.active_txns name u ctx other,
          put-IsNumbered s.router version ctx
              (record s.router.topology {
                topology_version = version;
                clock = (tick now' (tick now c).1).1;
              })
              h later refl
              (record { issued = omega (arith, issued, second, ts-tick now' (tick now c).1) }),
        )
