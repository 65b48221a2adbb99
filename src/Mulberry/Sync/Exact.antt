-- ===== src/Mulberry/Sync/Exact.antt =====
-- After `doSync` of cmd/mulberry/main.go the router has the shards of the config server.
use let_mil_go.Common.{
  ℕ, ◌≡◌, ◌≢◌, refl, ◌⊎◌, inl, inr, String, false, Option, none, some, List, [], ◌∷◌, arith, All,
  ◌==◌, ==_iff, ==-ne, string_eq, if◌then◌else◌, Bool-cases, Option-cases,
}
use let_mil_go.GoMap.{Map, is_some, get-put, get-delete}
use let_mil_go.GoMap
use let_mil_go.GoMap.Unique.{elem, elem-keys, IsUnique, entries-get}
use let_mil_go.Rpc.{success}
use let_mil_go.Csrs.Registry.{ShardInfo}
use let_mil_go.Csrs.Registry
use let_mil_go.Csrs.{TopologyManager}
use let_mil_go.Csrs
use let_mil_go.Mulberry.Sync.{bare_info, has_changed, remove_stale, add_changed, take_over, do_sync}

-- the address of an entry
abbrev pub address_in : Option ShardInfo → Option String
address_in none = none
address_in (some info) = some info.address

-- the address that a topology has for a shard
abbrev pub address_of : TopologyManager → String → Option String
address_of tm id = address_in (Registry.get tm.registry id)

address_of-add_shard :
    (hash : String → ℕ) (now : ℕ) (tm : TopologyManager) (id address t : String)
    → id ≢ ""
    → address ≢ ""
    → address_of (Csrs.add_shard hash now tm (bare_info id address)).1 t
      ≡ (if id == t then some address else address_of tm t)
unfolding Csrs.add_shard Csrs.increment_version Registry.register Registry.get
address_of-add_shard hash now tm id address t named addressed = ground (
  arith,
  ==-ne id "" named,
  ==-ne address "" addressed,
  get-put tm.registry.shards id t (bare_info id address),
)

address_of-remove_shard :
    (now : ℕ) (tm : TopologyManager) (id t : String)
    → address_of (Csrs.remove_shard now tm id).1 t ≡ (if id == t then none else address_of tm t)
unfolding Csrs.remove_shard Csrs.increment_version Registry.unregister Registry.get
address_of-remove_shard now tm id t = elim (Option-cases (GoMap.get tm.registry.shards id)) [
  | inl missing ↦ rw (missing, Csrs.remove_shard) (ground (arith, ==_iff id t, missing))
  | inr (info, found) ↦
      rw (found, Csrs.remove_shard) (ground (arith, get-delete tm.registry.shards id t))
]

remove_stale_lem :
    (now : String → ℕ) (new : Map String String) (ids : List String) (tm : TopologyManager)
    (t : String)
    → address_of (remove_stale now new ids tm) t ≡ (
        if elem t ids
        then (if is_some (GoMap.get new t) then address_of tm t else none)
        else address_of tm t)
unfolding remove_stale
remove_stale_lem now new [] tm t = refl
remove_stale_lem now new (id ∷ ids) tm t = elim (Bool-cases (is_some (GoMap.get new id))) [
  | inl there ↦
      rw (there, remove_stale)
        (ground (arith, remove_stale_lem now new ids tm t, ==_iff id t, there))
  | inr gone ↦
      rw (gone, remove_stale)
        (ground (
          arith,
          remove_stale_lem now new ids (Csrs.remove_shard (now id) tm id).1 t,
          address_of-remove_shard (now id) tm id t,
          ==_iff id t,
          gone,
        ))
]

-- every address is the one that the sync began with, or the new one
abbrev Between : TopologyManager → Map String ShardInfo → Map String String → Type 0
Between tm current new =
    (t : String)
    → (address_of tm t ≡ address_in (GoMap.get current t)) ⊎ (address_of tm t ≡ GoMap.get new t)

-- an entry with a name and an address, which the new map has for its key
abbrev IsGiven : Map String String → String × String → Type 0
IsGiven new entry = (GoMap.get new entry.0 ≡ some entry.1) × (entry.0 ≢ "") × (entry.1 ≢ "")

unchanged :
    (o : Option ShardInfo) (address : String)
    → has_changed o address ≡ false
    → address_in o ≡ some address
unchanged none address h = absurd (cc h)
unchanged (some info) address h = ground (arith, ==_iff info.address address, h)

module _ (hash : String → ℕ) (now : String → ℕ) where
  -- one round of the first loop
  abbrev round : Map String ShardInfo → String → String → TopologyManager → TopologyManager
  round current id address tm =
      if has_changed (GoMap.get current id) address
      then (Csrs.add_shard hash (now id) tm (bare_info id address)).1
      else tm

  round_lem :
      (current : Map String ShardInfo) (new : Map String String) (id address : String)
      (tm : TopologyManager)
      → IsGiven new (id, address)
      → Between tm current new
      → (t : String)
      → address_of (round current id address tm) t
        ≡ (if id == t then some address else address_of tm t)
  round_lem current new id address tm (given, named, addressed) between t =
      elim (Bool-cases (has_changed (GoMap.get current id) address)) [
        | inl changed ↦
            rw changed (address_of-add_shard hash (now id) tm id address t named addressed)
        | inr same ↦
            let kept = unchanged (GoMap.get current id) address same in
            rw same (elim (between id) [
              | inl e ↦ ground (arith, ==_iff id t, kept, e)
              | inr e ↦ ground (arith, ==_iff id t, given, e)
            ])
      ]

  round-Between :
      (current : Map String ShardInfo) (new : Map String String) (id address : String)
      (tm : TopologyManager)
      → IsGiven new (id, address)
      → Between tm current new
      → Between (round current id address tm) current new
  round-Between current new id address tm g between t =
      let e = round_lem current new id address tm g between t in
      elim (Bool-cases (id == t)) [
        | inl same ↦ inr (ground (arith, e, same, ==_iff id t, g.0))
        | inr other ↦ elim (between t) [
          | inl h ↦ inl (ground (arith, e, other, h))
          | inr h ↦ inr (ground (arith, e, other, h))
        ]
      ]

  add_changed_lem :
      (current : Map String ShardInfo) (new : Map String String) (l : List (String × String))
      (tm : TopologyManager)
      → All (IsGiven new) l
      → Between tm current new
      → (t : String)
      → address_of (add_changed hash now current l tm) t ≡ (
          if elem t (GoMap.keys (record { entries = l })) then GoMap.get new t else address_of tm t)
  unfolding add_changed GoMap.keys
  add_changed_lem current new [] tm a between t = refl
  add_changed_lem current new ((id, address) ∷ l) tm (g, a) between t = ground (
    arith,
    add_changed_lem current new l (round current id address tm) a
        (round-Between current new id address tm g between) t,
    round_lem current new id address tm g between t,
    ==_iff id t,
    g.0,
  )

  -- the entries of a map of named shards with addresses
  All-IsGiven :
      (new : Map String String) (l : List (String × String))
      → All (λ (entry : String × String). GoMap.get new entry.0 ≡ some entry.1) l
      → ((id address : String) → GoMap.get new id ≡ some address → (id ≢ "") × (address ≢ ""))
      → All (IsGiven new) l
  All-IsGiven new [] a h = tt
  All-IsGiven new ((id, address) ∷ l) (e, a) h =
      ((e, (h id address e).0, (h id address e).1), All-IsGiven new l a h)

  -- Where the config server has answered with a map of named shards with addresses, `doSync` succeeds
  -- and leaves the router's topology with exactly these shards at these addresses, whatever it had
  -- before.
  pub do_sync_exact :
      (tm : TopologyManager) (new : Map String String)
      → IsUnique new
      → ((id address : String) → GoMap.get new id ≡ some address → (id ≢ "") × (address ≢ ""))
      → ((do_sync hash now tm (success new)).0 ≡ none)
        × ((t : String) → address_of (do_sync hash now tm (success new)).1 t ≡ GoMap.get new t)
  unfolding do_sync take_over Csrs.get_all_shards Registry.get_all Registry.get
  do_sync_exact tm new u h = (
    refl,
    λ t.
        let current = Csrs.get_all_shards tm in
        let added = add_changed hash now current new.entries tm in
        ground (
          arith,
          remove_stale_lem now new (GoMap.keys current) added t,
          add_changed_lem current new new.entries tm
              (All-IsGiven new new.entries (entries-get new u) h) (λ id. inl refl) t,
          elem-keys new t,
          elem-keys current t,
        ),
  )
