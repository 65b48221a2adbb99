-- ===== src/Mulberry/Sync/Mirror.antt =====
-- A shard that registers with the config server of internal/csrs/server.go is, after the next `doSync`
-- of cmd/mulberry/main.go, known to the router.
use let_mil_go.Common.{
  ℕ, ◌≡◌, ◌≢◌, refl, sym, ap, ◌∙◌, inl, inr, String, some, List, [], ◌∷◌, arith, All, some-inj,
  ◌==◌, ==_iff, ==-ne, string_eq, if◌then◌else◌, Bool-cases, Option-cases,
}
use let_mil_go.GoMap.{Map, is_some, get-put, get-empty}
use let_mil_go.GoMap
use let_mil_go.GoMap.Unique.{elem, elem-keys, IsUnique, entries-get, put-IsUnique, empty-IsUnique}
use let_mil_go.Rpc.{success}
use let_mil_go.Csrs.Registry.{ShardInfo, ℤ, shard_status_active}
use let_mil_go.Csrs.Registry
use let_mil_go.Csrs.{TopologyManager, address_map}
use let_mil_go.Csrs
use let_mil_go.Csrs.Server
use let_mil_go.Mulberry.Sync.{do_sync}
use let_mil_go.Mulberry.Sync.Exact.{address_in, address_of, do_sync_exact}

-- a topology as the config server keeps it: every shard has a name and an address
pub record IsNamed (tm : TopologyManager) : Type 0 where
  pub unique : IsUnique tm.registry.shards
  pub named :
      (id : String) (info : ShardInfo)
      → GoMap.get tm.registry.shards id ≡ some info
      → (id ≢ "") × (info.address ≢ "")

-- the entries that are left of a registry
abbrev AreEntries : Map String ShardInfo → List (String × ShardInfo) → Type 0
AreEntries m l = All (λ (entry : String × ShardInfo). GoMap.get m entry.0 ≡ some entry.1) l

address_map_lem :
    (m : Map String ShardInfo) (l : List (String × ShardInfo)) (result : Map String String)
    (t : String)
    → AreEntries m l
    → GoMap.get (address_map l result) t ≡ (
        if elem t (GoMap.keys (record { entries = l }))
        then address_in (GoMap.get m t)
        else GoMap.get result t)
unfolding address_map GoMap.keys
address_map_lem m [] result t a = refl
address_map_lem m ((id, info) ∷ l) result t (e, a) = elim (Bool-cases (id == t)) [
  | inl same ↦
      let here : address_in (GoMap.get m t) ≡ some info.address =
        ap address_in (ap (GoMap.get m) (sym ((==_iff id t).0 same)) ∙ e) in
      ground (
        arith,
        address_map_lem m l (GoMap.put result id info.address) t a,
        same,
        here,
        get-put result id t info.address,
      )
  | inr other ↦ ground (
    arith,
    address_map_lem m l (GoMap.put result id info.address) t a,
    other,
    get-put result id t info.address,
  )
]

address_map-IsUnique :
    (l : List (String × ShardInfo)) (result : Map String String)
    → IsUnique result
    → IsUnique (address_map l result)
unfolding address_map
address_map-IsUnique [] result u = u
address_map-IsUnique ((id, info) ∷ l) result u =
    address_map-IsUnique l (GoMap.put result id info.address)
      (put-IsUnique result id info.address u)

-- The map of addresses has, for every shard, the address of the registry.
get_shard_address_map_lem :
    (tm : TopologyManager) (t : String)
    → IsNamed tm
    → GoMap.get (Csrs.get_shard_address_map tm) t ≡ address_of tm t
unfolding Csrs.get_shard_address_map Registry.get_all Registry.get
get_shard_address_map_lem tm t h =
    let m = tm.registry.shards in
    address_map_lem m m.entries GoMap.empty t (entries-get m h.unique)
    ∙ rw (elem-keys m t) (elim (Option-cases (GoMap.get m t)) [
      | inl missing ↦ rw missing (get-empty t)
      | inr (info, found) ↦ rw found refl
    ])

addresses-IsUnique : (tm : TopologyManager) → IsUnique (Csrs.get_shard_address_map tm)
unfolding Csrs.get_shard_address_map
addresses-IsUnique tm =
    address_map-IsUnique (Registry.get_all tm.registry).entries GoMap.empty empty-IsUnique

-- what is in the map of addresses has a name and an address
addresses_named :
    (tm : TopologyManager)
    → IsNamed tm
    → (id address : String) → GoMap.get (Csrs.get_shard_address_map tm) id ≡ some address
    → (id ≢ "") × (address ≢ "")
unfolding Registry.get
addresses_named tm h id address e = elim (Option-cases (GoMap.get tm.registry.shards id)) [
  | inl missing ↦
      let nothing = get_shard_address_map_lem tm id h ∙ ap address_in missing in
      absurd (cc (nothing, e))
  | inr (info, found) ↦
      let same : info.address ≡ address =
        some-inj (sym (ap address_in found) ∙ sym (get_shard_address_map_lem tm id h) ∙ e) in
      let (name, at) = h.named id info found in (name, rw (← same) at)
]

-- what is registered of a shard
abbrev registered : String → String → String → ℤ → ShardInfo
registered id address replica_set priority = record {
  shard_id = id;
  address = address;
  replica_set = replica_set;
  priority = priority;
  status = shard_status_active;
}

module _ (hash : String → ℕ) where
  -- the registry after a registration
  shards-register_shard :
      (now : ℕ) (tm : TopologyManager) (id address replica_set : String) (priority : ℤ)
      → id ≢ ""
      → address ≢ ""
      → (Server.register_shard hash now tm id address replica_set priority).1.registry.shards
        ≡ GoMap.put tm.registry.shards id (registered id address replica_set priority)
  unfolding Server.register_shard Csrs.add_shard Csrs.increment_version Registry.register
  shards-register_shard now tm id address replica_set priority named addressed =
      ground (arith, ==-ne id "" named, ==-ne address "" addressed)

  register_shard-IsNamed :
      (now : ℕ) (tm : TopologyManager) (id address replica_set : String) (priority : ℤ)
      → id ≢ ""
      → address ≢ ""
      → IsNamed tm
      → IsNamed (Server.register_shard hash now tm id address replica_set priority).1
  register_shard-IsNamed now tm id address replica_set priority named addressed h =
      let e = shards-register_shard now tm id address replica_set priority named addressed in
      record {
        unique = rw e (put-IsUnique tm.registry.shards id _ h.unique);
        named = λ t info found.
            let info' = registered id address replica_set priority in
            let there : (if id == t then some info' else GoMap.get tm.registry.shards t)
                ≡ some info =
              sym (ap (λ m. GoMap.get m t) e ∙ get-put tm.registry.shards id t info') ∙ found in
            elim (Bool-cases (id == t)) [
              | inl same ↦
                  let one : info' ≡ info = some-inj (rw same at there) in
                  (rw (← (==_iff id t).0 same) named, rw (← one) addressed)
              | inr other ↦ h.named t info (rw other at there)
            ];
      }

  -- A shard registers with the config server, by name and address, and a router syncs: whatever the
  -- router knew before, it then has the shard at that address, and every other shard as the config
  -- server has it, and no other.
  pub do_sync-register_shard :
      (now : ℕ) (config : TopologyManager) (id address replica_set : String) (priority : ℤ)
      (now' : String → ℕ) (router : TopologyManager)
      → IsNamed config
      → id ≢ ""
      → address ≢ ""
      → (t : String)
      → address_of
          (do_sync hash now' router (
            success
              (Server.get_shard_address_map
                (Server.register_shard hash now config id address replica_set
                  priority).1).shard_addresses)).1
          t
        ≡ (if id == t then some address else address_of config t)
  unfolding Server.get_shard_address_map Registry.get
  do_sync-register_shard now config id address replica_set priority now' router h named addressed
        t =
      let after = (Server.register_shard hash now config id address replica_set priority).1 in
      let h' =
        register_shard-IsNamed now config id address replica_set priority named addressed h in
      let info' = registered id address replica_set priority in
      let there : address_of after t ≡ (if id == t then some address else address_of config t) =
        ap address_in (
          ap (λ m. GoMap.get m t)
            (shards-register_shard now config id address replica_set priority named addressed)
          ∙ get-put config.registry.shards id t info')
        ∙ elim (Bool-cases (id == t)) [ inl same ↦ rw same refl | inr other ↦ rw other refl ] in
      (do_sync_exact hash now' router (Csrs.get_shard_address_map after) (addresses-IsUnique after)
          (addresses_named after h')).1
        t
      ∙ get_shard_address_map_lem after t h'
      ∙ there
