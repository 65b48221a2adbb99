-- ===== src/Csrs/Ring/Replicas.antt =====
-- internal/csrs/hash_ring.go: `GetNShards`, a walk round the ring from the key's place on, until it has
-- met enough different shards. It takes one unit of fuel for each test of its loop.
use let_mil_go.Common.{
  ℕ, zero, suc, ◌+◌, ◌%◌, String, Bool, true, false, Option, none, some, List, [], ◌∷◌, ◌++◌,
  length, get_elem?, ltb, ◌==◌, nat_eq, string_eq, if◌then◌else◌,
}
use let_mil_go.GoMap.{Map}
use let_mil_go.GoMap
use let_mil_go.Csrs.Registry.{ℤ, pos, negsuc}
use let_mil_go.Csrs.Ring.{HashRing, or_empty, or_false, search}

-- `panics` is an index out of range, or a slice of a negative capacity
pub data Picked : Type 0 where
  picked : List String → Picked
  panics out_of_fuel : Picked

-- h.nodeMap[h.ring[idx]]
unfoldable pub owner_at : HashRing → ℕ → Option String
owner_at h idx = elim (get_elem? h.ring idx) [
  | some node ↦ some (or_empty (GoMap.get h.node_map node))
  | none ↦ none
]

-- the loop, at the index `idx`
unfoldable pub pick : ℕ → HashRing → ℕ → ℕ → List String → Map String Bool → Picked
unfolding owner_at
pick zero h n idx result seen = out_of_fuel
pick (suc fuel) h n idx result seen = elim (ltb (length result) n) [
  | false ↦ picked result
  | true ↦ elim (owner_at h idx) [
    | none ↦ panics
    | some shard_id ↦ elim (or_false (GoMap.get seen shard_id)) [
      | true ↦ pick fuel h n ((idx + 1) % length h.ring) result seen
      | false ↦
          pick fuel h n ((idx + 1) % length h.ring) (result ++ shard_id ∷ [])
            (GoMap.put seen shard_id true)
    ]
  ]
]

-- if n > shardCount { n = shardCount }
abbrev pub at_most : ℕ → ℕ → ℕ
at_most shard_count n = if ltb shard_count n then shard_count else n

module _ (hash : String → ℕ) where
  unfoldable pub get_n_shards : ℕ → HashRing → String → ℤ → Picked
  unfolding pick search
  get_n_shards fuel h key n =
      let shard_count = GoMap.len h.shard_set in
      if shard_count == 0 then picked [] else elim n [
        | negsuc _ ↦ panics
        | pos m ↦ pick fuel h (at_most shard_count m) (search h (hash key)) [] GoMap.empty
      ]
