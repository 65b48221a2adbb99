-- ===== src/Csrs/Ring.antt =====
-- internal/csrs/hash_ring.go: consistent hashing with virtual nodes. The first four bytes of SHA-256,
-- as a number, are the parameter `hash` (`hashKey`); `sort.Slice` and `sort.Search` are given by what
-- the package sort documents.
pub mod Successor
pub mod Removal
pub mod Sorted
pub mod Growth
pub mod Replicas
pub mod Steps
pub mod Walk
pub mod Hangs
use Prim.Native.Char.{Char, char, IsScalar}
use Prim.Native.Nat.{Ordering, compare}
use Prim.Native.String as Text
use let_mil_go.Common.{
  ℕ, zero, suc, ◌+◌, ◌/◌, ◌%◌, ◌≡◌, refl, String, Bool, true, false, not, Option, none, some, List,
  [], ◌∷◌, ◌++◌, length, get_elem?, ltb, leb, ◌==◌, nat_eq, string_eq, if◌then◌else◌,
}
use let_mil_go.GoMap.{Map, is_some}
use let_mil_go.GoMap

-- string(rune(n)), for a code below the surrogates, which is every index below five million
rune_in : (n : ℕ) (o : Ordering) → compare n 55296 ≡ o → String
rune_in n Ordering.lt e = Text.◌∷◌ (char n (rw e tt)) Text.[]
rune_in n _ e = ""

unfoldable pub rune_string : ℕ → String
unfolding rune_in
rune_string n = rune_in n (compare n 55296) refl

unfoldable pub virtual_node_key : String → ℕ → String
unfolding rune_string
virtual_node_key shard_id index = Text.◌++◌ shard_id (
    Text.◌++◌ "#" (
      Text.◌++◌ (rune_string (48 + index / 100))
        (Text.◌++◌ (rune_string (48 + index % 100 / 10)) (rune_string (48 + index % 10)))))

pub record HashRing : Type 0 where
  pub virtual_nodes : ℕ
  pub ring : List ℕ
  pub node_map : Map ℕ String
  pub shard_set : Map String Bool

abbrev pub default_virtual_nodes : ℕ
default_virtual_nodes = 150

unfoldable pub new_hash_ring_with_vnodes : ℕ → HashRing
new_hash_ring_with_vnodes virtual_nodes = record {
  virtual_nodes = if leb virtual_nodes 0 then default_virtual_nodes else virtual_nodes;
  ring = [];
  node_map = GoMap.empty;
  shard_set = GoMap.empty;
}

unfoldable pub new_hash_ring : HashRing
unfolding new_hash_ring_with_vnodes
new_hash_ring = new_hash_ring_with_vnodes default_virtual_nodes

-- a hash in its place in an ascending slice
unfoldable pub insert_hash : ℕ → List ℕ → List ℕ
insert_hash hash [] = hash ∷ []
insert_hash hash (x ∷ xs) =
    let rest = insert_hash hash xs in if leb hash x then hash ∷ x ∷ xs else x ∷ rest

-- sort.Slice by <; equal numbers cannot be told apart
unfoldable pub sort_hashes : List ℕ → List ℕ
unfolding insert_hash
sort_hashes [] = []
sort_hashes (x ∷ xs) = insert_hash x (sort_hashes xs)

-- sort.Search for the first hash that is not below: its index, the length where there is none
unfoldable pub first_not_below : List ℕ → ℕ → ℕ
first_not_below [] hash = 0
first_not_below (x ∷ xs) hash =
    let rest = first_not_below xs hash in if ltb x hash then suc rest else 0

-- m[k] of a map of texts or of tests: the zero value where the key is missing
abbrev pub or_empty : Option String → String
or_empty none = ""
or_empty (some s) = s

abbrev pub or_false : Option Bool → Bool
or_false none = false
or_false (some b) = b

unfoldable pub contains : HashRing → String → Bool
contains h shard_id = or_false (GoMap.get h.shard_set shard_id)

unfoldable pub shard_count : HashRing → ℕ
shard_count h = GoMap.len h.shard_set

unfoldable pub get_all_shards : HashRing → List String
get_all_shards h = GoMap.keys h.shard_set

-- the index where the search begins, 0 past the end
unfoldable pub search : HashRing → ℕ → ℕ
unfolding first_not_below
search h hash = let idx = first_not_below h.ring hash in if leb (length h.ring) idx then 0 else idx

-- the loop of `RemoveShard`: the hashes that stay and the map, in which the shard's hashes are
-- deleted
unfoldable pub sweep : String → List ℕ → Map ℕ String → List ℕ × Map ℕ String
sweep shard_id [] nodes = ([], nodes)
sweep shard_id (hash ∷ rest) nodes =
    let gone = sweep shard_id rest (GoMap.delete nodes hash) in
    let kept = sweep shard_id rest nodes in
    elim (or_empty (GoMap.get nodes hash) == shard_id) [
      | true ↦ gone
      | false ↦ (hash ∷ kept.0, kept.1)
    ]

unfoldable pub remove_shard : HashRing → String → Bool × HashRing
unfolding sweep contains
remove_shard h shard_id =
    if not (contains h shard_id)
    then (false, h)
    else let (ring, nodes) = sweep shard_id h.ring h.node_map in
      (
        true,
        record h { ring = ring; node_map = nodes; shard_set = GoMap.delete h.shard_set shard_id },
      )

module _ (hash : String → ℕ) where
  -- the loop of `AddShard`, with the rounds that are left and the index
  unfoldable pub place : String → ℕ → ℕ → List ℕ → Map ℕ String → List ℕ × Map ℕ String
  place shard_id zero i ring nodes = (ring, nodes)
  place shard_id (suc rounds) i ring nodes =
      let node = hash (virtual_node_key shard_id i) in
      place shard_id rounds (suc i) (ring ++ node ∷ []) (GoMap.put nodes node shard_id)

  unfoldable pub add_shard : HashRing → String → Bool × HashRing
  unfolding contains place sort_hashes
  add_shard h shard_id =
      if contains h shard_id
      then (false, h)
      else let (ring, nodes) = place shard_id h.virtual_nodes 0 h.ring h.node_map in
        (
          true,
          record h {
            ring = sort_hashes ring;
            node_map = nodes;
            shard_set = GoMap.put h.shard_set shard_id true;
          },
        )

  -- h.nodeMap[h.ring[idx]]; the index lies within the ring where that is not empty
  unfoldable pub get_shard_for_key : HashRing → String → String
  unfolding search
  get_shard_for_key h key =
      if length h.ring == 0 then "" else elim (get_elem? h.ring (search h (hash key))) [
        | some node ↦ or_empty (GoMap.get h.node_map node)
        | none ↦ ""
      ]
