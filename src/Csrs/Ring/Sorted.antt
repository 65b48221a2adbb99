-- ===== src/Csrs/Ring/Sorted.antt =====
-- The order of the hashes on the ring of hash_ring.go.
use let_mil_go.Common.{
  ℕ, zero, suc, ◌≤◌, ◌≡◌, refl, sym, ap, ◌∙◌, inl, inr, String, false, ◌||◌, List, [], ◌∷◌, ◌++◌,
  arith, leb, ◌==◌, ==_iff, nat_eq, string_eq, Bool-cases,
}
use let_mil_go.GoMap.{Map}
use let_mil_go.GoMap
use let_mil_go.GoMap.Unique.{elem}
use let_mil_go.Csrs.Ring.{
  HashRing, contains, or_empty, place, virtual_node_key, insert_hash, sort_hashes, add_shard,
  remove_shard,
}
use let_mil_go.Csrs.Ring.Removal.{Rising, kept, sweep_lem}

-- no number twice
abbrev pub NoRepeat : List ℕ → Type 0
NoRepeat [] = Unit {0}
NoRepeat (x ∷ xs) = (elem x xs ≡ false) × NoRepeat xs

elem-insert_hash : (x y : ℕ) (xs : List ℕ) → elem x (insert_hash y xs) ≡ (y == x || elem x xs)
unfolding insert_hash
elem-insert_hash x y [] = refl
elem-insert_hash x y (z ∷ zs) = ground (arith, elem-insert_hash x y zs)

pub elem-sort_hashes : (x : ℕ) (xs : List ℕ) → elem x (sort_hashes xs) ≡ elem x xs
unfolding sort_hashes
elem-sort_hashes x [] = refl
elem-sort_hashes x (y ∷ ys) = rw (elem-insert_hash x y (sort_hashes ys), elem-sort_hashes x ys) refl

insert_hash-Rising :
    (low x : ℕ) (xs : List ℕ)
    → low ≤ x
    → elem x xs ≡ false
    → Rising low xs
    → Rising low (insert_hash x xs)
unfolding insert_hash
insert_hash-Rising low x [] above new rise = (above, tt)
insert_hash-Rising low x (y ∷ ys) above new rise = elim (Bool-cases (leb x y)) [
  | inl before ↦ rw before (above, (ground (arith, ==_iff y x), rise.1))
  | inr later ↦
      rw later (rise.0, insert_hash-Rising (suc y) x ys (ground arith) (ground arith) rise.1)
]

-- Sorting numbers of which none stands twice gives them in strictly ascending order.
pub sort_hashes-Rising : (xs : List ℕ) → NoRepeat xs → Rising 0 (sort_hashes xs)
unfolding sort_hashes
sort_hashes-Rising [] d = tt
sort_hashes-Rising (x ∷ xs) d =
    insert_hash-Rising 0 x (sort_hashes xs) (omega arith) (elem-sort_hashes x xs ∙ d.0)
      (sort_hashes-Rising xs d.1)

-- the hashes of a shard's virtual nodes from an index on
unfoldable pub nodes_from : (String → ℕ) → String → ℕ → ℕ → List ℕ
nodes_from hash t zero i = []
nodes_from hash t (suc rounds) i = hash (virtual_node_key t i) ∷ nodes_from hash t rounds (suc i)

append_assoc : (xs ys zs : List ℕ) → (xs ++ ys) ++ zs ≡ xs ++ (ys ++ zs)
append_assoc [] ys zs = refl
append_assoc (x ∷ xs) ys zs = ap (◌∷◌ x) (append_assoc xs ys zs)

append-nil : (xs : List ℕ) → xs ++ [] ≡ xs
append-nil [] = refl
append-nil (x ∷ xs) = ap (◌∷◌ x) (append-nil xs)

pub place_lem :
    (hash : String → ℕ) (t : String) (rounds i : ℕ) (ring : List ℕ) (nodes : Map ℕ String)
    → (place hash t rounds i ring nodes).0 ≡ ring ++ nodes_from hash t rounds i
unfolding place nodes_from
place_lem hash t zero i ring nodes = sym (append-nil ring)
place_lem hash t (suc rounds) i ring nodes =
    let node = hash (virtual_node_key t i) in
    place_lem hash t rounds (suc i) (ring ++ node ∷ []) (GoMap.put nodes node t)
    ∙ append_assoc ring (node ∷ []) (nodes_from hash t rounds (suc i))

-- `AddShard` leaves a strictly ascending ring, if no hash of a virtual node of the new shard stands
-- on the ring or belongs to two of them.
pub add_shard-Rising :
    (hash : String → ℕ) (h : HashRing) (t : String)
    → Rising 0 h.ring
    → NoRepeat (h.ring ++ nodes_from hash t h.virtual_nodes 0)
    → Rising 0 (add_shard hash h t).1.ring
unfolding add_shard
add_shard-Rising hash h t rise fresh = elim (Bool-cases (contains h t)) [
  | inl old ↦ rw (add_shard, old) rise
  | inr new ↦
      rw (add_shard, new, place_lem hash t h.virtual_nodes 0 h.ring h.node_map)
        (sort_hashes-Rising (h.ring ++ nodes_from hash t h.virtual_nodes 0) fresh)
]

Rising-mono : (m n : ℕ) (xs : List ℕ) → m ≤ n → Rising n xs → Rising m xs
Rising-mono m n [] h r = tt
Rising-mono m n (x ∷ xs) h r = (omega (arith, r.0), r.1)

kept-Rising :
    (t : String) (nodes : Map ℕ String) (low : ℕ) (xs : List ℕ)
    → Rising low xs
    → Rising low (kept t nodes xs)
unfolding kept
kept-Rising t nodes low [] r = tt
kept-Rising t nodes low (x ∷ xs) r =
    let ih = kept-Rising t nodes (suc x) xs r.1 in
    elim (Bool-cases (or_empty (GoMap.get nodes x) == t)) [
      | inl gone ↦ rw gone (Rising-mono low (suc x) _ (omega (arith, r.0)) ih)
      | inr stays ↦ rw stays (r.0, ih)
    ]

-- `RemoveShard` leaves a strictly ascending ring strictly ascending.
pub remove_shard-Rising :
    (h : HashRing) (t : String) → Rising 0 h.ring → Rising 0 (remove_shard h t).1.ring
unfolding remove_shard
remove_shard-Rising h t rise = elim (Bool-cases (contains h t)) [
  | inr missing ↦ rw (remove_shard, missing) rise
  | inl there ↦
      rw (remove_shard, there, (sweep_lem t 0 h.ring h.node_map h.node_map rise (λ x _. refl)).0)
        (kept-Rising t h.node_map 0 h.ring rise)
]
