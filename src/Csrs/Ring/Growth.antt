-- ===== src/Csrs/Ring/Growth.antt =====
-- The shards of the keys before and after `AddShard` of hash_ring.go.
use let_mil_go.Common.{
  ℕ, zero, suc, ◌≤◌, ◌<◌, ◌≡◌, refl, sym, ap, ◌∙◌, inl, inr, ◌⊎◌, String, true, false, ◌||◌, none,
  some, List, [], ◌∷◌, ◌++◌, arith, ltb, ◌==◌, ==_iff, ==-refl, nat_eq, string_eq, if◌then◌else◌,
  Bool-cases, Option-cases,
}
use let_mil_go.GoMap.{Map, get-put}
use let_mil_go.GoMap
use let_mil_go.GoMap.Unique.{elem}
use let_mil_go.Csrs.Ring.{HashRing, contains, place, virtual_node_key, add_shard, get_shard_for_key}
use let_mil_go.Csrs.Ring.Successor.{find, head, successor, owner, get_shard_for_key_lem}
use let_mil_go.Csrs.Ring.Removal.{Rising, successor-none}
use let_mil_go.Csrs.Ring.Sorted.{
  NoRepeat, nodes_from, place_lem, elem-sort_hashes, add_shard-Rising,
}

Rising-elem : (low x : ℕ) (xs : List ℕ) → Rising low xs → elem x xs ≡ true → low ≤ x
Rising-elem low x [] r e = ground arith
Rising-elem low x (y ∷ ys) r e = elim (Bool-cases (y == x)) [
  | inl here ↦ ground (arith, r.0, ==_iff y x)
  | inr there ↦ ground (arith, r.0, Rising-elem (suc y) x ys r.1)
]

-- what `find` finds is the least hash of the ring that is not below the number
find_least :
    (low n x : ℕ) (xs : List ℕ)
    → Rising low xs
    → find xs n ≡ some x
    → (elem x xs ≡ true) × (n ≤ x) × ((y : ℕ) → elem y xs ≡ true → n ≤ y → x ≤ y)
unfolding find
find_least low n x [] r e = absurd (ground arith)
find_least low n x (z ∷ zs) r e = elim (Bool-cases (ltb z n)) [
  | inl below ↦
      let (there, above, least) = find_least (suc z) n x zs r.1 (rw below at e) in
      (ground (arith, there), above, λ y listed k. least y (ground (arith, ==_iff z y, below)) k)
  | inr reached ↦
      let same : z ≡ x = ground (arith, e) in
      (
        ground (arith, same, ==_iff z x),
        ground (arith, same),
        λ y listed k. ground (arith, same, ==_iff z y, Rising-elem (suc z) y zs r.1),
      )
]

find_of_least :
    (low n x : ℕ) (xs : List ℕ)
    → Rising low xs
    → elem x xs ≡ true
    → n ≤ x
    → ((y : ℕ) → elem y xs ≡ true → n ≤ y → x ≤ y)
    → find xs n ≡ some x
unfolding find
find_of_least low n x [] r there above least = ground arith
find_of_least low n x (z ∷ zs) r there above least = elim (Bool-cases (ltb z n)) [
  | inl below ↦ rw below (
      find_of_least (suc z) n x zs r.1 (ground (arith, ==_iff z x)) above
        (λ y listed k. least y (ground (arith, listed)) k))
  | inr reached ↦
      let low_x : x ≤ z = least z (ground (arith, ==-refl z)) (ground arith) in
      elim (Bool-cases (z == x)) [
        | inl here ↦ rw reached (ground (arith, ==_iff z x))
        | inr later ↦ absurd (ground (arith, Rising-elem (suc z) x zs r.1))
      ]
]

find-none : (n : ℕ) (xs : List ℕ) → find xs n ≡ none → (y : ℕ) → elem y xs ≡ true → y < n
unfolding find
find-none n [] e y listed = ground arith
find-none n (z ∷ zs) e y listed = elim (Bool-cases (z == y)) [
  | inl here ↦ ground (arith, ==_iff z y)
  | inr there ↦ find-none n zs (ground arith) y (ground arith)
]

find_of_none : (n : ℕ) (xs : List ℕ) → ((y : ℕ) → elem y xs ≡ true → y < n) → find xs n ≡ none
unfolding find
find_of_none n [] h = refl
find_of_none n (z ∷ zs) h = ground (
  arith,
  h z (ground (arith, ==-refl z)),
  find_of_none n zs (λ y listed. h y (ground (arith, listed))),
)

head-find : (xs : List ℕ) → head xs ≡ find xs 0
unfolding find
head-find [] = refl
head-find (x ∷ xs) = ground arith

-- On a larger ring the successor of a number is new, or it is what it was.
successor_grown :
    (n x : ℕ) (xs ys : List ℕ)
    → Rising 0 xs
    → Rising 0 ys
    → ((y : ℕ) → elem y xs ≡ true → elem y ys ≡ true)
    → elem x xs ≡ true
    → successor ys n ≡ some x
    → successor xs n ≡ some x
successor_grown n x xs ys rise rise' more old next = elim (Option-cases (find ys n)) [
  | inr (z, found) ↦
      let e : find ys n ≡ some x = cc (found, rw found at next) in
      let (_, above, least) = find_least 0 n x ys rise' e in
      rw (find_of_least 0 n x xs rise old above (λ y listed k. least y (more y listed) k)) refl
  | inl past ↦
      let first : find ys 0 ≡ some x = sym (head-find ys) ∙ (rw past at next) in
      let (_, above, least) = find_least 0 0 x ys rise' first in
      rw
        (
          find_of_none n xs (λ y listed. find-none n ys past y (more y listed)),
          head-find xs,
          find_of_least 0 0 x xs rise old above (λ y listed k. least y (more y listed) k),
        )
        refl
]

elem-append : (x : ℕ) (xs ys : List ℕ) → elem x (xs ++ ys) ≡ (elem x xs || elem x ys)
elem-append x [] ys = refl
elem-append x (z ∷ zs) ys = ground (arith, elem-append x zs ys)

-- the map after the loop of `AddShard`
get-place :
    (hash : String → ℕ) (t : String) (rounds i : ℕ) (ring : List ℕ) (nodes : Map ℕ String) (x : ℕ)
    → GoMap.get (place hash t rounds i ring nodes).1 x
      ≡ (if elem x (nodes_from hash t rounds i) then some t else GoMap.get nodes x)
unfolding place nodes_from
get-place hash t zero i ring nodes x = refl
get-place hash t (suc rounds) i ring nodes x =
    let node = hash (virtual_node_key t i) in
    rw (get-place hash t rounds (suc i) (ring ++ node ∷ []) (GoMap.put nodes node t) x, get-put)
      (ground arith)

nobody-nil : (xs : List ℕ) → ((x : ℕ) → elem x xs ≡ false) → xs ≡ []
nobody-nil [] h = refl
nobody-nil (x ∷ xs) h = absurd (ground (arith, h x, ==-refl x))

successor-elem : (n x : ℕ) (xs : List ℕ) → Rising 0 xs → successor xs n ≡ some x → elem x xs ≡ true
successor-elem n x xs rise next = elim (Option-cases (find xs n)) [
  | inr (z, found) ↦ (find_least 0 n x xs rise (cc (found, rw found at next))).0
  | inl past ↦ (find_least 0 0 x xs rise (sym (head-find xs) ∙ (rw past at next))).0
]

-- the shard of a key before and after the new hashes are on the ring
owner-grown :
    (hash : String → ℕ) (h h' : HashRing) (t : String) (n : ℕ)
    → Rising 0 h.ring
    → Rising 0 h'.ring
    → ((x : ℕ) → elem x h'.ring ≡ (elem x h.ring || elem x (nodes_from hash t h.virtual_nodes 0)))
    → ((x : ℕ)
        → GoMap.get h'.node_map x ≡ (
            if elem x (nodes_from hash t h.virtual_nodes 0)
            then some t
            else GoMap.get h.node_map x))
    → (owner h' (successor h'.ring n) ≡ t)
      ⊎ (owner h' (successor h'.ring n) ≡ owner h (successor h.ring n))
owner-grown hash h h' t n rise rise' grown mapped = elim (Option-cases (successor h'.ring n)) [
  | inl idle ↦
      let none_left : h'.ring ≡ [] = successor-none h'.ring n idle in
      let none_before : h.ring ≡ [] =
        nobody-nil h.ring (λ x. ground (arith, grown x, ap (elem x) none_left)) in
      inr (rw (none_left, none_before) (unfold find in refl))
  | inr (x, next) ↦ elim (Bool-cases (elem x (nodes_from hash t h.virtual_nodes 0))) [
    | inl new ↦ inl (rw (next, mapped x, new) refl)
    | inr old ↦
        let there : elem x h.ring ≡ true =
          ground (arith, grown x, successor-elem n x h'.ring rise' next) in
        let before =
          successor_grown n x h.ring h'.ring rise rise'
            (λ y listed. ground (arith, grown y, listed)) there next in
        inr (rw (next, before, mapped x, old) refl)
  ]
]

-- On a ring where no hash stands twice, before and after, adding a shard moves keys to the new shard
-- only: each key is the new shard's or has the shard that it had.
pub add_shard-moves :
    (hash : String → ℕ) (h : HashRing) (t key : String)
    → Rising 0 h.ring
    → NoRepeat (h.ring ++ nodes_from hash t h.virtual_nodes 0)
    → (get_shard_for_key hash (add_shard hash h t).1 key ≡ t)
      ⊎ (get_shard_for_key hash (add_shard hash h t).1 key ≡ get_shard_for_key hash h key)
unfolding add_shard
add_shard-moves hash h t key rise fresh = elim (Bool-cases (contains h t)) [
  | inl old ↦ inr (rw (add_shard, old) refl)
  | inr new ↦
      let nodes = nodes_from hash t h.virtual_nodes 0 in
      let h' : HashRing = (add_shard hash h t).1 in
      let placed = place_lem hash t h.virtual_nodes 0 h.ring h.node_map in
      rw (get_shard_for_key_lem hash h key, get_shard_for_key_lem hash h' key)
        (owner-grown hash h h' t (hash key) rise (add_shard-Rising hash h t rise fresh)
          (λ x.
            rw
              (
                add_shard,
                new,
                placed,
                elem-sort_hashes x (h.ring ++ nodes),
                elem-append x h.ring nodes,
              )
              refl)
          (λ x. rw (add_shard, new) (get-place hash t h.virtual_nodes 0 h.ring h.node_map x)))
]
