-- ===== src/Csrs/Ring/Successor.antt =====
-- The shard that hash_ring.go finds for a key, by the hash that follows the key's hash on the ring.
use let_mil_go.Common.{
  ℕ, ◌≤◌, ◌<◌, ◌≡◌, refl, sym, ap, inl, inr, String, true, Option, none, some, List, [], ◌∷◌, arith,
  length, get_elem?, get_elem?-some, ltb, leb, ◌==◌, nat_eq, string_eq, if◌then◌else◌, Bool-cases,
  Option-cases,
}
use let_mil_go.GoMap
use let_mil_go.Csrs.Ring.{HashRing, first_not_below, search, or_empty, get_shard_for_key}

-- the first hash that is not below a number
unfoldable pub find : List ℕ → ℕ → Option ℕ
find [] n = none
find (x ∷ xs) n = let later = find xs n in if ltb x n then later else some x

abbrev pub head : List ℕ → Option ℕ
head [] = none
head (x ∷ _) = some x

abbrev pub or_else : Option ℕ → Option ℕ → Option ℕ
or_else none o = o
or_else (some x) o = some x

-- the hash at or after a number on the circle: past the last hash comes the first
abbrev pub successor : List ℕ → ℕ → Option ℕ
successor ring n = or_else (find ring n) (head ring)

abbrev pub owner : HashRing → Option ℕ → String
owner h none = ""
owner h (some node) = or_empty (GoMap.get h.node_map node)

find-below :
    (xs : List ℕ) (n : ℕ)
    → first_not_below xs n < length xs
    → get_elem? xs (first_not_below xs n) ≡ find xs n
unfolding first_not_below find
find-below [] n h = refl
find-below (x ∷ xs) n h = elim (Bool-cases (ltb x n)) [
  | inl below ↦ rw below (find-below xs n (ground arith))
  | inr there ↦ rw there refl
]

find-past : (xs : List ℕ) (n : ℕ) → length xs ≤ first_not_below xs n → find xs n ≡ none
unfolding first_not_below find
find-past [] n h = refl
find-past (x ∷ xs) n h = elim (Bool-cases (ltb x n)) [
  | inl below ↦ rw below (find-past xs n (ground arith))
  | inr there ↦ absurd (ground arith)
]

slot_lem : (h : HashRing) (n : ℕ) → get_elem? h.ring (search h n) ≡ successor h.ring n
unfolding search
slot_lem h n = elim (Bool-cases (leb (length h.ring) (first_not_below h.ring n))) [
  | inl past ↦ rw (past, find-past h.ring n (ground arith)) (go h.ring)
  | inr within ↦
      let low : first_not_below h.ring n < length h.ring = ground arith in
      let (x, there) = get_elem?-some h.ring (first_not_below h.ring n) low in
      rw within (ground (arith, find-below h.ring n low, there))
]
  where
    go : (xs : List ℕ) → get_elem? xs 0 ≡ head xs
    go [] = refl
    go (x ∷ xs) = refl

length-zero : (xs : List ℕ) → (length xs == 0) ≡ true → xs ≡ []
length-zero [] h = refl
length-zero (x ∷ xs) h = absurd (ground arith)

-- The shard of a key is the one whose virtual node follows the key's hash on the circle; on an empty
-- ring it is the empty text.
pub get_shard_for_key_lem :
    (hash : String → ℕ) (h : HashRing) (key : String)
    → get_shard_for_key hash h key ≡ owner h (successor h.ring (hash key))
unfolding get_shard_for_key
get_shard_for_key_lem hash h key = elim (Bool-cases (length h.ring == 0)) [
  | inl idle ↦
      rw (get_shard_for_key, idle)
        (unfold find in
          ap (λ xs. owner h (successor xs (hash key))) (sym (length-zero h.ring idle)))
  | inr busy ↦
      rw (get_shard_for_key, busy, slot_lem h (hash key))
        (elim (Option-cases (successor h.ring (hash key))) [
          | inl missing ↦ rw missing refl
          | inr (x, there) ↦ rw there refl
        ])
]
