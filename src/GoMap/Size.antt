-- ===== src/GoMap/Size.antt =====
-- `len` of a map against its keys.
use let_mil_go.Common.{
  ◌≤◌, ◌<◌, ◌≡◌, refl, none, some, List, [], ◌∷◌, arith, length, Comparable, ==_iff, ==-refl,
}
use let_mil_go.GoMap.{Map, empty, get, len, delete, lookup, without}

module _ {ℓ κ} {K : Type ℓ} {V : Type κ} ⦃e : Comparable K⦄ where
  length-pos : (k : K) (l : List (K × V)) (v : V) → lookup k l ≡ some v → 0 < length l
  unfolding lookup
  length-pos k [] v h = ground arith
  length-pos k (_ ∷ l) v h = omega arith

  -- A map with a key is not empty.
  pub len-pos : (m : Map K V) (k : K) (v : V) → get m k ≡ some v → 0 < len m
  unfolding get len
  len-pos m k v h = length-pos k m.entries v h

  lookup-empty : (k : K) (l : List (K × V)) → length l ≡ 0 → lookup k l ≡ none
  unfolding lookup
  lookup-empty k [] h = ground arith
  lookup-empty k (_ ∷ l) h = absurd (omega arith)

  -- A map of length 0 has no key.
  pub get_of_len-zero : (m : Map K V) (k : K) → len m ≡ 0 → get m k ≡ none
  unfolding get len
  get_of_len-zero m k h = lookup-empty k m.entries h

  lookup_sole :
      (k j : K) (l : List (K × V)) (v w : V)
      → length l ≡ 1
      → lookup k l ≡ some v
      → lookup j l ≡ some w
      → k ≡ j
  unfolding lookup
  lookup_sole k j [] v w h p q = absurd (omega arith)
  lookup_sole k j ((i, u) ∷ []) v w h p q = ground (arith, ==_iff i k, ==_iff i j)
  lookup_sole k j (_ ∷ _ ∷ l) v w h p q = absurd (omega arith)

  -- A map of length 1 has one key.
  pub get_sole :
      (m : Map K V) (k j : K) (v w : V) → len m ≡ 1 → get m k ≡ some v → get m j ≡ some w → k ≡ j
  unfolding get len
  get_sole m k j v w = lookup_sole k j m.entries v w

  length-without-le : (k : K) (l : List (K × V)) → length (without k l) ≤ length l
  unfolding without
  length-without-le k [] = omega arith
  length-without-le k ((j, v) ∷ l) = ground (arith, length-without-le k l)

  -- `delete` never makes a map longer.
  pub len-delete-le : (m : Map K V) (k : K) → len (delete m k) ≤ len m
  unfolding len delete
  len-delete-le m k = length-without-le k m.entries

  lookup-zero : (l : List (K × V)) → ((k : K) → lookup k l ≡ none) → length l ≡ 0
  unfolding lookup
  lookup-zero [] h = refl
  lookup-zero ((j, v) ∷ l) h = absurd (ground (arith, h j, ==-refl j))

  -- A map without keys has length 0.
  pub len-zero_of_get : (m : Map K V) → ((k : K) → get m k ≡ none) → len m ≡ 0
  unfolding get len
  len-zero_of_get m h = lookup-zero m.entries h

pub len-empty {ℓ κ} : (K : Type ℓ) (V : Type κ) → len (empty {K = K} {V = V}) ≡ 0
unfolding len empty
len-empty K V = refl
