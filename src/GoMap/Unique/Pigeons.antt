-- ===== src/GoMap/Unique/Pigeons.antt =====
-- A list that has all the keys of a map is as long as the map.
use let_mil_go.Common.{
  suc, ◌≤◌, ◌≡◌, refl, inl, inr, true, false, List, [], ◌∷◌, arith, length, Comparable, ◌==◌,
  ==_iff, ==-refl, if◌then◌else◌, Bool-cases,
}
use let_mil_go.GoMap.{Map, is_some, get, len, lookup}
use let_mil_go.GoMap.Unique.{elem, IsUnique, Distinct}

module _ {ℓ} {K : Type ℓ} ⦃e : Comparable K⦄ where
  -- a list without the first of a key
  strike : K → List K → List K
  strike k [] = []
  strike k (j ∷ l) = if j == k then l else j ∷ strike k l

  length-strike : (k : K) (l : List K) → elem k l ≡ true → suc (length (strike k l)) ≡ length l
  unfolding strike
  length-strike k [] h = absurd (cc h)
  length-strike k (j ∷ l) h = ground (arith, length-strike k l)

  elem-strike : (k j : K) (l : List K) → (k == j) ≡ false → elem j (strike k l) ≡ elem j l
  unfolding strike
  elem-strike k j [] ne = refl
  elem-strike k j (i ∷ l) ne =
      ground (arith, elem-strike k j l ne, ==_iff i k, ==_iff i j, ==_iff k j)

  -- no key twice
  abbrev pub NoRepeats : List K → Type 0
  NoRepeats [] = Unit
  NoRepeats (x ∷ l) = (elem x l ≡ false) × NoRepeats l

  -- A list without repeats is no longer than one that has all of it.
  pub length-le_of_elem :
      (l ks : List K)
      → NoRepeats l
      → ((k : K) → elem k l ≡ true → elem k ks ≡ true)
      → length l ≤ length ks
  length-le_of_elem [] ks d h = omega arith
  length-le_of_elem (j ∷ l) ks (fresh, d) h = omega (
    arith,
    length-strike j ks (h j (ground (arith, ==-refl j))),
    length-le_of_elem l (strike j ks) d (λ k found. elim (Bool-cases (j == k)) [
      | inl same ↦ ground (arith, ==_iff j k, fresh, found)
      | inr other ↦ ground (arith, h k, elem-strike j k ks other, found)
    ]),
  )

module _ {ℓ κ} {K : Type ℓ} {V : Type κ} ⦃e : Comparable K⦄ where
  length-le :
      (l : List (K × V)) (ks : List K)
      → Distinct l
      → ((k : K) → is_some (lookup k l) ≡ true → elem k ks ≡ true)
      → length l ≤ length ks
  unfolding lookup
  length-le [] ks d h = omega arith
  length-le ((j, v) ∷ l) ks (fresh, d) h = omega (
    arith,
    length-strike j ks (h j (ground (arith, ==-refl j))),
    length-le l (strike j ks) d (λ k found. elim (Bool-cases (j == k)) [
      | inl same ↦ ground (arith, ==_iff j k, fresh, found)
      | inr other ↦ ground (arith, h k, elem-strike j k ks other, found)
    ]),
  )

  -- A list that has every key of a map is no shorter than the map.
  pub len-le :
      (m : Map K V) (ks : List K)
      → IsUnique m
      → ((k : K) → is_some (get m k) ≡ true → elem k ks ≡ true)
      → len m ≤ length ks
  unfolding len get
  len-le m ks u = length-le m.entries ks u.distinct
