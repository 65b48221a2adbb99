-- ===== src/GoMap.antt =====
-- Go's built-in map, `map[K]V`. The entries stand in the order in which their keys came in: one of
-- the orders that a `range` over the map may take. A nil map reads as the empty one.
pub mod Size
pub mod Unique
use mathlib.Core.Option
use let_mil_go.Common.{
  ℕ, zero, suc, ◌+◌, ◌≤◌, ◌<◌, ◌≡◌, ◌≢◌, refl, ap, ◌⊎◌, inl, inr, Bool, true, false, Option, none,
  some, List, [], ◌∷◌, map, arith, length, if◌then◌else◌, Comparable, ◌==◌, ==_iff, Bool-cases,
}

pub record Map {ℓ κ} (K : Type ℓ) (V : Type κ) : Type (ℓ ⊔ κ) where
  pub entries : List (K × V)

-- _, ok := m[k]
abbrev pub is_some {ℓ} : {A : Type ℓ} → Option A → Bool
is_some none = false
is_some (some _) = true

unfoldable pub empty {ℓ κ} : {K : Type ℓ} {V : Type κ} → Map K V
empty = record { entries = [] }

module _ {ℓ κ} {K : Type ℓ} {V : Type κ} where
  -- the keys, in the order of `range`
  firsts : List (K × V) → List K
  firsts [] = []
  firsts ((j, _) ∷ l) = j ∷ firsts l

  unfoldable pub keys : Map K V → List K
  unfolding firsts
  keys m = firsts m.entries

  seconds : List (K × V) → List V
  seconds [] = []
  seconds ((_, v) ∷ l) = v ∷ seconds l

  -- the values, in the order of `range`
  unfoldable pub values : Map K V → List V
  unfolding seconds
  values m = seconds m.entries

  -- len(m)
  unfoldable pub len : Map K V → ℕ
  len m = length m.entries

  pub each_value : (V → V) → List (K × V) → List (K × V)
  each_value f [] = []
  each_value f ((j, v) ∷ l) = (j, f v) ∷ each_value f l

  -- a `range` that assigns to the key it stands at
  unfoldable pub map_values : (V → V) → Map K V → Map K V
  unfolding each_value
  map_values f m = record { entries = each_value f m.entries }

  seconds-each_value : (f : V → V) (l : List (K × V)) → seconds (each_value f l) ≡ map f (seconds l)
  unfolding seconds each_value
  seconds-each_value f [] = refl
  seconds-each_value f ((j, v) ∷ l) = ap (◌∷◌ (f v)) (seconds-each_value f l)

  pub values-map_values : (f : V → V) (m : Map K V) → values (map_values f m) ≡ map f (values m)
  unfolding values map_values
  values-map_values f m = seconds-each_value f m.entries

module _ {ℓ κ} {K : Type ℓ} {V : Type κ} ⦃e : Comparable K⦄ where
  lookup : K → List (K × V) → Option V
  lookup k [] = none
  lookup k ((j, v) ∷ l) = if j == k then some v else lookup k l

  assign : K → V → List (K × V) → List (K × V)
  assign k v [] = (k, v) ∷ []
  assign k v ((j, w) ∷ l) = if j == k then (k, v) ∷ l else (j, w) ∷ assign k v l

  without : K → List (K × V) → List (K × V)
  without gone [] = []
  without gone ((i, w) ∷ l) = let tail = without gone l in if i == gone then tail else (i, w) ∷ tail

  -- v, ok := m[k]
  unfoldable pub get : Map K V → K → Option V
  unfolding lookup
  get m k = lookup k m.entries

  -- m[k] = v
  unfoldable pub put : Map K V → K → V → Map K V
  unfolding assign
  put m k v = record { entries = assign k v m.entries }

  -- delete(m, k)
  unfoldable pub delete : Map K V → K → Map K V
  unfolding without
  delete m k = record { entries = without k m.entries }

  without-without : (k : K) (l : List (K × V)) → without k (without k l) ≡ without k l
  unfolding without
  without-without k [] = refl
  without-without k ((j, v) ∷ l) = elim (Bool-cases (j == k)) [
    | inl hit ↦ rw hit (without-without k l)
    | inr miss ↦ rw (miss, without) (rw miss (ap (◌∷◌ (j, v)) (without-without k l)))
  ]

  -- A second `delete` of a key changes nothing.
  pub delete-delete : (m : Map K V) (k : K) → delete (delete m k) k ≡ delete m k
  unfolding delete
  delete-delete m k = rw (without-without k m.entries)

  pub delete-empty : (k : K) → delete (empty {V = V}) k ≡ empty
  unfolding delete empty
  delete-empty k = refl

  lookup-assign :
      (k j : K) (v : V) (l : List (K × V))
      → lookup j (assign k v l) ≡ (if k == j then some v else lookup j l)
  unfolding lookup assign
  lookup-assign k j v [] = refl
  lookup-assign k j v ((i, w) ∷ l) =
      ground (arith, ==_iff k j, ==_iff i k, ==_iff i j, lookup-assign k j v l)

  lookup-without :
      (gone k : K) (l : List (K × V))
      → lookup k (without gone l) ≡ (if gone == k then none else lookup k l)
  unfolding lookup without
  lookup-without gone k [] = ground arith
  lookup-without gone k ((i, w) ∷ l) =
      ground (arith, ==_iff gone k, ==_iff i gone, ==_iff i k, lookup-without gone k l)

  pub get-put :
      (m : Map K V) (k j : K) (v : V) → get (put m k v) j ≡ (if k == j then some v else get m j)
  unfolding get put
  get-put m k j v = lookup-assign k j v m.entries

  pub get-delete : (m : Map K V) (k j : K) → get (delete m k) j ≡ (if k == j then none else get m j)
  unfolding get delete
  get-delete m k j = lookup-without k j m.entries

  lookup-each_value :
      (f : V → V) (k : K) (l : List (K × V)) → lookup k (each_value f l) ≡ Option.map f (lookup k l)
  unfolding lookup each_value
  lookup-each_value f k [] = refl
  lookup-each_value f k ((j, v) ∷ l) = ground (arith, lookup-each_value f k l)

  pub get-map_values :
      (f : V → V) (m : Map K V) (k : K) → get (map_values f m) k ≡ Option.map f (get m k)
  unfolding get map_values
  get-map_values f m k = lookup-each_value f k m.entries

pub get-empty {ℓ κ} :
    {K : Type ℓ} {V : Type κ} ⦃e : Comparable K⦄ (k : K) → get (empty {V = V}) k ≡ none
unfolding get empty lookup
get-empty k = refl

pub ruleset map_laws = (get-empty, get-put, get-delete, get-map_values)
