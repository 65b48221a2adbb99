-- ===== src/GoMap/Unique.antt =====
-- The keys of a map, and what a `range` over it meets.
pub mod Pigeons
use let_mil_go.Common.{
  ◌≡◌, refl, subst, inl, inr, Bool, false, ◌||◌, none, some, List, [], ◌∷◌, ◌++◌, arith, Comparable,
  ◌==◌, ==_iff, ==-refl, Bool-cases, All,
}
use let_mil_go.GoMap.{
  Map, is_some, get, put, delete, keys, values, empty, lookup-assign, lookup-without, firsts,
  seconds, lookup, assign, without,
}

module _ {ℓ} {K : Type ℓ} ⦃e : Comparable K⦄ where
  -- whether a key stands in a list
  abbrev pub elem : K → List K → Bool
  elem k [] = false
  elem k (j ∷ l) = j == k || elem k l

  pub elem-append : (k : K) (xs ys : List K) → elem k (xs ++ ys) ≡ (elem k xs || elem k ys)
  elem-append k [] ys = refl
  elem-append k (x ∷ xs) ys = ground (arith, elem-append k xs ys)

  pub elem-append_one : (k x : K) (l : List K) → elem k (l ++ x ∷ []) ≡ (elem k l || x == k)
  elem-append_one k x l = ground (arith, elem-append k l (x ∷ []))

module _ {ℓ κ} {K : Type ℓ} {V : Type κ} ⦃e : Comparable K⦄ where
  abbrev Distinct : List (K × V) → Type κ
  Distinct [] = Unit
  Distinct ((j, v) ∷ l) = (lookup j l ≡ none) × Distinct l

  pub record IsUnique (m : Map K V) : Type κ where
    distinct : Distinct m.entries

  lookup-firsts : (k : K) (l : List (K × V)) → (elem k (firsts l) ≡ false) → lookup k l ≡ none
  unfolding lookup firsts
  lookup-firsts k [] h = refl
  lookup-firsts k ((j, v) ∷ l) h = ground (arith, lookup-firsts k l)

  firsts-lookup : (k : K) (l : List (K × V)) → lookup k l ≡ none → elem k (firsts l) ≡ false
  unfolding lookup firsts
  firsts-lookup k [] h = refl
  firsts-lookup k ((j, v) ∷ l) h = ground (arith, firsts-lookup k l)

  -- A key that `range` does not meet is not in the map.
  pub get_of_not-elem : (m : Map K V) (k : K) → elem k (keys m) ≡ false → get m k ≡ none
  unfolding get keys
  get_of_not-elem m k = lookup-firsts k m.entries

  -- A key that is not in the map is not met by `range`.
  pub not-elem_of_get : (m : Map K V) (k : K) → get m k ≡ none → elem k (keys m) ≡ false
  unfolding get keys
  not-elem_of_get m k = firsts-lookup k m.entries

  -- A `range` meets exactly the keys of the map.
  pub elem-keys : (m : Map K V) (k : K) → elem k (keys m) ≡ is_some (get m k)
  elem-keys m k = elim (Bool-cases (elem k (keys m))) [
    | inl met ↦ rw met (ground (arith, not-elem_of_get m k))
    | inr unmet ↦ rw unmet (rw (get_of_not-elem m k unmet))
  ]

  assign-Distinct : (k : K) (v : V) (l : List (K × V)) → Distinct l → Distinct (assign k v l)
  unfolding assign lookup
  assign-Distinct k v [] d = (refl, tt)
  assign-Distinct k v ((j, w) ∷ l) d = elim (Bool-cases (j == k)) [
    | inl hit ↦ rw hit (rw (← (==_iff j k).0 hit) d.0, d.1)
    | inr miss ↦
        rw miss
          (ground (arith, lookup-assign k j v l, ==_iff j k, ==_iff k j), assign-Distinct k v l d.1)
  ]

  without-Distinct : (k : K) (l : List (K × V)) → Distinct l → Distinct (without k l)
  unfolding without lookup
  without-Distinct k [] d = tt
  without-Distinct k ((j, w) ∷ l) d = elim (Bool-cases (j == k)) [
    | inl hit ↦ rw hit (without-Distinct k l d.1)
    | inr miss ↦ rw miss (ground (arith, lookup-without k j l), without-Distinct k l d.1)
  ]

  pub empty-IsUnique : IsUnique empty
  unfolding empty
  empty-IsUnique = record { distinct = tt }

  pub delete-IsUnique : (m : Map K V) (k : K) → IsUnique m → IsUnique (delete m k)
  unfolding delete
  delete-IsUnique m k u = record { distinct = without-Distinct k m.entries u.distinct }

  pub put-IsUnique : (m : Map K V) (k : K) (v : V) → IsUnique m → IsUnique (put m k v)
  unfolding put
  put-IsUnique m k v u = record { distinct = assign-Distinct k v m.entries u.distinct }

module _ {ℓ κ μ} {K : Type ℓ} {V : Type κ} ⦃e : Comparable K⦄ (P : V → Type μ) where
  all_seconds : (l : List (K × V)) → All P (seconds l) → (k : K) (v : V) → lookup k l ≡ some v → P v
  unfolding seconds lookup
  all_seconds [] a k v h = absurd (ground arith)
  all_seconds ((j, w) ∷ l) a k v h = elim (Bool-cases (j == k)) [
    | inl hit ↦ subst P (ground arith) a.0
    | inr miss ↦ all_seconds l a.1 k v (ground arith)
  ]

  -- What holds of all that a `range` meets holds of the value of each key.
  pub all_values : (m : Map K V) → All P (values m) → (k : K) (v : V) → get m k ≡ some v → P v
  unfolding values get
  all_values m = all_seconds m.entries

  seconds-All :
      (l : List (K × V))
      → Distinct l
      → ((k : K) (v : V) → lookup k l ≡ some v → P v)
      → All P (seconds l)
  unfolding seconds lookup
  seconds-All [] d h = tt
  seconds-All ((j, w) ∷ l) d h = (
    h j w (ground (arith, ==-refl j)),
    seconds-All l d.1 (λ k v found. h k v (ground (arith, ==_iff j k, found))),
  )

  -- And what holds of the value of each key holds of all that a `range` meets.
  pub values-All :
      (m : Map K V) → IsUnique m → ((k : K) (v : V) → get m k ≡ some v → P v) → All P (values m)
  unfolding values get
  values-All m u = seconds-All m.entries u.distinct

module _ {ℓ κ} {K : Type ℓ} {V : Type κ} ⦃e : Comparable K⦄ where
  -- the entry is what `lookup` finds
  abbrev IsEntry : List (K × V) → K × V → Type κ
  IsEntry l (k, v) = lookup k l ≡ some v

  widen :
      (j : K) (w : V) (l xs : List (K × V))
      → All (IsEntry l) xs
      → lookup j xs ≡ none
      → All (IsEntry ((j, w) ∷ l)) xs
  unfolding lookup
  widen j w l [] a h = tt
  widen j w l ((k, v) ∷ xs) (e, a) h =
      (ground (arith, ==_iff j k, ==_iff k j, e, h), widen j w l xs a (ground (arith, h)))

  All-entries : (l : List (K × V)) → Distinct l → All (IsEntry l) l
  unfolding lookup
  All-entries [] d = tt
  All-entries ((j, w) ∷ l) d = (ground (arith, ==-refl j), widen j w l l (All-entries l d.1) d.0)

  -- Every entry that a `range` meets is what the map has for its key.
  pub entries-get :
      (m : Map K V) → IsUnique m → All (λ (entry : K × V). get m entry.0 ≡ some entry.1) m.entries
  unfolding get
  entries-get m u = All-entries m.entries u.distinct
