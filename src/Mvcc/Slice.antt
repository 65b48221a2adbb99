-- ===== src/Mvcc/Slice.antt =====
-- The idiom by which store.go inserts into a slice: append a zero value, `copy` the tail up by one
-- place, and assign the slot.
use let_mil_go.Common.{
  ℕ, zero, suc, ◌≤◌, ◌≡◌, refl, ap, List, [], ◌∷◌, ◌++◌, arith, length, set, take, drop,
}

module _ {ℓ} {A : Type ℓ} where
  -- copy(dst, src): as many entries as the shorter one has
  copy : List A → List A → List A
  copy [] src = []
  copy (d ∷ dst) [] = d ∷ dst
  copy (d ∷ dst) (s ∷ src) = s ∷ copy dst src

  -- versions = append(versions, zero); copy(versions[i+1:], versions[i:]); versions[i] = a
  unfoldable pub insert_at : A → ℕ → A → List A → List A
  unfolding copy
  insert_at zero_value i a xs =
      let grown = xs ++ zero_value ∷ [] in
      set (take (suc i) grown ++ copy (drop (suc i) grown) (drop i grown)) i a

  copy_shift : (z x : A) (xs rest : List A) → copy (xs ++ z ∷ []) (x ∷ xs ++ rest) ≡ x ∷ xs
  unfolding copy
  copy_shift z x [] rest = refl
  copy_shift z x (y ∷ xs) rest = ap (◌∷◌ x) (copy_shift z y xs rest)

  -- It is an insertion: what stood before the place stays, and the rest moves up by one.
  pub insert_at_lem :
      (z : A) (i : ℕ) (a : A) (xs : List A)
      → i ≤ length xs
      → insert_at z i a xs ≡ take i xs ++ a ∷ drop i xs
  unfolding insert_at
  insert_at_lem z zero a [] h = refl
  insert_at_lem z zero a (x ∷ xs) h = ap (◌∷◌ a) (copy_shift z x xs (z ∷ []))
  insert_at_lem z (suc i) a [] h = absurd (omega arith)
  insert_at_lem z (suc i) a (x ∷ xs) h = ap (◌∷◌ x) (insert_at_lem z i a xs (omega arith))
