-- ===== src/Mvcc/Search.antt =====
-- `findVersionIndex` of store.go: the binary search in the ascending slice of a key's versions.
use mathlib.Core.Logic.{dite, dif_pos, dif_neg}
use mathlib.Core.WellFounded.{Acc, WellFounded}
use native.Mathlib.Bridge.{le_prop}
use native.Mathlib.Decide.{dec_lt}
use let_mil_go.Common.{
  ℕ, zero, suc, ◌+◌, ◌-◌, ◌/◌, ◌≤◌, ◌<◌, ◌≡◌, String, Bool, List, [], ◌∷◌, arith, length, ltb,
  if◌then◌else◌,
}

pub record VersionedValue : Type 0 where
  pub value : String
  pub version : ℕ
  pub deleted : Bool
  pub tx_id : String

-- The loop variables `left` and `right`.
record Range : Type 0 where
  left : ℕ
  right : ℕ

infix 50 ◌⊏◌
abbrev ◌⊏◌ : Range → Range → Type 0
r ⊏ s = r.right - r.left < s.right - s.left

Acc-below : (k : ℕ) (r : Range) → r.right - r.left < k → Acc ◌⊏◌ r
Acc-below zero r h = absurd (omega arith)
Acc-below (suc k) r h = Acc.intro r (λ s inside. Acc-below k s (omega arith))

⊏_wf : WellFounded ◌⊏◌
unfolding Acc-below
⊏_wf = record { apply = λ r. Acc-below (suc (r.right - r.left)) r (omega arith) }

abbrev middle : Range → ℕ
middle r = (r.left + r.right) / 2

abbrev upper : Range → Range
upper r = record r { left = middle r + 1 }

abbrev lower : Range → Range
lower r = record r { right = middle r }

upper-⊏ : (r : Range) → r.left < r.right → upper r ⊏ r
upper-⊏ r h = omega arith

lower-⊏ : (r : Range) → r.left < r.right → lower r ⊏ r
lower-⊏ r h = omega arith

-- versions[i].Version; the default is never read, by `search-eq-rank`, which keeps `right` within
-- the slice
version_at : List VersionedValue → ℕ → ℕ
version_at [] i = 0
version_at (x ∷ xs) zero = x.version
version_at (x ∷ xs) (suc i) = version_at xs i

search : List VersionedValue → ℕ → (r : Range) → Acc ◌⊏◌ r → ℕ
search versions version r (Acc.intro _ inner) =
    dite (dec_lt r.left r.right)
      (λ h.
        dite (dec_lt (version_at versions (middle r)) version)
          (λ _. search versions version (upper r) (inner _ (upper-⊏ r h)))
          (λ _. search versions version (lower r) (inner _ (lower-⊏ r h))))
      (λ _. r.left)

unfoldable pub find_version_index : List VersionedValue → ℕ → ℕ
unfolding search ⊏_wf dec_lt version_at upper-⊏ lower-⊏
find_version_index versions version =
    search versions version (record { left = 0; right = length versions }) (⊏_wf.apply _)

-- ascending without repetition, from `low` on
abbrev pub Ascending : ℕ → List VersionedValue → Type 0
Ascending low [] = Unit {0}
Ascending low (x ∷ xs) = (low ≤ x.version) × Ascending (suc x.version) xs

-- how many versions at the front lie below `version`
unfoldable pub rank : ℕ → List VersionedValue → ℕ
rank version [] = 0
rank version (x ∷ xs) = if ltb x.version version then suc (rank version xs) else 0

pub rank-le-length : (version : ℕ) (xs : List VersionedValue) → rank version xs ≤ length xs
unfolding rank
rank-le-length version [] = omega arith
rank-le-length version (x ∷ xs) = ground (arith, rank-le-length version xs)

pub Ascending-mono : (m n : ℕ) (xs : List VersionedValue) → m ≤ n → Ascending n xs → Ascending m xs
Ascending-mono m n [] h a = tt
Ascending-mono m n (x ∷ xs) h a = (omega arith, a.1)

version_at-le :
    (low : ℕ) (xs : List VersionedValue) (i : ℕ)
    → Ascending low xs
    → i < length xs
    → low ≤ version_at xs i
unfolding version_at
version_at-le low [] i a h = absurd (omega arith)
version_at-le low (x ∷ xs) zero a h = a.0
version_at-le low (x ∷ xs) (suc i) a h =
    omega (arith, version_at-le (suc x.version) xs i a.1 (omega arith))

rank_above :
    (low version : ℕ) (xs : List VersionedValue) (i : ℕ)
    → Ascending low xs
    → i < length xs
    → version_at xs i < version
    → i < rank version xs
unfolding version_at rank
rank_above low version [] i a h below = absurd (omega arith)
rank_above low version (x ∷ xs) zero a h below = ground arith
rank_above low version (x ∷ xs) (suc i) a h below =
    ground
      (arith, rank_above (suc x.version) version xs i a.1, version_at-le (suc x.version) xs i a.1)

rank_below :
    (version : ℕ) (xs : List VersionedValue) (i : ℕ)
    → i < length xs
    → version ≤ version_at xs i
    → rank version xs ≤ i
unfolding version_at rank
rank_below version [] i h above = absurd (omega arith)
rank_below version (x ∷ xs) zero h above = ground arith
rank_below version (x ∷ xs) (suc i) h above = ground (arith, rank_below version xs i)

module _ (versions : List VersionedValue) (version : ℕ) (sorted : Ascending 0 versions) where
  search-eq-rank :
      (r : Range) (w : Acc ◌⊏◌ r)
      → r.right ≤ length versions
      → r.left ≤ rank version versions
      → rank version versions ≤ r.right
      → search versions version r w ≡ rank version versions
  unfolding search
  search-eq-rank r (Acc.intro _ inner) fits above below = elim (dec_lt r.left r.right) [
    | no done ↦ rw (dif_neg (dec_lt r.left r.right) done) (omega arith)
    | yes more ↦ rw (dif_pos (dec_lt r.left r.right) le_prop more) (
        ground (
          arith,
          rank_above 0 version versions (middle r) sorted,
          rank_below version versions (middle r),
          search-eq-rank (upper r) (inner _ (upper-⊏ r more)) fits,
          search-eq-rank (lower r) (inner _ (lower-⊏ r more)),
        ))
  ]

  -- On an ascending slice the binary search ends at the number of versions below the one it looks
  -- for: the index at which that version stands or has to be inserted.
  pub find_version_index-eq-rank : find_version_index versions version ≡ rank version versions
  unfolding find_version_index
  find_version_index-eq-rank =
      search-eq-rank (record { left = 0; right = length versions }) (⊏_wf.apply _) (omega arith)
        (omega arith) (rank-le-length version versions)
