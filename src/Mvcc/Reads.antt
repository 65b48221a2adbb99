-- ===== src/Mvcc/Reads.antt =====
-- What `Get` of store.go returns, and how a write changes it.
use let_mil_go.Common.{
  ℕ, zero, suc, ◌+◌, ◌%◌, ◌≤◌, ◌<◌, ◌≡◌, refl, inl, inr, false, Option, none, some, String, List,
  [], ◌∷◌, arith, length, get_elem?, get_elem?-some, ltb, leb, ◌==◌, ==_iff, nat_eq, string_eq,
  if◌then◌else◌, Bool-cases, Option-cases,
}
use let_mil_go.Errors.{Result, err, key_not_found, version_not_found}
use let_mil_go.Mvcc.Search.{
  VersionedValue, Ascending, rank, rank-le-length, find_version_index, find_version_index-eq-rank,
}
use let_mil_go.Mvcc.{MvccStore, Found, versions_of, visible, before, add_version, get, u64_mod}
use let_mil_go.Mvcc.Insert.{IsSorted, insert_in, has_version, versions_of-add_version}

abbrev or_else : Option VersionedValue → VersionedValue → VersionedValue
or_else none x = x
or_else (some y) x = y

-- The last of the versions that a reader at time `at` may see.
unfoldable pub newest : ℕ → List VersionedValue → Option VersionedValue
newest at [] = none
newest at (x ∷ xs) = if leb x.version at then some (or_else (newest at xs) x) else none

-- versions[i - 1]
abbrev slot_before : List VersionedValue → ℕ → Option VersionedValue
slot_before xs zero = none
slot_before xs (suc i) = get_elem? xs i

slot_cons :
    (x : VersionedValue) (xs : List VersionedValue) (r : ℕ)
    → r ≤ length xs
    → get_elem? (x ∷ xs) r ≡ some (or_else (slot_before xs r) x)
slot_cons x xs zero h = refl
slot_cons x xs (suc i) h = let (y, e) = get_elem?-some xs i h in rw e

newest-eq-slot :
    (at : ℕ) (xs : List VersionedValue) → newest at xs ≡ slot_before xs (rank (suc at) xs)
unfolding newest rank
newest-eq-slot at [] = refl
newest-eq-slot at (x ∷ xs) = elim (Bool-cases (leb x.version at)) [
  | inl seen ↦
      ground (
        arith,
        newest-eq-slot at xs,
        slot_cons x xs (rank (suc at) xs) (rank-le-length (suc at) xs),
      )
  | inr above ↦ ground arith
]

-- What a read returns when it finds that version.
unfoldable pub read_of : List VersionedValue → Option VersionedValue → Result Found
read_of [] found = err key_not_found
read_of (_ ∷ _) none = err version_not_found
read_of (_ ∷ _) (some vv) = visible (some vv)

before_lem :
    (xs : List VersionedValue) (r : ℕ)
    → 0 < length xs
    → r ≤ length xs
    → before xs r ≡ read_of xs (slot_before xs r)
unfolding read_of
before_lem [] r n h = absurd (omega arith)
before_lem (x ∷ xs) zero n h = refl
before_lem (x ∷ xs) (suc i) n h = let (y, e) = get_elem?-some (x ∷ xs) i h in rw e

get_in :
    (xs : List VersionedValue) (at : ℕ)
    → Ascending 0 xs
    → suc at < u64_mod
    → (if length xs == 0
        then err key_not_found
        else before xs (find_version_index xs ((at + 1) % u64_mod)))
      ≡ read_of xs (newest at xs)
unfolding read_of
get_in [] at a small = refl
get_in (x ∷ xs) at a small =
    let e : (at + 1) % u64_mod ≡ suc at = omega arith in
    rw (e, find_version_index-eq-rank (x ∷ xs) (suc at) a, newest-eq-slot at (x ∷ xs))
      (ground (
        arith,
        before_lem (x ∷ xs) (rank (suc at) (x ∷ xs)) (omega arith)
            (rank-le-length (suc at) (x ∷ xs)),
      ))

-- In a sorted store, at a time that is not the greatest, `Get` finds the newest version that is not
-- above the time, as a walk over all versions of the key finds it, and reports the same errors.
pub get-eq-newest :
    (s : MvccStore) (key : String) (at : ℕ)
    → IsSorted s
    → suc at < u64_mod
    → get s key at ≡ read_of (versions_of s key) (newest at (versions_of s key))
unfolding get
get-eq-newest s key at sorted small = get_in (versions_of s key) at (sorted.at key) small

-- the newer of a version that was inserted and the one that was seen before
unfoldable pub later : VersionedValue → Option VersionedValue → VersionedValue
later vv none = vv
later vv (some y) = if ltb y.version vv.version then vv else y

newest-ge :
    (at low : ℕ) (xs : List VersionedValue) (y : VersionedValue)
    → Ascending low xs
    → newest at xs ≡ some y
    → low ≤ y.version
unfolding newest
newest-ge at low [] y a h = ground arith
newest-ge at low (x ∷ xs) y a h = ground (arith, newest-ge at (suc x.version) xs y a.1)

pub newest-insert_in :
    (at low : ℕ) (vv : VersionedValue) (xs : List VersionedValue)
    → Ascending low xs
    → has_version vv.version xs ≡ false
    → newest at (insert_in vv xs)
      ≡ (if leb vv.version at then some (later vv (newest at xs)) else newest at xs)
unfolding newest insert_in has_version later
newest-insert_in at low vv [] a fresh = ground arith
newest-insert_in at low vv (x ∷ xs) a fresh = elim (Bool-cases (ltb x.version vv.version)) [
  | inl below ↦ rw below (ground (arith, newest-insert_in at (suc x.version) vv xs a.1))
  | inr above ↦ elim (Option-cases (newest at xs)) [
    | inl unseen ↦ ground arith
    | inr (y, seen) ↦ ground (arith, newest-ge at (suc x.version) xs y a.1 seen)
  ]
]

-- Deleted or not, a reader at a time before the new version sees what it saw.
module _ (s : MvccStore) (key : String) (vv : VersionedValue) (sorted : IsSorted s) where
  pub newest-add_version :
      (j : String) (at : ℕ)
      → newest at (versions_of (add_version s key vv).1 j) ≡ (
          if has_version vv.version (versions_of s key)
          then newest at (versions_of s j)
          else if key == j
          then if leb vv.version at
            then some (later vv (newest at (versions_of s j)))
            else newest at (versions_of s j)
          else newest at (versions_of s j))
  newest-add_version j at =
      rw (versions_of-add_version s key j vv sorted)
        (ground (arith, ==_iff key j, newest-insert_in at 0 vv (versions_of s key) (sorted.at key)))
