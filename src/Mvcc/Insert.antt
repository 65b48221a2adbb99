-- ===== src/Mvcc/Insert.antt =====
-- What `Put` and `Delete` of store.go do to the slice of a key.
use let_mil_go.Common.{
  ℕ, suc, ◌≤◌, ◌<◌, ◌≡◌, refl, ap, inl, inr, Bool, false, ◌||◌, String, List, [], ◌∷◌, ◌++◌, arith,
  take, drop, ltb, ◌==◌, nat_eq, string_eq, if◌then◌else◌, Bool-cases,
}
use let_mil_go.Errors.{ok, err, version_conflict}
use let_mil_go.GoMap
use let_mil_go.GoMap.{get-put, get-empty}
use let_mil_go.Mvcc.Slice.{insert_at_lem}
use let_mil_go.Mvcc.Search.{
  VersionedValue, Ascending, rank, rank-le-length, find_version_index-eq-rank,
}
use let_mil_go.Mvcc.{MvccStore, new_store, versions_of, no_value, holds_version, add_version}

-- An ascending slice with one more version, in its place.
unfoldable pub insert_in : VersionedValue → List VersionedValue → List VersionedValue
insert_in vv [] = vv ∷ []
insert_in vv (x ∷ xs) = if ltb x.version vv.version then x ∷ insert_in vv xs else vv ∷ x ∷ xs

unfoldable pub has_version : ℕ → List VersionedValue → Bool
has_version version [] = false
has_version version (x ∷ xs) = x.version == version || has_version version xs

insert_in-rank :
    (vv : VersionedValue) (xs : List VersionedValue)
    → take (rank vv.version xs) xs ++ vv ∷ drop (rank vv.version xs) xs ≡ insert_in vv xs
unfolding insert_in rank
insert_in-rank vv [] = refl
insert_in-rank vv (x ∷ xs) = elim (Bool-cases (ltb x.version vv.version)) [
  | inl below ↦ rw below (ap (◌∷◌ x) (insert_in-rank vv xs))
  | inr above ↦ rw above
]

has_version_above :
    (low version : ℕ) (xs : List VersionedValue)
    → Ascending low xs
    → version < low
    → has_version version xs ≡ false
unfolding has_version
has_version_above low version [] a h = refl
has_version_above low version (x ∷ xs) a h =
    ground (arith, has_version_above (suc x.version) version xs a.1)

holds_version-rank :
    (low version : ℕ) (xs : List VersionedValue)
    → Ascending low xs
    → holds_version xs (rank version xs) version ≡ has_version version xs
unfolding has_version rank
holds_version-rank low version [] a = refl
holds_version-rank low version (x ∷ xs) a = elim (Bool-cases (ltb x.version version)) [
  | inl below ↦ rw below (ground (arith, holds_version-rank (suc x.version) version xs a.1))
  | inr above ↦ rw above (ground (arith, has_version_above (suc x.version) version xs a.1))
]

insert_in-Ascending :
    (low : ℕ) (vv : VersionedValue) (xs : List VersionedValue)
    → low ≤ vv.version
    → has_version vv.version xs ≡ false
    → Ascending low xs
    → Ascending low (insert_in vv xs)
unfolding insert_in has_version
insert_in-Ascending low vv [] h fresh a = (h, tt)
insert_in-Ascending low vv (x ∷ xs) h fresh a = elim (Bool-cases (ltb x.version vv.version)) [
  | inl below ↦
      rw below (a.0, insert_in-Ascending (suc x.version) vv xs (ground arith) (ground arith) a.1)
  | inr above ↦ rw above (h, (ground arith, a.1))
]

-- Every key's versions ascend.
pub record IsSorted (s : MvccStore) : Type 0 where
  pub at : (key : String) → Ascending 0 (versions_of s key)

-- In a sorted store, `Put` and `Delete` refuse exactly the versions that the key has, without
-- changing anything, and otherwise insert the new version in its place.
pub add_version_lem :
    (s : MvccStore) (key : String) (vv : VersionedValue)
    → IsSorted s
    → add_version s key vv ≡ (
        if has_version vv.version (versions_of s key) then (err version_conflict, s) else (
          ok tt,
          record { versions_map = GoMap.put s.versions_map key (insert_in vv (versions_of s key)) },
        ))
unfolding add_version
add_version_lem s key vv sorted = rw (
  find_version_index-eq-rank xs vv.version (sorted.at key),
  holds_version-rank 0 vv.version xs (sorted.at key),
  insert_at_lem no_value (rank vv.version xs) vv xs (rank-le-length vv.version xs),
  insert_in-rank vv xs,
)
  where
    xs : List VersionedValue
    xs = versions_of s key

-- The versions of every key after an insertion.
pub versions_of-add_version :
    (s : MvccStore) (key j : String) (vv : VersionedValue)
    → IsSorted s
    → versions_of (add_version s key vv).1 j ≡ (
        if has_version vv.version (versions_of s key)
        then versions_of s j
        else if key == j
        then insert_in vv (versions_of s key)
        else versions_of s j)
unfolding versions_of
versions_of-add_version s key j vv sorted =
    elim (Bool-cases (has_version vv.version (versions_of s key))) [
      | inl taken ↦ rw (add_version_lem s key vv sorted, taken)
      | inr fresh ↦ rw (add_version_lem s key vv sorted, fresh, get-put) (ground arith)
    ]

pub add_version-IsSorted :
    (s : MvccStore) (key : String) (vv : VersionedValue)
    → IsSorted s
    → IsSorted (add_version s key vv).1
add_version-IsSorted s key vv sorted = record {
  at = λ j.
      rw (versions_of-add_version s key j vv sorted)
        (grind (arith, sorted.at j, sorted.at key, insert_in-Ascending 0 vv (versions_of s key)));
}

pub new_store-IsSorted : IsSorted new_store
unfolding new_store versions_of
new_store-IsSorted = record { at = λ key. rw (get-empty {V = List VersionedValue} key) tt }
