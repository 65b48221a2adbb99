-- ===== src/Mvcc/Collect.antt =====
-- Garbage collection, `GC` of store.go.
use Prim.Native.Nat.{min}
use let_mil_go.Common.{
  ℕ, zero, suc, ◌+◌, ◌-◌, ◌≤◌, ◌<◌, ◌≡◌, ◌≢◌, refl, Option, none, some, String, List, [], ◌∷◌,
  arith, map, All, length, length-drop, drop, ltb, if◌then◌else◌, string_eq,
}
use mathlib.Core.Option
use let_mil_go.GoMap
use let_mil_go.GoMap.{get-map_values, values-map_values}
use let_mil_go.GoMap.Unique.{IsUnique, values-All}
use let_mil_go.Mvcc.Search.{
  VersionedValue, Ascending, Ascending-mono, rank, rank-le-length, find_version_index-eq-rank,
}
use let_mil_go.Mvcc.{
  MvccStore, versions_of, or_nil, get, collect, collected, total_collected, gc, u64_mod,
}
use let_mil_go.Mvcc.Insert.{IsSorted}
use let_mil_go.Mvcc.Reads.{newest}
use let_mil_go.Mvcc.Snapshot.{readable, readable-get}

-- What `GC` leaves of a slice, by the number of versions below the limit.
abbrev left_over : ℕ → List VersionedValue → List VersionedValue
left_over r xs = if ltb 1 r then drop (r - 1) xs else xs

collect_lem :
    (min_version : ℕ) (xs : List VersionedValue)
    → Ascending 0 xs
    → collect min_version xs ≡ left_over (rank min_version xs) xs
unfolding collect
collect_lem min_version xs a = rw (find_version_index-eq-rank xs min_version a)

Ascending-drop :
    (k low : ℕ) (xs : List VersionedValue) → Ascending low xs → Ascending low (drop k xs)
Ascending-drop zero low xs a = a
Ascending-drop (suc k) low [] a = tt
Ascending-drop (suc k) low (x ∷ xs) a =
    Ascending-drop k low xs (Ascending-mono low (suc x.version) xs (omega arith) a.1)

rank_mono : (m n : ℕ) (xs : List VersionedValue) → m ≤ n → rank m xs ≤ rank n xs
unfolding rank
rank_mono m n [] h = omega arith
rank_mono m n (x ∷ xs) h = ground (arith, rank_mono m n xs)

newest-some : (at : ℕ) (xs : List VersionedValue) → 0 < rank (suc at) xs → newest at xs ≢ none
unfolding newest rank
newest-some at [] h = absurd (omega arith)
newest-some at (x ∷ xs) h = ground arith

-- A reader that still sees a version sees what it saw before older ones went.
newest-drop :
    (k at : ℕ) (xs : List VersionedValue)
    → k < rank (suc at) xs
    → newest at (drop k xs) ≡ newest at xs
unfolding newest rank
newest-drop zero at xs h = refl
newest-drop (suc k) at [] h = refl
newest-drop (suc k) at (x ∷ xs) h = ground (arith, newest-drop k at xs, newest-some at xs)

newest-collect :
    (min_version at : ℕ) (xs : List VersionedValue)
    → Ascending 0 xs
    → min_version ≤ suc at
    → newest at (collect min_version xs) ≡ newest at xs
newest-collect min_version at xs a h =
    rw (collect_lem min_version xs a) (
      ground
        (arith, newest-drop (rank min_version xs - 1) at xs, rank_mono min_version (suc at) xs))

collect-Ascending :
    (min_version : ℕ) (xs : List VersionedValue)
    → Ascending 0 xs
    → Ascending 0 (collect min_version xs)
collect-Ascending min_version xs a =
    rw (collect_lem min_version xs a)
      (ground (arith, Ascending-drop (rank min_version xs - 1) 0 xs a))

collect-or_nil :
    (min_version : ℕ) (o : Option (List VersionedValue))
    → or_nil (Option.map (collect min_version) o) ≡ collect min_version (or_nil o)
unfolding rank
collect-or_nil min_version none = rw (collect_lem min_version [] tt)
collect-or_nil min_version (some xs) = refl

versions_of-gc :
    (s : MvccStore) (min_version : ℕ) (key : String)
    → versions_of (gc s min_version).1 key ≡ collect min_version (versions_of s key)
versions_of-gc s min_version key =
    unfold versions_of in rw gc_map (rw get-map_values (collect-or_nil min_version _))
  where
    gc_map :
        (gc s min_version).1.versions_map ≡ GoMap.map_values (collect min_version) s.versions_map
    gc_map = unfold gc in refl

-- Every key's versions still ascend after `GC`.
pub gc-IsSorted : (s : MvccStore) (min_version : ℕ) → IsSorted s → IsSorted (gc s min_version).1
gc-IsSorted s min_version sorted = record {
  at = λ key.
      rw (versions_of-gc s min_version key)
        (collect-Ascending min_version (versions_of s key) (sorted.at key));
}

-- In a sorted store `GC` changes no read at a time from `minVersion - 1` on, of any key: what such
-- a reader finds, or that it finds nothing, is the same before and after.
pub get-gc :
    (s : MvccStore) (min_version : ℕ) (key : String) (at : ℕ)
    → IsSorted s
    → suc at < u64_mod
    → min_version ≤ suc at
    → readable (get (gc s min_version).1 key at) ≡ readable (get s key at)
get-gc s min_version key at sorted small h = rw (
  readable-get s key at sorted small,
  readable-get (gc s min_version).1 key at (gc-IsSorted s min_version sorted) small,
  versions_of-gc s min_version key,
  newest-collect min_version at (versions_of s key) (sorted.at key) h,
)

-- the number of versions in all slices
pub total_length : List (List VersionedValue) → ℕ
total_length [] = 0
total_length (xs ∷ rest) = length xs + total_length rest

collected_lem :
    (min_version : ℕ) (xs : List VersionedValue)
    → Ascending 0 xs
    → collected min_version xs + length (collect min_version xs) ≡ length xs
unfolding collected
collected_lem min_version xs a =
    rw (collect_lem min_version xs a, find_version_index-eq-rank xs min_version a)
      (ground (arith, length-drop (rank min_version xs - 1) xs, rank-le-length min_version xs))

total_collected_lem :
    (min_version : ℕ) (l : List (List VersionedValue))
    → All (Ascending 0) l
    → total_collected min_version l + total_length (map (collect min_version) l) ≡ total_length l
unfolding total_collected total_length
total_collected_lem min_version [] a = refl
total_collected_lem min_version (xs ∷ rest) a =
    omega (arith, collected_lem min_version xs a.0, total_collected_lem min_version rest a.1)

-- In a sorted store, of a map with no key twice, the count that `GC` returns is the number of
-- versions that went: with those that are left it makes the number of versions before.
pub gc_count :
    (s : MvccStore) (min_version : ℕ)
    → IsSorted s
    → IsUnique s.versions_map
    → (gc s min_version).0 + total_length (GoMap.values (gc s min_version).1.versions_map)
      ≡ total_length (GoMap.values s.versions_map)
unfolding gc
gc_count s min_version sorted unique = rw (values-map_values (collect min_version) s.versions_map) (
    total_collected_lem min_version (GoMap.values s.versions_map)
      (values-All (Ascending 0) s.versions_map unique ascending))
  where
    ascending :
        (key : String) (xs : List VersionedValue)
        → GoMap.get s.versions_map key ≡ some xs
        → Ascending 0 xs
    ascending key xs e =
        let a : Ascending 0 (or_nil (GoMap.get s.versions_map key)) =
          unfold versions_of in sorted.at key in
        rw e at a

rank-drop :
    (k m : ℕ) (xs : List VersionedValue) → k ≤ rank m xs → rank m (drop k xs) ≡ rank m xs - k
unfolding rank
rank-drop zero m xs h = omega arith
rank-drop (suc k) m [] h = omega arith
rank-drop (suc k) m (x ∷ xs) h = ground (arith, rank-drop k m xs)

-- In a sorted store `GC` leaves a key at most one version below the limit, and that one where there
-- was any.
pub rank-gc :
    (s : MvccStore) (min_version : ℕ) (key : String)
    → IsSorted s
    → rank min_version (versions_of (gc s min_version).1 key)
      ≡ min 1 (rank min_version (versions_of s key))
rank-gc s min_version key sorted =
    let xs = versions_of s key in
    rw (versions_of-gc s min_version key, collect_lem min_version xs (sorted.at key))
      (ground (arith, rank-drop (rank min_version xs - 1) min_version xs))
