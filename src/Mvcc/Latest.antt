-- ===== src/Mvcc/Latest.antt =====
-- `GetLatest` of store.go against `Get`.
use let_mil_go.Common.{
  ℕ, suc, ◌+◌, ◌-◌, ◌%◌, ◌≤◌, ◌<◌, ◌≡◌, refl, true, String, List, [], ◌∷◌, arith, length, get_elem?,
  ◌==◌, nat_eq, string_eq, if◌then◌else◌,
}
use let_mil_go.Errors.{err, key_not_found}
use let_mil_go.Mvcc.Search.{VersionedValue, rank, find_version_index-eq-rank}
use let_mil_go.Mvcc.{MvccStore, versions_of, visible, before, get, get_latest, u64_mod}
use let_mil_go.Mvcc.Insert.{IsSorted, has_version}

rank-eq-length :
    (at : ℕ) (xs : List VersionedValue)
    → ((version : ℕ) → has_version version xs ≡ true → version ≤ at)
    → rank (suc at) xs ≡ length xs
unfolding rank has_version
rank-eq-length at [] h = refl
rank-eq-length at (x ∷ xs) h =
    ground (arith, h x.version, rank-eq-length at xs (λ v p. h v (ground arith)))

latest_in :
    (at : ℕ) (xs : List VersionedValue)
    → rank (suc at) xs ≡ length xs
    → (if length xs == 0 then err key_not_found else visible (get_elem? xs (length xs - 1)))
      ≡ (if length xs == 0 then err key_not_found else before xs (rank (suc at) xs))
latest_in at [] e = refl
latest_in at (x ∷ xs) e = rw e (ground arith)

-- In a sorted store `GetLatest` returns what `Get` returns at any time from the key's last version
-- on, the errors included.
pub get_latest-eq-get :
    (s : MvccStore) (key : String) (at : ℕ)
    → IsSorted s
    → suc at < u64_mod
    → ((version : ℕ) → has_version version (versions_of s key) ≡ true → version ≤ at)
    → get_latest s key ≡ get s key at
unfolding get_latest get
get_latest-eq-get s key at sorted small h =
    let xs = versions_of s key in
    let next : (at + 1) % u64_mod ≡ suc at = omega arith in
    rw (next, find_version_index-eq-rank xs (suc at) (sorted.at key))
      (latest_in at xs (rank-eq-length at xs h))
