-- ===== src/Mvcc/Snapshot.antt =====
-- Writes of store.go against the reads of `Get`.
use let_mil_go.Common.{
  ℕ, suc, ◌≤◌, ◌<◌, ◌≡◌, refl, ap, inl, inr, true, false, Option, none, some, String, List, [], ◌∷◌,
  arith, ltb, ==-refl, nat_eq, string_eq, Bool-cases, Option-cases,
}
use let_mil_go.Errors.{Result, ok, err}
use let_mil_go.Mvcc.Search.{VersionedValue}
use let_mil_go.Mvcc.{MvccStore, Found, versions_of, visible, add_version, put, delete, get, u64_mod}
use let_mil_go.Mvcc.Insert.{IsSorted, has_version, add_version_lem, add_version-IsSorted}
use let_mil_go.Mvcc.Reads.{newest, later, read_of, get-eq-newest, newest-add_version}

-- What a read finds; the two errors of `Get` are both "nothing".
abbrev pub readable : Result Found → Option Found
readable (ok found) = some found
readable (err _) = none

abbrev pub seen : Option VersionedValue → Option Found
seen none = none
seen (some vv) = readable (visible (some vv))

readable-read_of :
    (xs : List VersionedValue) (at : ℕ) → readable (read_of xs (newest at xs)) ≡ seen (newest at xs)
unfolding read_of newest
readable-read_of [] at = refl
readable-read_of (x ∷ xs) at = ground arith

pub readable-get :
    (s : MvccStore) (key : String) (at : ℕ)
    → IsSorted s
    → suc at < u64_mod
    → readable (get s key at) ≡ seen (newest at (versions_of s key))
readable-get s key at sorted small =
    rw (get-eq-newest s key at sorted small) (readable-read_of (versions_of s key) at)

newest-version :
    (at : ℕ) (xs : List VersionedValue) (y : VersionedValue)
    → newest at xs ≡ some y
    → (y.version ≤ at) × (has_version y.version xs ≡ true)
unfolding newest has_version
newest-version at [] y h = ground arith
newest-version at (x ∷ xs) y h = elim (Option-cases (newest at xs)) [
  | inl unseen ↦ ground arith
  | inr (z, e) ↦ ground (arith, newest-version at xs z e)
]

-- Where the version is new to the key, the newest version that a reader at that version sees is it.
pub later_self :
    (vv : VersionedValue) (xs : List VersionedValue)
    → has_version vv.version xs ≡ false
    → later vv (newest vv.version xs) ≡ vv
unfolding later
later_self vv xs fresh = elim (Option-cases (newest vv.version xs)) [
  | inl unseen ↦ rw unseen
  | inr (y, e) ↦
      let (below, there) = newest-version vv.version xs y e in
      rw e (elim (Bool-cases (ltb y.version vv.version)) [
        | inl older ↦ rw older
        | inr same ↦
            let v : y.version ≡ vv.version = ground arith in
            absurd (cc (ap (λ n. has_version n xs) v))
      ])
]

-- An insertion succeeds only where the version is new to the key.
add_version_fresh :
    (s t : MvccStore) (key : String) (vv : VersionedValue)
    → IsSorted s
    → add_version s key vv ≡ (ok tt, t)
    → has_version vv.version (versions_of s key) ≡ false
add_version_fresh s t key vv sorted done =
    elim (Bool-cases (has_version vv.version (versions_of s key))) [
      | inr fresh ↦ fresh
      | inl taken ↦ ground (arith, add_version_lem s key vv sorted)
    ]

-- A version that `Put` or `Delete` adds is what a reader at its time finds.
get-add_version_self :
    (s t : MvccStore) (key : String) (vv : VersionedValue)
    → IsSorted s
    → suc vv.version < u64_mod
    → add_version s key vv ≡ (ok tt, t)
    → readable (get t key vv.version) ≡ seen (some vv)
get-add_version_self s t key vv sorted small done =
    let after : (add_version s key vv).1 ≡ t = ap (λ p. p.1) done in
    let fresh = add_version_fresh s t key vv sorted done in
    rw
      (
        ← after,
        readable-get (add_version s key vv).1 key vv.version (add_version-IsSorted s key vv sorted)
            small,
        newest-add_version s key vv sorted key vv.version,
        fresh,
        ==-refl key,
        later_self vv (versions_of s key) fresh,
      )
      (ground arith)

-- What a successful `Put` into a sorted store has stored at a version, but the greatest, is what
-- `Get` returns at that version.
pub get-put_self :
    (s t : MvccStore) (key value : String) (version : ℕ) (tx_id : String)
    → IsSorted s
    → suc version < u64_mod
    → put s key value version tx_id ≡ (ok tt, t)
    → readable (get t key version)
      ≡ some (record { value = value; version = version; tx_id = tx_id })
unfolding put
get-put_self s t key value version tx_id = get-add_version_self s t key _

-- A key that a successful `Delete` in a sorted store has marked at a version, but the greatest, is
-- not found at that version.
pub get-delete_self :
    (s t : MvccStore) (key : String) (version : ℕ) (tx_id : String)
    → IsSorted s
    → suc version < u64_mod
    → delete s key version tx_id ≡ (ok tt, t)
    → readable (get t key version) ≡ none
unfolding delete
get-delete_self s t key version tx_id = get-add_version_self s t key _

get-add_version_before :
    (s : MvccStore) (key j : String) (vv : VersionedValue) (at : ℕ)
    → IsSorted s
    → suc at < u64_mod
    → at < vv.version
    → readable (get (add_version s key vv).1 j at) ≡ readable (get s j at)
get-add_version_before s key j vv at sorted small early =
    rw
      (
        readable-get s j at sorted small,
        readable-get (add_version s key vv).1 j at (add_version-IsSorted s key vv sorted) small,
        newest-add_version s key vv sorted j at,
      )
      (ground arith)

-- A write into a sorted store at a later time, whether it succeeds or not, changes no read of any key
-- at an earlier time.
pub get-put_before :
    (s : MvccStore) (key value : String) (version : ℕ) (tx_id : String) (j : String) (at : ℕ)
    → IsSorted s
    → suc at < u64_mod
    → at < version
    → (readable (get (put s key value version tx_id).1 j at) ≡ readable (get s j at))
      × (readable (get (delete s key version tx_id).1 j at) ≡ readable (get s j at))
unfolding put delete
get-put_before s key value version tx_id j at sorted small early = (
  get-add_version_before s key j _ at sorted small early,
  get-add_version_before s key j _ at sorted small early,
)
