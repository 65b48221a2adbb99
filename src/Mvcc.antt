-- ===== src/Mvcc.antt =====
-- internal/shard/component/store.go: the multi-version store. The lock makes each method one step.
-- A uint64 version is a natural number; `version+1` in `Get` wraps. Versions of a key are a slice in
-- ascending order, and the insertion into it is modelled as the source does it, with `append` and
-- `copy`. An index out of range would be a `panic`; the theorems show that there is none.
pub mod Slice
pub mod Search
pub mod Insert
pub mod Reads
pub mod Snapshot
pub mod Latest
pub mod Collect
use let_mil_go.Common.{
  ℕ, zero, suc, ◌+◌, ◌-◌, ◌%◌, ◌^◌, String, Bool, true, false, ◌&&◌, Option, none, some, List, [],
  ◌∷◌, length, get_elem?, drop, ltb, ◌==◌, nat_eq, string_eq, if◌then◌else◌,
}
use let_mil_go.Errors.{Result, ok, err, key_not_found, version_not_found, version_conflict, panic}
use let_mil_go.GoMap.{Map}
use let_mil_go.GoMap
use Slice.{insert_at}
use Search.{VersionedValue, find_version_index}

pub record MvccStore : Type 0 where
  pub versions_map : Map String (List VersionedValue)

unfoldable pub new_store : MvccStore
new_store = record { versions_map = GoMap.empty }

-- s.data[key], the nil slice where the key is missing
abbrev pub or_nil : Option (List VersionedValue) → List VersionedValue
or_nil none = []
or_nil (some xs) = xs

unfoldable pub versions_of : MvccStore → String → List VersionedValue
versions_of s key = or_nil (GoMap.get s.versions_map key)

-- what `Get` and `GetLatest` return: value, version and transaction
pub record Found : Type 0 where
  pub value : String
  pub version : ℕ
  pub tx_id : String

-- VersionedValue{}
abbrev pub no_value : VersionedValue
no_value = record { value = ""; version = 0; deleted = false; tx_id = "" }

-- idx < len(versions) && versions[idx].Version == version
abbrev pub holds_version : List VersionedValue → ℕ → ℕ → Bool
holds_version versions idx version = elim (get_elem? versions idx) [
  | none ↦ false
  | some x ↦ x.version == version
]

-- the common part of `Put` and `Delete`
unfoldable pub add_version : MvccStore → String → VersionedValue → Result (Unit {0}) × MvccStore
add_version s key vv =
    let versions = versions_of s key in
    let idx = find_version_index versions vv.version in
    if holds_version versions idx vv.version then (err version_conflict, s) else (
      ok tt,
      record s { versions_map = GoMap.put s.versions_map key (insert_at no_value idx vv versions) },
    )

unfoldable pub put : MvccStore → String → String → ℕ → String → Result (Unit {0}) × MvccStore
unfolding add_version
put s key value version tx_id =
    add_version s key (record { value = value; version = version; deleted = false; tx_id = tx_id })

unfoldable pub delete : MvccStore → String → ℕ → String → Result (Unit {0}) × MvccStore
unfolding add_version
delete s key version tx_id =
    add_version s key (record { value = ""; version = version; deleted = true; tx_id = tx_id })

-- the end of `Get` and `GetLatest`, on the slot they read
abbrev pub visible : Option VersionedValue → Result Found
visible none = err panic
visible (some vv) =
    if vv.deleted
    then err key_not_found
    else ok (record { value = vv.value; version = vv.version; tx_id = vv.tx_id })

abbrev pub u64_mod : ℕ
u64_mod = 2 ^ 64

-- versions[idx-1], where idx is what `findVersionIndex` returned
abbrev pub before : List VersionedValue → ℕ → Result Found
before versions zero = err version_not_found
before versions (suc i) = visible (get_elem? versions i)

unfoldable pub get : MvccStore → String → ℕ → Result Found
get s key version =
    let versions = versions_of s key in
    if length versions == 0
    then err key_not_found
    else before versions (find_version_index versions ((version + 1) % u64_mod))

abbrev exact_slot : Option VersionedValue → ℕ → Result (String × String)
exact_slot none version = err version_not_found
exact_slot (some vv) version =
    if vv.version == version
    then if vv.deleted then err key_not_found else ok (vv.value, vv.tx_id)
    else err version_not_found

unfoldable pub get_exact : MvccStore → String → ℕ → Result (String × String)
get_exact s key version = elim (GoMap.get s.versions_map key) [
  | none ↦ err key_not_found
  | some versions ↦ exact_slot (get_elem? versions (find_version_index versions version)) version
]

unfoldable pub get_latest : MvccStore → String → Result Found
get_latest s key =
    let versions = versions_of s key in
    if length versions == 0
    then err key_not_found
    else visible (get_elem? versions (length versions - 1))

unfoldable pub get_all_versions : MvccStore → String → Result (List VersionedValue)
get_all_versions s key = elim (GoMap.get s.versions_map key) [
  | none ↦ err key_not_found
  | some versions ↦ ok versions
]

-- the body of the loop of `GC`, for one key: the slice that is left, and how many versions went
unfoldable pub collect : ℕ → List VersionedValue → List VersionedValue
collect min_version versions =
    let idx = find_version_index versions min_version in
    if ltb 1 idx then drop (idx - 1) versions else versions

unfoldable pub collected : ℕ → List VersionedValue → ℕ
collected min_version versions =
    let idx = find_version_index versions min_version in if ltb 1 idx then idx - 1 else 0

unfoldable pub total_collected : ℕ → List (List VersionedValue) → ℕ
unfolding collected
total_collected min_version [] = 0
total_collected min_version (versions ∷ rest) =
    collected min_version versions + total_collected min_version rest

unfoldable pub gc : MvccStore → ℕ → ℕ × MvccStore
unfolding collect total_collected
gc s min_version = (
  total_collected min_version (GoMap.values s.versions_map),
  record s { versions_map = GoMap.map_values (collect min_version) s.versions_map },
)
