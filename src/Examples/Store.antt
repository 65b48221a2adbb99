-- ===== src/Examples/Store.antt =====
-- Concrete versions of internal/shard/component/store.go.
use let_mil_go.Common.{◌≡◌, refl, false, String, List, [], arith, nat_eq, string_eq}
use let_mil_go.GoMap.{get-empty}
use let_mil_go.Mvcc.Search.{VersionedValue}
use let_mil_go.Mvcc.{MvccStore, new_store, versions_of, add_version, get, gc}
use let_mil_go.Mvcc.Insert.{IsSorted, new_store-IsSorted, add_version-IsSorted}
use let_mil_go.Mvcc.Reads.{newest, read_of, get-eq-newest}
use let_mil_go.Mvcc.Snapshot.{readable}
use let_mil_go.Mvcc.Collect.{get-gc}

abbrev old : VersionedValue
old = record { value = "a"; version = 3; deleted = false; tx_id = "t" }

abbrev new : VersionedValue
new = record { value = "b"; version = 7; deleted = false; tx_id = "u" }

-- two versions of one key
abbrev two : MvccStore
two = (add_version (add_version new_store "x" old).1 "x" new).1

two-IsSorted : IsSorted two
two-IsSorted =
    add_version-IsSorted (add_version new_store "x" old).1 "x" new
      (add_version-IsSorted new_store "x" old new_store-IsSorted)

new_versions : versions_of new_store "x" ≡ []
unfolding versions_of new_store
new_versions = rw (get-empty {K = String} {V = List VersionedValue} "x") refl

get-eq-newest_example :
    get two "x" 5 ≡ read_of (versions_of two "x") (newest 5 (versions_of two "x"))
get-eq-newest_example = get-eq-newest two "x" 5 two-IsSorted (omega arith)

get-gc_example : readable (get (gc two 8).1 "x" 7) ≡ readable (get two "x" 7)
get-gc_example = get-gc two 8 "x" 7 two-IsSorted (omega arith) (omega arith)
