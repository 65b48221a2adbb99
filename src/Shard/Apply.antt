-- ===== src/Shard/Apply.antt =====
-- What the loop of `Commit` of shard.go does to the versions of every key.
use let_mil_go.Common.{
  ℕ, ◌≡◌, refl, inl, inr, String, true, Option, none, some, List, [], ◌∷◌, map, arith, ◌==◌, ==_iff,
  ==-refl, string_eq, if◌then◌else◌, Bool-cases, Option-cases,
}
use let_mil_go.Errors.{ok}
use let_mil_go.GoMap.{is_some}
use let_mil_go.GoMap
use let_mil_go.GoMap.Unique.{elem}
use let_mil_go.Mvcc.Search.{VersionedValue}
use let_mil_go.Mvcc.{MvccStore, versions_of, add_version}
use let_mil_go.Mvcc
use let_mil_go.Mvcc.Insert.{
  IsSorted, insert_in, has_version, versions_of-add_version, add_version-IsSorted,
}
use let_mil_go.Buffer.{WriteOp, TxBuffer, write_ops}
use let_mil_go.Buffer.Invariant.{IsOrdered, Distinct}
use let_mil_go.Shard.Loops.{apply_write, apply_writes}

-- the version that the commit of an operation adds
abbrev pub committed : ℕ → String → WriteOp → VersionedValue
committed commit_time tx_id op = record {
  value = if op.deleted then "" else op.value;
  version = commit_time;
  deleted = op.deleted;
  tx_id = tx_id;
}

-- the versions of a key after the commit of a transaction that has written it, or not
abbrev pub with_write : ℕ → String → Option WriteOp → List VersionedValue → List VersionedValue
with_write commit_time tx_id none xs = xs
with_write commit_time tx_id (some op) xs =
    if has_version commit_time xs then xs else insert_in (committed commit_time tx_id op) xs

apply_write-add_version :
    (s : MvccStore) (commit_time : ℕ) (tx_id : String) (op : WriteOp)
    → apply_write s commit_time tx_id op ≡ (add_version s op.key (committed commit_time tx_id op)).1
unfolding apply_write Mvcc.put Mvcc.delete
apply_write-add_version s commit_time tx_id op = elim (Bool-cases op.deleted) [
  | inl gone ↦ rw gone
  | inr kept ↦ rw kept
]

module _ (commit_time : ℕ) (tx_id : String) where
  apply_write-IsSorted :
      (s : MvccStore) (op : WriteOp) → IsSorted s → IsSorted (apply_write s commit_time tx_id op)
  apply_write-IsSorted s op sorted =
      rw (apply_write-add_version s commit_time tx_id op)
        (add_version-IsSorted s op.key (committed commit_time tx_id op) sorted)

  versions_of-apply_write :
      (s : MvccStore) (op : WriteOp) (j : String)
      → IsSorted s
      → versions_of (apply_write s commit_time tx_id op) j ≡ (
          if op.key == j
          then with_write commit_time tx_id (some op) (versions_of s j)
          else versions_of s j)
  versions_of-apply_write s op j sorted =
      rw
        (
          apply_write-add_version s commit_time tx_id op,
          versions_of-add_version s op.key j (committed commit_time tx_id op) sorted,
        )
        (ground (arith, ==_iff op.key j))

  -- what the loop has made of the store when it is over
  record Applied (s : MvccStore) (writes : String → Option WriteOp) (ks : List String)
      : Type 0 where
    returns : (apply_writes s commit_time tx_id (map writes ks)).0 ≡ ok tt
    sorted : IsSorted (apply_writes s commit_time tx_id (map writes ks)).1
    versions :
        (j : String)
        → versions_of (apply_writes s commit_time tx_id (map writes ks)).1 j ≡ (
            if elem j ks
            then with_write commit_time tx_id (writes j) (versions_of s j)
            else versions_of s j)

  apply_keys :
      (s : MvccStore) (writes : String → Option WriteOp) (ks : List String)
      → IsSorted s
      → Distinct ks
      → ((k : String) (op : WriteOp) → writes k ≡ some op → op.key ≡ k)
      → ((k : String) → elem k ks ≡ true → is_some (writes k) ≡ true)
      → Applied s writes ks
  unfolding apply_writes
  apply_keys s writes [] sorted d named present = record {
    returns = refl;
    sorted = sorted;
    versions = λ j. refl;
  }
  apply_keys s writes (k ∷ ks) sorted d named present = elim (Option-cases (writes k)) [
    | inl missing ↦ absurd (ground (arith, present k, ==-refl k))
    | inr (op, found) ↦
        let s' = apply_write s commit_time tx_id op in
        let key : op.key ≡ k = named k op found in
        let rest =
          apply_keys s' writes ks (apply_write-IsSorted s op sorted) d.1 named
            (λ j p. present j (ground arith)) in
        record {
          returns = rw (found, apply_writes) rest.returns;
          sorted = rw (found, apply_writes) rest.sorted;
          versions = λ j.
              rw (found, apply_writes, rest.versions j, versions_of-apply_write s op j sorted)
                (ground (arith, ==_iff k j, ==_iff op.key j));
        }
  ]

-- From an ordered buffer the loop meets no nil operation, keeps the store sorted, and adds to each
-- written key one version, unless the key has that version already; other keys are as they were.
pub apply_writes_lem :
    (s : MvccStore) (commit_time : ℕ) (tx_id : String) (b : TxBuffer)
    → IsSorted s
    → IsOrdered b
    → ((apply_writes s commit_time tx_id (write_ops b)).0 ≡ ok tt)
      × IsSorted (apply_writes s commit_time tx_id (write_ops b)).1
      × ((j : String)
          → versions_of (apply_writes s commit_time tx_id (write_ops b)).1 j
            ≡ with_write commit_time tx_id (GoMap.get b.writes j) (versions_of s j))
unfolding write_ops
apply_writes_lem s commit_time tx_id b sorted h =
    let a =
      apply_keys commit_time tx_id s (GoMap.get b.writes) b.write_order sorted h.distinct h.named
        (λ k p. ground (arith, h.listed k)) in
    (a.returns, a.sorted, λ j. rw (a.versions j, h.listed j) (ground arith))
