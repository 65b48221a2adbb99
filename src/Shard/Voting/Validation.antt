-- ===== src/Shard/Voting/Validation.antt =====
-- The validation loops of `Prepare` of shard.go.
use let_mil_go.Common.{
  some-inj, ◌≡◌, refl, inl, inr, String, Bool, true, false, Option, some, List, [], ◌∷◌, map, arith,
  All, subst, ◌==◌, ==_iff, ==-refl, nat_eq, string_eq, if◌then◌else◌, Bool-cases, Option-cases,
}
use let_mil_go.GoMap.{is_some}
use let_mil_go.GoMap
use let_mil_go.GoMap.Unique.{elem, all_values}
use let_mil_go.Mvcc.{MvccStore, Found}
use let_mil_go.Mvcc
use let_mil_go.Buffer.{TxBuffer, WriteOp, ReadRecord, get_write, write_ops, read_records}
use let_mil_go.Buffer.Invariant.{IsOrdered}
use let_mil_go.Shard.State.{IsolationLevel, isolation_ser}
use let_mil_go.Shard.Loops.{
  Check, valid, invalid, broken, validates_writes, validates_reads, write_current, read_current,
  check_writes, check_reads, validate,
}

-- whether a loop says `valid`
abbrev pub passes : Check → Bool
passes valid = true
passes invalid = false
passes broken = false

abbrev pub is_broken : Check → Bool
is_broken broken = true
is_broken _ = false

check_reads-not_broken :
    (store : MvccStore) (rs : List ReadRecord) → is_broken (check_reads store rs) ≡ false
unfolding check_reads
check_reads-not_broken store [] = refl
check_reads-not_broken store (r ∷ rs) = ground (arith, check_reads-not_broken store rs)

module _ (store : MvccStore) (writes : String → Option WriteOp) where
  check_writes-not_broken :
      (ks : List String)
      → ((k : String) → elem k ks ≡ true → is_some (writes k) ≡ true)
      → is_broken (check_writes store (map writes ks)) ≡ false
  unfolding check_writes
  check_writes-not_broken [] present = refl
  check_writes-not_broken (k ∷ ks) present = elim (Option-cases (writes k)) [
    | inl missing ↦ absurd (ground (arith, present k, ==-refl k))
    | inr (op, found) ↦
        let rest = check_writes-not_broken ks (λ j p. present j (ground arith)) in
        rw (found, check_writes)
          (elim (Bool-cases (write_current (Mvcc.get_latest store op.key) op)) [
            | inl current ↦ rw current rest
            | inr stale ↦ rw stale refl
          ])
  ]

  -- the loop passes exactly where every written key is current
  pub check_writes_lem :
      (ks : List String)
      → passes (check_writes store (map writes ks)) ≡ true
      → (k : String) (op : WriteOp) → elem k ks ≡ true
      → writes k ≡ some op
      → write_current (Mvcc.get_latest store op.key) op ≡ true
  unfolding check_writes
  check_writes_lem [] pass k op listed has = ground arith
  check_writes_lem (j ∷ ks) pass k op listed has = elim (Option-cases (writes j)) [
    | inl missing ↦ absurd (cc (rw (missing, check_writes) at pass))
    | inr (o, found) ↦
        let tested = rw (found, check_writes) at pass in
        elim (Bool-cases (write_current (Mvcc.get_latest store o.key) o)) [
          | inr stale ↦ absurd (cc (rw stale at tested))
          | inl current ↦ elim (Bool-cases (j == k)) [
            | inr there ↦ check_writes_lem ks (rw current at tested) k op (ground arith) has
            | inl here ↦
                let same : o ≡ op = some-inj (cc (found, has, (==_iff j k).0 here)) in
                subst (λ p. write_current (Mvcc.get_latest store p.key) p ≡ true) same current
          ]
        ]
  ]

-- the two loops, one after the other
chain : Check → Check → Check
chain valid d = d
chain invalid d = invalid
chain broken d = broken

chain-not_broken :
    (c d : Check) → is_broken c ≡ false → is_broken d ≡ false → is_broken (chain c d) ≡ false
unfolding chain
chain-not_broken valid d h k = k
chain-not_broken invalid d h k = refl
chain-not_broken broken d h k = h

chain-passes : (c d : Check) → passes (chain c d) ≡ true → (passes c ≡ true) × (passes d ≡ true)
unfolding chain
chain-passes valid d h = (refl, h)
chain-passes invalid d h = ground arith
chain-passes broken d h = ground arith

writes_checked : MvccStore → TxBuffer → IsolationLevel → Check
writes_checked store b iso =
    if validates_writes iso then check_writes store (write_ops b) else valid

reads_checked : MvccStore → TxBuffer → IsolationLevel → Check
reads_checked store b iso =
    if validates_reads iso then check_reads store (read_records b) else valid

validate-eq-chain :
    (store : MvccStore) (b : TxBuffer) (iso : IsolationLevel)
    → validate store b iso ≡ chain (writes_checked store b iso) (reads_checked store b iso)
unfolding validate writes_checked reads_checked
validate-eq-chain store b iso = go (writes_checked store b iso)
  where
    go :
        (c : Check)
        → (elim c [
          | valid ↦ if validates_reads iso then check_reads store (read_records b) else valid
          | invalid ↦ invalid
          | broken ↦ broken
        ])
          ≡ chain c (reads_checked store b iso)
    go valid = unfold chain reads_checked in refl
    go invalid = unfold chain in refl
    go broken = unfold chain in refl

-- From an ordered buffer no validation meets a nil operation.
pub validate-not_broken :
    (store : MvccStore) (b : TxBuffer) (iso : IsolationLevel)
    → IsOrdered b
    → is_broken (validate store b iso) ≡ false
unfolding writes_checked reads_checked write_ops read_records
validate-not_broken store b iso h = rw (validate-eq-chain store b iso) (
    chain-not_broken _ _
      (ground (
        arith,
        check_writes-not_broken store (GoMap.get b.writes) b.write_order
            (λ k p. ground (arith, h.listed k)),
      ))
      (ground (arith, check_reads-not_broken store (GoMap.values b.reads))))

pub validate-writes :
    (store : MvccStore) (b : TxBuffer) (iso : IsolationLevel) (key : String) (op : WriteOp)
    → IsOrdered b
    → validates_writes iso ≡ true
    → passes (validate store b iso) ≡ true
    → get_write b key ≡ some op
    → write_current (Mvcc.get_latest store key) op ≡ true
unfolding writes_checked write_ops get_write
validate-writes store b iso key op h strict pass written =
    let both = chain-passes _ _ (rw (validate-eq-chain store b iso) at pass) in
    let named : op.key ≡ key = h.named key op written in
    subst (λ k. write_current (Mvcc.get_latest store k) op ≡ true) named
      (check_writes_lem store (GoMap.get b.writes) b.write_order (rw strict at both.0) key op
        (ground (arith, h.listed key, written)) written)

reads_pass :
    (store : MvccStore) (rs : List ReadRecord)
    → passes (check_reads store rs) ≡ true
    → All (λ r. read_current (Mvcc.get_latest store r.key) r ≡ true) rs
unfolding check_reads
reads_pass store [] h = tt
reads_pass store (r ∷ rs) h = elim (Bool-cases (read_current (Mvcc.get_latest store r.key) r)) [
  | inl current ↦ (current, reads_pass store rs (rw current at h))
  | inr stale ↦ absurd (cc (rw stale at h))
]

pub validate-reads :
    (store : MvccStore) (b : TxBuffer) (key : String) (r : ReadRecord)
    → IsOrdered b
    → passes (validate store b isolation_ser) ≡ true
    → GoMap.get b.reads key ≡ some r
    → read_current (Mvcc.get_latest store key) r ≡ true
unfolding reads_checked read_records
validate-reads store b key r h pass recorded =
    let both = chain-passes _ _ (rw (validate-eq-chain store b isolation_ser) at pass) in
    let named : r.key ≡ key = h.read_named key r recorded in
    subst (λ k. read_current (Mvcc.get_latest store k) r ≡ true) named
      (all_values (λ r. read_current (Mvcc.get_latest store r.key) r ≡ true) b.reads
        (reads_pass store (GoMap.values b.reads) both.1) key r recorded)
