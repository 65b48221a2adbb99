-- ===== src/Buffer/Invariant.antt =====
-- The invariant of a transaction's buffer of buffer.go, between `writeOrder` and the map of writes.
use let_mil_go.Common.{
  ℕ, ◌≡◌, refl, inl, inr, String, Bool, true, false, ◌||◌, some, List, [], ◌∷◌, ◌++◌, arith, ◌==◌,
  ==_iff, string_eq, Bool-cases,
}
use let_mil_go.GoMap.{Map, is_some, get-put, get-empty}
use let_mil_go.GoMap
use let_mil_go.GoMap.Unique.{elem}
use let_mil_go.Buffer.{
  WriteOp, ReadRecord, TxBuffer, new_tx_buffer, has_write, order_with, put_write, put_delete,
  record_read,
}

-- no key twice
abbrev pub Distinct : List String → Type 0
Distinct [] = Unit {0}
Distinct (k ∷ ks) = (elem k ks ≡ false) × Distinct ks

pub record IsOrdered (b : TxBuffer) : Type 0 where
  pub distinct : Distinct b.write_order
  pub listed : (k : String) → elem k b.write_order ≡ is_some (GoMap.get b.writes k)
  pub named : (k : String) (op : WriteOp) → GoMap.get b.writes k ≡ some op → op.key ≡ k
  pub read_named : (k : String) (r : ReadRecord) → GoMap.get b.reads k ≡ some r → r.key ≡ k

elem-append : (k j : String) (ks : List String) → elem k (ks ++ j ∷ []) ≡ (elem k ks || j == k)
elem-append k j [] = ground arith
elem-append k j (i ∷ ks) = ground (arith, elem-append k j ks)

Distinct-append :
    (j : String) (ks : List String) → elem j ks ≡ false → Distinct ks → Distinct (ks ++ j ∷ [])
Distinct-append j [] h d = (refl, tt)
Distinct-append j (i ∷ ks) h d = (
  ground (arith, elem-append i j ks, ==_iff i j, ==_iff j i),
  Distinct-append j ks (ground arith) d.1,
)

put_op-IsOrdered :
    (b : TxBuffer) (op : WriteOp)
    → IsOrdered b
    → IsOrdered
        (record b { write_order = order_with b op.key; writes = GoMap.put b.writes op.key op })
unfolding has_write
put_op-IsOrdered b op h = record {
  distinct = elim (Bool-cases (is_some (GoMap.get b.writes op.key))) [
    | inl old ↦ rw old h.distinct
    | inr new ↦
        rw new (Distinct-append op.key b.write_order (ground (arith, h.listed op.key)) h.distinct)
  ];
  listed = λ k.
      rw get-put (ground (arith, h.listed k, elem-append k op.key b.write_order, ==_iff op.key k));
  named = λ k o e. elim (Bool-cases (op.key == k)) [
    | inl same ↦ ground (arith, get-put b.writes op.key k op, ==_iff op.key k)
    | inr other ↦ h.named k o (ground (arith, get-put b.writes op.key k op))
  ];
  read_named = h.read_named;
}

-- `PutWrite`, `PutDelete` and `RecordRead` keep the order of the writes: each written key once.
pub put_write-IsOrdered :
    (b : TxBuffer) (key value : String) (version : ℕ)
    → IsOrdered b
    → IsOrdered (put_write b key value version)
unfolding put_write
put_write-IsOrdered b key value version h =
    put_op-IsOrdered b
      (record { key = key; value = value; deleted = false; original_version = version }) h

pub put_delete-IsOrdered :
    (b : TxBuffer) (key : String) (version : ℕ) → IsOrdered b → IsOrdered (put_delete b key version)
unfolding put_delete
put_delete-IsOrdered b key version h =
    put_op-IsOrdered b
      (record { key = key; value = ""; deleted = true; original_version = version }) h

pub record_read-IsOrdered :
    (b : TxBuffer) (key : String) (version : ℕ) (found : Bool)
    → IsOrdered b
    → IsOrdered (record_read b key version found)
unfolding record_read
record_read-IsOrdered b key version found h = elim (Bool-cases (has_write b key)) [
  | inl own ↦ rw own h
  | inr external ↦ rw external (record {
    distinct = h.distinct;
    listed = h.listed;
    named = h.named;
    read_named = λ k r e. elim (Bool-cases (key == k)) [
      | inl same ↦ ground (
        arith,
        get-put b.reads key k (record { key = key; version = version; found = found }),
        ==_iff key k,
      )
      | inr other ↦ h.read_named k r (
          ground
            (arith, get-put b.reads key k (record { key = key; version = version; found = found })))
    ];
  })
]

pub new_tx_buffer-IsOrdered : (tx_id : String) → IsOrdered (new_tx_buffer tx_id)
unfolding new_tx_buffer
new_tx_buffer-IsOrdered tx_id = record {
  distinct = tt;
  listed = λ k. rw (get-empty {V = WriteOp} k);
  named = λ k op e. cc (get-empty {V = WriteOp} k);
  read_named = λ k r e. cc (get-empty {V = ReadRecord} k);
}
