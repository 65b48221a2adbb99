-- ===== src/Shard/Valid/Handlers.antt =====
-- The transaction handlers of shard.go, and the invariant of a shard.
use let_mil_go.Common.{
  ℕ, inl, inr, String, true, false, nat_eq, string_eq, Bool-cases, Option-cases,
}
use let_mil_go.Errors.{Result, ok, err, key_not_found, version_not_found}
use let_mil_go.Mvcc.{MvccStore, Found, new_store, versions_of}
use let_mil_go.Mvcc
use let_mil_go.Buffer.{TxBuffer, TxBufferManager, new_tx_buffer, write_ops}
use let_mil_go.Buffer
use let_mil_go.Buffer.Invariant.{
  IsOrdered, put_write-IsOrdered, put_delete-IsOrdered, record_read-IsOrdered,
}
use let_mil_go.OpLog.{OpLog}
use let_mil_go.Shard.State.{Shard}
use let_mil_go.Shard
use let_mil_go.Shard.Valid.{IsValid, start-AllOrdered, log_ticked-IsValid, keep_buffer-IsValid}

module _ {L : Type 0} ⦃log : OpLog L⦄ where
  pub tx_start-IsValid :
      (s : Shard L) (tx_id : String) → IsValid s → IsValid (Shard.tx_start s tx_id).1
  unfolding Shard.tx_start
  tx_start-IsValid s tx_id h = elim (Option-cases (Buffer.get s.buffer_mgr tx_id)) [
    | inl new ↦
        rw (new, Shard.tx_start)
          (record {
            sorted = h.sorted;
            locks = h.locks;
            buffers = start-AllOrdered s.buffer_mgr tx_id h.buffers;
          })
    | inr (b, old) ↦ rw (old, Shard.tx_start) h
  ]

  pub external_read-IsValid :
      (now : ℕ) (s : Shard L) (tx_id : String) (b : TxBuffer) (key : String) (r : Result Found)
      → IsValid s
      → IsOrdered b
      → IsValid (Shard.external_read now s tx_id b key r).1
  unfolding Shard.external_read
  external_read-IsValid now s tx_id b key (err key_not_found) h o =
      keep_buffer-IsValid s tx_id _ h (record_read-IsOrdered b key 0 false o)
  external_read-IsValid now s tx_id b key (err version_not_found) h o =
      keep_buffer-IsValid s tx_id _ h (record_read-IsOrdered b key 0 false o)
  external_read-IsValid now s tx_id b key (err _) h o = h
  external_read-IsValid now s tx_id b key (ok found) h o =
      log_ticked-IsValid now tx_id key found.value _ _
        (keep_buffer-IsValid s tx_id _ h (record_read-IsOrdered b key found.version true o))

  pub tx_read-IsValid :
      (now : ℕ) (s : Shard L) (tx_id key : String) (at : ℕ)
      → IsValid s
      → IsValid (Shard.tx_read now s tx_id key at).1
  unfolding Shard.tx_read
  tx_read-IsValid now s tx_id key at h = elim (Option-cases (Buffer.get s.buffer_mgr tx_id)) [
    | inl missing ↦ rw (missing, Shard.tx_read) h
    | inr (b, found) ↦
        rw (found, Shard.tx_read)
          (elim (Option-cases (Buffer.get_write b key)) [
            | inl external ↦ rw external (
                external_read-IsValid now s tx_id b key (Mvcc.get s.store key at) h
                  (h.buffers tx_id b found))
            | inr (op, own) ↦
                rw own
                  (elim (Bool-cases op.deleted) [ inl gone ↦ rw gone h | inr kept ↦ rw kept h ])
          ])
  ]

  pub tx_write-IsValid :
      (now : ℕ) (s : Shard L) (tx_id key value : String)
      → IsValid s
      → IsValid (Shard.tx_write now s tx_id key value).1
  unfolding Shard.tx_write
  tx_write-IsValid now s tx_id key value h = elim (Option-cases (Buffer.get s.buffer_mgr tx_id)) [
    | inl missing ↦ rw (missing, Shard.tx_write) h
    | inr (b, found) ↦
        rw (found, Shard.tx_write)
          (log_ticked-IsValid now tx_id key value _ _ (
            keep_buffer-IsValid s tx_id _ h
              (put_write-IsOrdered b key value _ (h.buffers tx_id b found))))
  ]

  pub tx_delete-IsValid :
      (now : ℕ) (s : Shard L) (tx_id key : String)
      → IsValid s
      → IsValid (Shard.tx_delete now s tx_id key).1
  unfolding Shard.tx_delete
  tx_delete-IsValid now s tx_id key h = elim (Option-cases (Buffer.get s.buffer_mgr tx_id)) [
    | inl missing ↦ rw (missing, Shard.tx_delete) h
    | inr (b, found) ↦
        rw (found, Shard.tx_delete)
          (log_ticked-IsValid now tx_id key "" _ _ (
            keep_buffer-IsValid s tx_id _ h
              (put_delete-IsOrdered b key _ (h.buffers tx_id b found))))
  ]
