-- ===== src/Shard/Sessions.antt =====
-- What a transaction reads on a shard of shard.go before it commits.
use let_mil_go.Common.{
  ℕ, ◌≡◌, ◌≢◌, refl, ap, ◌∙◌, inl, inr, ◌⊎◌, String, true, false, none, some, arith, ◌==◌, ==-refl,
  ==-ne, string_eq, if◌then◌else◌, Option-cases,
}
use let_mil_go.Errors.{
  Result, ok, err, key_not_found, version_not_found, version_conflict, lock_conflict, lock_not_held,
  deadlock, tx_already_exists, tx_not_found, tx_no_ops, panic,
}
use let_mil_go.GoMap.{get-put}
use let_mil_go.Mvcc
use let_mil_go.Mvcc.{Found}
use let_mil_go.Buffer.{TxBuffer, WriteOp, new_tx_buffer, get_write, put_write, put_delete}
use let_mil_go.Buffer
use let_mil_go.Buffer.Manager.{get-keep, get-start}
use let_mil_go.OpLog.{OpLog, OpType, op_write, op_delete}
use let_mil_go.Shard.State.{Shard, not_found_reply, version_or_zero}
use let_mil_go.Shard

get_write-put_write :
    (b : TxBuffer) (key value : String) (version : ℕ)
    → get_write (put_write b key value version) key
      ≡ some (record { key = key; value = value; deleted = false; original_version = version })
unfolding get_write put_write
get_write-put_write b key value version = rw (get-put, ==-refl key)

get_write-put_delete :
    (b : TxBuffer) (key : String) (version : ℕ)
    → get_write (put_delete b key version) key
      ≡ some (record { key = key; value = ""; deleted = true; original_version = version })
unfolding get_write put_delete
get_write-put_delete b key version = rw (get-put, ==-refl key)

module _ {L : Type 0} ⦃log : OpLog L⦄ where
  -- the buffers after a step that changed one and logged it
  get-log_ticked_keep :
      (now : ℕ) (s : Shard L) (tx_id u key value : String) (op_type : OpType) (b : TxBuffer)
      → Buffer.get
          (Shard.log_ticked now tx_id key value op_type (Shard.keep_buffer s tx_id b)).buffer_mgr
          u
        ≡ (if tx_id == u then some b else Buffer.get s.buffer_mgr u)
  unfolding Shard.log_ticked Shard.keep_buffer
  get-log_ticked_keep now s tx_id u key value op_type b = get-keep s.buffer_mgr tx_id u b

  -- the read of a key that the transaction's buffer has an operation for
  read_of_write :
      (now : ℕ) (s : Shard L) (tx_id key : String) (at : ℕ) (b : TxBuffer) (op : WriteOp)
      → Buffer.get s.buffer_mgr tx_id ≡ some b
      → get_write b key ≡ some op
      → (Shard.tx_read now s tx_id key at).0 ≡ (
          if op.deleted
          then ok not_found_reply
          else ok (record { value = op.value; version = op.original_version; found = true }))
  unfolding Shard.tx_read
  read_of_write now s tx_id key at b op found e = rw (found, Shard.tx_read, e) (ground arith)

  -- A transaction that has started reads what it has written last, at every snapshot time: after
  -- `TxWrite` the value, with the version that `TxWrite` returned, and after `TxDelete` nothing.
  pub read_own_writes :
      (now now' : ℕ) (s : Shard L) (tx_id key value : String) (at : ℕ) (b : TxBuffer)
      → Buffer.get s.buffer_mgr tx_id ≡ some b
      → (version : ℕ) × ((Shard.tx_write now s tx_id key value).0 ≡ ok version)
        × ((Shard.tx_read now' (Shard.tx_write now s tx_id key value).1 tx_id key at).0
            ≡ ok (record { value = value; version = version; found = true }))
        × ((Shard.tx_read now' (Shard.tx_delete now s tx_id key).1 tx_id key at).0
            ≡ ok not_found_reply)
  unfolding Shard.tx_write Shard.tx_delete
  read_own_writes now now' s tx_id key value at b found =
      let version = version_or_zero (Mvcc.get_latest s.store key) in
      let written = put_write b key value version in
      let erased = put_delete b key version in
      (
        version,
        rw (found, Shard.tx_write) refl,
        rw (found, Shard.tx_write)
            (read_of_write now'
              (Shard.log_ticked now tx_id key value op_write (Shard.keep_buffer s tx_id written))
              tx_id key at written _
              (ground (
                arith,
                get-log_ticked_keep now s tx_id tx_id key value op_write written,
                ==-refl tx_id,
              ))
              (get_write-put_write b key value version)),
        rw (found, Shard.tx_delete)
            (read_of_write now'
              (Shard.log_ticked now tx_id key "" op_delete (Shard.keep_buffer s tx_id erased)) tx_id
              key at erased _
              (ground (
                arith,
                get-log_ticked_keep now s tx_id tx_id key "" op_delete erased,
                ==-refl tx_id,
              ))
              (get_write-put_delete b key version)),
      )

  external_reply :
      (now now' : ℕ) (s s' : Shard L) (u : String) (b : TxBuffer) (key : String) (r : Result Found)
      → (Shard.external_read now s u b key r).0 ≡ (Shard.external_read now' s' u b key r).0
  unfolding Shard.external_read
  external_reply now now' s s' u b key (ok found) = refl
  external_reply now now' s s' u b key (err key_not_found) = refl
  external_reply now now' s s' u b key (err version_not_found) = refl
  external_reply now now' s s' u b key (err version_conflict) = refl
  external_reply now now' s s' u b key (err lock_conflict) = refl
  external_reply now now' s s' u b key (err lock_not_held) = refl
  external_reply now now' s s' u b key (err deadlock) = refl
  external_reply now now' s s' u b key (err tx_already_exists) = refl
  external_reply now now' s s' u b key (err tx_not_found) = refl
  external_reply now now' s s' u b key (err tx_no_ops) = refl
  external_reply now now' s s' u b key (err panic) = refl

  -- a read depends on the reader's buffer and on the store alone
  pub tx_read_cong :
      (now now' : ℕ) (s s' : Shard L) (u key : String) (at : ℕ)
      → Buffer.get s'.buffer_mgr u ≡ Buffer.get s.buffer_mgr u
      → s'.store ≡ s.store
      → (Shard.tx_read now' s' u key at).0 ≡ (Shard.tx_read now s u key at).0
  unfolding Shard.tx_read
  tx_read_cong now now' s s' u key at same store = elim (Option-cases (Buffer.get s.buffer_mgr u)) [
    | inl missing ↦ rw (Shard.tx_read, same, missing) refl
    | inr (c, found) ↦ elim (Option-cases (get_write c key)) [
      | inl none_yet ↦
          rw (Shard.tx_read, same, found, none_yet)
            (external_reply now' now s' s u c key (Mvcc.get s'.store key at)
              ∙ ap (λ st. (Shard.external_read now s u c key (Mvcc.get st key at)).0) store)
      | inr (op, has) ↦ rw (Shard.tx_read, same, found, has) (ground arith)
    ]
  ]

  reads_as_before :
      (now now' : ℕ) (s : Shard L) (t u other key value : String) (at : ℕ) (op_type : OpType)
      (b : TxBuffer)
      → t ≢ u
      → (Shard.tx_read now'
          (Shard.log_ticked now t key value op_type (Shard.keep_buffer s t b))
          u
          other
          at).0
        ≡ (Shard.tx_read now' s u other at).0
  unfolding Shard.log_ticked Shard.keep_buffer
  reads_as_before now now' s t u other key value at op_type b ne =
      tx_read_cong now' now' s (Shard.log_ticked now t key value op_type (Shard.keep_buffer s t b))
        u other at (ground (arith, get-keep s.buffer_mgr t u b, ==-ne t u ne)) refl

  -- Every transaction reads the same before and after another one's `TxWrite` or `TxDelete`.
  pub no_dirty_reads :
      (now now' : ℕ) (s : Shard L) (t u key other value : String) (at : ℕ)
      → t ≢ u
      → ((Shard.tx_read now' (Shard.tx_write now s t key value).1 u other at).0
          ≡ (Shard.tx_read now' s u other at).0)
        × ((Shard.tx_read now' (Shard.tx_delete now s t key).1 u other at).0
            ≡ (Shard.tx_read now' s u other at).0)
  unfolding Shard.tx_write Shard.tx_delete
  no_dirty_reads now now' s t u key other value at ne =
      elim (Option-cases (Buffer.get s.buffer_mgr t)) [
        | inl missing ↦ (rw (missing, Shard.tx_write) refl, rw (missing, Shard.tx_delete) refl)
        | inr (b, found) ↦
            let version = version_or_zero (Mvcc.get_latest s.store key) in
            (
              rw (found, Shard.tx_write)
                  (reads_as_before now now' s t u other key value at op_write
                    (put_write b key value version) ne),
              rw (found, Shard.tx_delete)
                  (reads_as_before now now' s t u other key "" at op_delete
                    (put_delete b key version) ne),
            )
      ]

  -- A second `TxStart` of a transaction is refused and changes nothing; the first makes its buffer
  -- and leaves the others.
  pub tx_start_lem :
      (s : Shard L) (t u : String)
      → (((Shard.tx_start s t).0 ≡ ok tt)
          × (Buffer.get s.buffer_mgr t ≡ none)
          × (Buffer.get (Shard.tx_start s t).1.buffer_mgr u
              ≡ (if t == u then some (new_tx_buffer t) else Buffer.get s.buffer_mgr u)))
        ⊎ (Shard.tx_start s t ≡ (err tx_already_exists, s))
  unfolding Shard.tx_start
  tx_start_lem s t u = elim (Option-cases (Buffer.get s.buffer_mgr t)) [
    | inl missing ↦ inl (
      rw (missing, Shard.tx_start) refl,
      missing,
      rw (missing, Shard.tx_start) (get-start s.buffer_mgr t u),
    )
    | inr (b, found) ↦ inr (rw (found, Shard.tx_start) refl)
  ]
