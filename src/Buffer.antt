-- ===== src/Buffer.antt =====
-- internal/shard/component/buffer.go: the pending writes and the recorded reads of a transaction, and
-- the buffers of all transactions. A buffer that the source changes through its pointer is put back
-- into the manager's map (`keep`). A pointer that may be nil is an `Option`.
pub mod Invariant
pub mod Manager
use let_mil_go.Common.{
  ℕ, String, Bool, true, false, Option, none, some, List, [], ◌∷◌, ◌++◌, map, string_eq,
  if◌then◌else◌,
}
use let_mil_go.GoMap.{Map, is_some}
use let_mil_go.GoMap

pub record WriteOp : Type 0 where
  pub key : String
  pub value : String
  pub deleted : Bool
  pub original_version : ℕ

pub record ReadRecord : Type 0 where
  pub key : String
  pub version : ℕ
  pub found : Bool

pub record TxBuffer : Type 0 where
  pub tx_id : String
  pub writes : Map String WriteOp
  pub write_order : List String
  pub reads : Map String ReadRecord

unfoldable pub new_tx_buffer : String → TxBuffer
new_tx_buffer tx_id = record {
  tx_id = tx_id;
  writes = GoMap.empty;
  write_order = [];
  reads = GoMap.empty;
}

unfoldable pub has_write : TxBuffer → String → Bool
has_write b key = is_some (GoMap.get b.writes key)

-- the order of the keys grows only by a key that is new
abbrev pub order_with : TxBuffer → String → List String
order_with b key = if has_write b key then b.write_order else b.write_order ++ key ∷ []

unfoldable pub put_write : TxBuffer → String → String → ℕ → TxBuffer
put_write b key value original_version =
    let op : WriteOp = record {
      key = key;
      value = value;
      deleted = false;
      original_version = original_version;
    } in
    record b { write_order = order_with b key; writes = GoMap.put b.writes key op }

unfoldable pub put_delete : TxBuffer → String → ℕ → TxBuffer
put_delete b key original_version =
    let op : WriteOp = record {
      key = key;
      value = "";
      deleted = true;
      original_version = original_version;
    } in
    record b { write_order = order_with b key; writes = GoMap.put b.writes key op }

unfoldable pub get_write : TxBuffer → String → Option WriteOp
get_write b key = GoMap.get b.writes key

unfoldable pub record_read : TxBuffer → String → ℕ → Bool → TxBuffer
record_read b key version found = if has_write b key then b else record b {
  reads = GoMap.put b.reads key (record { key = key; version = version; found = found });
}

unfoldable pub write_keys : TxBuffer → List String
write_keys b = b.write_order

-- b.writes[key] for each key: nil where the key is missing
unfoldable pub write_ops : TxBuffer → List (Option WriteOp)
write_ops b = map (GoMap.get b.writes) b.write_order

unfoldable pub read_records : TxBuffer → List ReadRecord
read_records b = GoMap.values b.reads

pub record TxBufferManager : Type 0 where
  pub buffers : Map String TxBuffer

unfoldable pub new_tx_buffer_manager : TxBufferManager
new_tx_buffer_manager = record { buffers = GoMap.empty }

unfoldable pub keep : TxBufferManager → String → TxBuffer → TxBufferManager
keep m tx_id b = record { buffers = GoMap.put m.buffers tx_id b }

unfoldable pub start : TxBufferManager → String → TxBufferManager
start m tx_id = record { buffers = GoMap.put m.buffers tx_id (new_tx_buffer tx_id) }

unfoldable pub get : TxBufferManager → String → Option TxBuffer
get m tx_id = GoMap.get m.buffers tx_id

unfoldable pub remove : TxBufferManager → String → TxBufferManager
remove m tx_id = record { buffers = GoMap.delete m.buffers tx_id }

unfoldable pub get_or_create : TxBufferManager → String → TxBuffer × TxBufferManager
get_or_create m tx_id = elim (GoMap.get m.buffers tx_id) [
  | some b ↦ (b, m)
  | none ↦
      (new_tx_buffer tx_id, record { buffers = GoMap.put m.buffers tx_id (new_tx_buffer tx_id) })
]
