-- ===== src/TxStatus.antt =====
-- internal/model/transaction.go: the status table of a shard. A state that the source changes through
-- its pointer is put back into the map; `Get` returns a copy, which is the value itself.
use let_mil_go.Common.{ℕ, String, Option, none, some, string_eq}
use let_mil_go.GoMap.{Map}
use let_mil_go.GoMap

pub data TxStatus : Type 0 where
  tx_running tx_prepared tx_committed tx_aborted : TxStatus

-- `TxStatus.String`; the default branch is for an int outside the enumeration
unfoldable pub status_string : TxStatus → String
status_string tx_running = "RUNNING"
status_string tx_prepared = "PREPARED"
status_string tx_committed = "COMMITTED"
status_string tx_aborted = "ABORTED"

pub record TxState : Type 0 where
  pub status : TxStatus
  pub prepare_time : ℕ

pub record TxStatusTable : Type 0 where
  pub states : Map String TxState

unfoldable pub new_tx_status_table : TxStatusTable
new_tx_status_table = record { states = GoMap.empty }

unfoldable pub start : TxStatusTable → String → TxStatusTable
start t tx_id = record {
  states = GoMap.put t.states tx_id (record { status = tx_running; prepare_time = 0 });
}

-- if state, ok := t.states[txId]; ok { … }
unfoldable pub change : (TxState → TxState) → TxStatusTable → String → TxStatusTable
change f t tx_id = elim (GoMap.get t.states tx_id) [
  | none ↦ t
  | some state ↦ record { states = GoMap.put t.states tx_id (f state) }
]

unfoldable pub prepare : TxStatusTable → String → ℕ → TxStatusTable
unfolding change
prepare t tx_id prepare_time =
    change (λ state. record { status = tx_prepared; prepare_time = prepare_time }) t tx_id

unfoldable pub commit : TxStatusTable → String → TxStatusTable
unfolding change
commit t tx_id = change (λ state. record state { status = tx_committed }) t tx_id

unfoldable pub abort : TxStatusTable → String → TxStatusTable
unfolding change
abort t tx_id = change (λ state. record state { status = tx_aborted }) t tx_id

unfoldable pub get : TxStatusTable → String → Option TxState
get t tx_id = GoMap.get t.states tx_id

unfoldable pub remove : TxStatusTable → String → TxStatusTable
remove t tx_id = record { states = GoMap.delete t.states tx_id }
