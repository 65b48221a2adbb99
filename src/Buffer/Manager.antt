-- ===== src/Buffer/Manager.antt =====
-- The buffers of all transactions, of buffer.go, as a map from transactions to buffers.
use let_mil_go.Common.{◌≡◌, String, none, some, ◌==◌, string_eq, if◌then◌else◌}
use let_mil_go.GoMap.{get-put, get-delete, get-empty}
use let_mil_go.Buffer.{
  TxBuffer, TxBufferManager, new_tx_buffer, new_tx_buffer_manager, keep, start, get, remove,
}

pub get-keep :
    (m : TxBufferManager) (t u : String) (b : TxBuffer)
    → get (keep m t b) u ≡ (if t == u then some b else get m u)
unfolding get keep
get-keep m t u b = get-put m.buffers t u b

pub get-start :
    (m : TxBufferManager) (t u : String)
    → get (start m t) u ≡ (if t == u then some (new_tx_buffer t) else get m u)
unfolding get start
get-start m t u = get-put m.buffers t u (new_tx_buffer t)

pub get-remove :
    (m : TxBufferManager) (t u : String) → get (remove m t) u ≡ (if t == u then none else get m u)
unfolding get remove
get-remove m t u = get-delete m.buffers t u

pub get-new : (u : String) → get new_tx_buffer_manager u ≡ none
unfolding get new_tx_buffer_manager
get-new u = get-empty {V = TxBuffer} u
