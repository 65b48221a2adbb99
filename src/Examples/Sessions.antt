-- ===== src/Examples/Sessions.antt =====
-- A session of cmd/client with a service that counts its calls.
use let_mil_go.Common.{ℕ, suc, false, [], ◌∷◌}
use let_mil_go.Rpc.{success}
use let_mil_go.Client.{Service, run_interactive}
use let_mil_go.Client.Following.{AsksOpen, recording}
use let_mil_go.Client.Recorded.{run_interactive-AsksOpen}

abbrev counting : Service ℕ
counting = record {
  on_begin = λ iso n. (success (record { tx_id = "tx_1" }), suc n);
  on_read = λ tx key n. (success (record { value = ""; found = false }), suc n);
  on_write = λ tx key value n. (success tt, suc n);
  on_delete = λ tx key n. (success tt, suc n);
  on_commit = λ tx n. (success tt, suc n);
  on_abort = λ tx n. (success tt, suc n);
}

run_interactive-AsksOpen_example :
    AsksOpen
      (run_interactive
        (recording counting)
        ""
        (("start" ∷ []) ∷ ("write" ∷ "k" ∷ "v" ∷ []) ∷ ("commit" ∷ []) ∷ ("read" ∷ "k" ∷ []) ∷ [])
        (0, [])).1.1.1
run_interactive-AsksOpen_example =
    run_interactive-AsksOpen counting
      (("start" ∷ []) ∷ ("write" ∷ "k" ∷ "v" ∷ []) ∷ ("commit" ∷ []) ∷ ("read" ∷ "k" ∷ []) ∷ []) 0
