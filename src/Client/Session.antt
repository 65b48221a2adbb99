-- ===== src/Client/Session.antt =====
-- What the loop of cmd/client/main.go sends to the service.
use let_mil_go.Common.{
  ◌≡◌, inl, inr, refl, String, Bool, false, ◌||◌, List, [], ◌∷◌, arith, All, ◌==◌, string_eq,
  Bool-cases,
}
use let_mil_go.Client.{Service, turn, dispatch, run_interactive}

-- whether a line asks for a transaction
abbrev pub opens : List String → Bool
opens [] = false
opens (op ∷ _) = op == "start" || op == "begin"

module _ {W : Type 0} (service : Service W) where
  pub idle_turn :
      (line : List String) (w : W)
      → opens line ≡ false
      → ((turn service "" line w).world ≡ w) × ((turn service "" line w).current_tx ≡ "")
  unfolding turn dispatch
  idle_turn [] w h = (refl, refl)
  idle_turn (op ∷ args) w h = (ground (arith, h), ground (arith, h))

  -- A session without a transaction sends nothing to the service, whatever lines it is given, until
  -- one of them starts a transaction.
  pub idle_session :
      (lines : List (List String)) (w : W)
      → All (λ line. opens line ≡ false) lines
      → (run_interactive service "" lines w).1 ≡ ("", w)
  unfolding run_interactive
  idle_session [] w a = refl
  idle_session (line ∷ rest) w (h, a) =
      let (same, none_yet) = idle_turn line w h in
      elim (Bool-cases (turn service "" line w).quits) [
        | inl over ↦ rw (over, run_interactive) (ground (arith, same, none_yet))
        | inr more ↦ rw (more, run_interactive) (rw (same, none_yet) (idle_session rest w a))
      ]
