-- ===== src/Client/Recorded.antt =====
-- Which transactions the session of cmd/client/main.go sends its requests for.
use let_mil_go.Common.{
  ◌≡◌, refl, inl, inr, String, false, ◌||◌, List, [], ◌∷◌, subst, sym, ◌==◌, ==_iff, string_eq,
  Bool-cases,
}
use let_mil_go.Client.{
  Service, BeginTransactionResponse, given, Turn, after_start, after_read, after_change, after_end,
  read_key, write_key, delete_key, dispatch, turn, run_interactive,
}
use let_mil_go.Shard.State.{isolation_si}
use let_mil_go.Client.Session.{opens, idle_turn}
use let_mil_go.Client
use let_mil_go.Client.Following.{
  Sent, recorded, recording, AsksOpen, Follows, asked-Follows, TurnFollows, after_read-Follows,
  after_change-Follows, given-Follows, after_end-Follows, after_start-Follows, stays-Follows,
}

module _ {W : Type 0} (service : Service W) where
  read_key-Follows :
      (tx : String) (args : List String) (w : W) (log : List Sent)
      → Follows tx log
      → (tx == "") ≡ false
      → TurnFollows (read_key (recording service) tx args (w, log))
  unfolding read_key Client.read
  read_key-Follows tx [] w log h has = record { follows = h }
  read_key-Follows tx (key ∷ _) w log h has =
      after_read-Follows tx (Client.read (recording service) tx key (w, log)) (
        given-Follows (λ resp. (resp.value, resp.found)) tx
          (recorded tx log (service.on_read tx key w)) (asked-Follows tx log has h))

  write_key-Follows :
      (tx : String) (args : List String) (w : W) (log : List Sent)
      → Follows tx log
      → (tx == "") ≡ false
      → TurnFollows (write_key (recording service) tx args (w, log))
  unfolding write_key Client.write
  write_key-Follows tx [] w log h has = record { follows = h }
  write_key-Follows tx (key ∷ []) w log h has = record { follows = h }
  write_key-Follows tx (key ∷ x ∷ more) w log h has = after_change-Follows tx _ (
      given-Follows _ tx
        (recorded tx log (service.on_write tx key (Client.join_fields (x ∷ more)) w))
        (asked-Follows tx log has h))

  delete_key-Follows :
      (tx : String) (args : List String) (w : W) (log : List Sent)
      → Follows tx log
      → (tx == "") ≡ false
      → TurnFollows (delete_key (recording service) tx args (w, log))
  unfolding delete_key Client.delete
  delete_key-Follows tx [] w log h has = record { follows = h }
  delete_key-Follows tx (key ∷ _) w log h has = after_change-Follows tx _ (
      given-Follows _ tx (recorded tx log (service.on_delete tx key w))
        (asked-Follows tx log has h))

  -- the switch, in a transaction
  dispatch-Follows :
      (op tx : String) (args : List String) (w : W) (log : List Sent)
      → Follows tx log
      → (tx == "") ≡ false
      → TurnFollows (dispatch (recording service) op tx args (w, log))
  unfolding dispatch Client.begin_transaction Client.commit Client.abort
  dispatch-Follows op tx args w log h has =
      elim (Bool-cases (op == "q" || (op == "quit" || op == "exit"))) [
        | inl hit ↦ rw (hit, dispatch) (stays-Follows tx w log h)
        | inr a ↦ elim (Bool-cases (op == "start" || op == "begin")) [
          | inl hit ↦
              rw (a, hit, dispatch) (after_start-Follows tx log (service.on_begin isolation_si w) h)
          | inr b ↦ elim (Bool-cases (op == "read")) [
            | inl hit ↦ rw (a, b, hit, has, dispatch) (read_key-Follows tx args w log h has)
            | inr c ↦ elim (Bool-cases (op == "write")) [
              | inl hit ↦ rw (a, b, c, hit, has, dispatch) (write_key-Follows tx args w log h has)
              | inr d ↦ elim (Bool-cases (op == "delete")) [
                | inl hit ↦
                    rw (a, b, c, d, hit, has, dispatch) (delete_key-Follows tx args w log h has)
                | inr e ↦ elim (Bool-cases (op == "commit")) [
                  | inl hit ↦
                      rw (a, b, c, d, e, hit, has, dispatch)
                        (after_end-Follows "Committed" tx log (service.on_commit tx w)
                          (asked-Follows tx log has h))
                  | inr f ↦ elim (Bool-cases (op == "abort")) [
                    | inl hit ↦
                        rw (a, b, c, d, e, f, hit, has, dispatch)
                          (after_end-Follows "Aborted" tx log (service.on_abort tx w)
                            (asked-Follows tx log has h))
                    | inr g ↦ rw (a, b, c, d, e, f, g, dispatch) (stays-Follows tx w log h)
                  ]
                ]
              ]
            ]
          ]
        ]
      ]

  -- a turn without a transaction
  idle-Follows :
      (line : List String) (w : W) (log : List Sent)
      → Follows "" log
      → TurnFollows (turn (recording service) "" line (w, log))
  unfolding turn dispatch Client.begin_transaction
  idle-Follows [] w log h = stays-Follows "" w log h
  idle-Follows (op ∷ args) w log h = elim (Bool-cases (opens (op ∷ args))) [
    | inr idle ↦
        let (world, tx) = idle_turn (recording service) (op ∷ args) (w, log) idle in
        record { follows = rw (world, tx) h }
    | inl starts ↦ elim (Bool-cases (op == "q" || (op == "quit" || op == "exit"))) [
      | inl leaves ↦ rw (leaves, dispatch) (stays-Follows "" w log h)
      | inr more ↦
          rw (more, starts, dispatch)
            (after_start-Follows "" log (service.on_begin isolation_si w) h)
    ]
  ]

  turn-Follows :
      (line : List String) (tx : String) (w : W) (log : List Sent)
      → Follows tx log
      → TurnFollows (turn (recording service) tx line (w, log))
  unfolding turn
  turn-Follows [] tx w log h = record { follows = h }
  turn-Follows (op ∷ args) tx w log h = elim (Bool-cases (tx == "")) [
    | inl none_yet ↦
        let e : tx ≡ "" = (==_iff tx "").0 none_yet in
        subst (λ t. TurnFollows (dispatch (recording service) op t args (w, log))) (sym e)
          (unfold turn in idle-Follows (op ∷ args) w log (subst (λ t. Follows t log) e h))
    | inr has ↦ dispatch-Follows op tx args w log h has
  ]

  run_interactive-Follows :
      (lines : List (List String)) (tx : String) (w : W) (log : List Sent)
      → Follows tx log
      → AsksOpen (run_interactive (recording service) tx lines (w, log)).1.1.1
  unfolding run_interactive
  run_interactive-Follows [] tx w log h = h.0
  run_interactive-Follows (line ∷ rest) tx w log h =
      let t = turn (recording service) tx line (w, log) in
      let now = turn-Follows line tx w log h in
      elim (Bool-cases t.quits) [
        | inl over ↦ rw (over, run_interactive) now.follows.0
        | inr more ↦
            rw (more, run_interactive)
              (run_interactive-Follows rest t.current_tx t.world.0 t.world.1 now.follows)
      ]

  -- Whatever lines a session is given, and whatever the service answers, each of its requests to read,
  -- write, delete, commit or abort is for the transaction that it has begun last, and none is sent for
  -- one that was committed or aborted with success.
  pub run_interactive-AsksOpen :
      (lines : List (List String)) (w : W)
      → AsksOpen (run_interactive (recording service) "" lines (w, [])).1.1.1
  run_interactive-AsksOpen lines w = run_interactive-Follows lines "" w [] (tt, inl refl)
