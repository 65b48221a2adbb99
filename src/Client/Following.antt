-- ===== src/Client/Following.antt =====
-- A session of cmd/client/main.go over a service that records, one answer at a time.
use let_mil_go.Common.{
  ◌≡◌, refl, ◌⊎◌, inl, inr, String, Bool, true, false, Option, none, some, List, [], ◌∷◌, ◌==◌,
  ==_iff, string_eq,
}
use let_mil_go.Rpc.{Try, success, failure}
use let_mil_go.Client.{
  Service, BeginTransactionResponse, given, Turn, after_start, after_read, after_change, after_end,
}

-- what a session has sent, and what has come of it
pub data Sent : Type 0 where
  begun asked ended : String → Sent

-- a service that records, the latest first: a transaction that was begun, a request for one, and one
-- that was committed or aborted
abbrev begun_or_not :
    {W : Type 0}
    → List Sent
    → Try String BeginTransactionResponse × W
    → Try String BeginTransactionResponse × (W × List Sent)
begun_or_not log (success resp, w) = (success resp, (w, begun resp.tx_id ∷ log))
begun_or_not log (failure e, w) = (failure e, (w, log))

abbrev ended_or_not :
    {W : Type 0}
    → String
    → List Sent
    → Try String (Unit {0}) × W
    → Try String (Unit {0}) × (W × List Sent)
ended_or_not tx log (success u, w) = (success u, (w, ended tx ∷ asked tx ∷ log))
ended_or_not tx log (failure e, w) = (failure e, (w, asked tx ∷ log))

abbrev pub recorded : {A W : Type 0} → String → List Sent → A × W → A × (W × List Sent)
recorded tx log (reply, w) = (reply, (w, asked tx ∷ log))

abbrev pub recording : {W : Type 0} → Service W → Service (W × List Sent)
recording service = record {
  on_begin = λ iso (w, log). begun_or_not log (service.on_begin iso w);
  on_read = λ tx key (w, log). recorded tx log (service.on_read tx key w);
  on_write = λ tx key value (w, log). recorded tx log (service.on_write tx key value w);
  on_delete = λ tx key (w, log). recorded tx log (service.on_delete tx key w);
  on_commit = λ tx (w, log). ended_or_not tx log (service.on_commit tx w);
  on_abort = λ tx (w, log). ended_or_not tx log (service.on_abort tx w);
}

-- the transaction that was begun last, unless it has ended
abbrev pub open_tx : List Sent → Option String
open_tx [] = none
open_tx (begun t ∷ _) = some t
open_tx (asked _ ∷ log) = open_tx log
open_tx (ended _ ∷ _) = none

-- every request was for the transaction that was open then
abbrev pub AsksOpen : List Sent → Type 0
AsksOpen [] = Unit
AsksOpen (asked t ∷ log) = (open_tx log ≡ some t) × AsksOpen log
AsksOpen (begun _ ∷ log) = AsksOpen log
AsksOpen (ended _ ∷ log) = AsksOpen log

-- the session has no transaction, or the open one
abbrev pub Follows : String → List Sent → Type 0
Follows tx log = AsksOpen log × ((tx ≡ "") ⊎ (open_tx log ≡ some tx))

-- a request for the transaction of the session
pub asked-Follows :
    (tx : String) (log : List Sent)
    → (tx == "") ≡ false
    → Follows tx log
    → Follows tx (asked tx ∷ log)
asked-Follows tx log has (a, inl none_yet) = absurd (cc (has, (==_iff tx "").1 none_yet))
asked-Follows tx log has (a, inr current) = ((current, a), inr current)

module _ {W : Type 0} where
  pub record TurnFollows (t : Turn (W × List Sent)) : Type 0 where
    pub follows : Follows t.current_tx t.world.1

  pub after_read-Follows :
      (tx : String) (p : Try String (String × Bool) × (W × List Sent))
      → Follows tx p.1.1
      → TurnFollows (after_read tx p)
  unfolding after_read
  after_read-Follows tx (success (value, true), w) h = record { follows = h }
  after_read-Follows tx (success (value, false), w) h = record { follows = h }
  after_read-Follows tx (failure e, w) h = record { follows = h }

  pub after_change-Follows :
      (tx : String) (p : Try String (Unit {0}) × (W × List Sent))
      → Follows tx p.1.1
      → TurnFollows (after_change tx p)
  unfolding after_change
  after_change-Follows tx (success u, w) h = record { follows = h }
  after_change-Follows tx (failure e, w) h = record { follows = h }

  -- what the caller is given comes with the same record
  pub given-Follows :
      {A B : Type 0} (f : A → B) (tx : String) (p : Try String A × (W × List Sent))
      → Follows tx p.1.1
      → Follows tx (given f p).1.1
  given-Follows f tx (success a, w) h = h
  given-Follows f tx (failure e, w) h = h

  pub after_end-Follows :
      (word tx : String) (log : List Sent) (p : Try String (Unit {0}) × W)
      → Follows tx (asked tx ∷ log)
      → TurnFollows (after_end word tx (given (λ _. tt) (ended_or_not tx log p)))
  unfolding after_end
  after_end-Follows word tx log (success u, w) (a, _) = record { follows = (a, inl refl) }
  after_end-Follows word tx log (failure e, w) h = record { follows = h }

  pub after_start-Follows :
      (tx : String) (log : List Sent) (p : Try String BeginTransactionResponse × W)
      → Follows tx log
      → TurnFollows (after_start tx (given (λ resp. resp.tx_id) (begun_or_not log p)))
  unfolding after_start
  after_start-Follows tx log (success resp, w) (a, _) = record { follows = (a, inr refl) }
  after_start-Follows tx log (failure e, w) h = record { follows = h }

  -- a line that sends nothing
  pub stays-Follows :
      {line : String} {quits : Bool} (tx : String) (w : W) (log : List Sent)
      → Follows tx log
      → TurnFollows (record { printed = line; current_tx = tx; world = (w, log); quits = quits })
  stays-Follows tx w log h = record { follows = h }
