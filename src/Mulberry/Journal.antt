-- ===== src/Mulberry/Journal.antt =====
-- A network that keeps a journal of the two-phase commits which the router of internal/mulberry runs
-- over it: the answers to `Prepare`, and the requests of `Commit` and `Abort`, oldest first.
use let_mil_go.Common.{ℕ, ◌≡◌, refl, ap, Option, none, some, List, [], ◌∷◌, ◌++◌}
use let_mil_go.Mulberry.Network.{Network}
use let_mil_go.Mulberry.TwoPhase.{vote_of}

pub data Event (C : Type 0) : Type 0 where
  voted : C → Option ℕ → Event C
  commit_sent : C → ℕ → Event C
  abort_sent : C → Event C

pub record Journal (W C : Type 0) : Type 0 where
  pub world : W
  pub events : List (Event C)

module _ {W C : Type 0} where
  -- a call that is not in the journal
  abbrev pub unlisted : {A : Type 0} → (W → A × W) → Journal W C → A × Journal W C
  unlisted rpc j = let (a, w) = rpc j.world in (a, record j { world = w })

  -- a call that is
  abbrev pub listed : {A : Type 0} → (A → Event C) → (W → A × W) → Journal W C → A × Journal W C
  listed event rpc j =
      let (a, w) = rpc j.world in (a, record { world = w; events = j.events ++ event a ∷ [] })

  abbrev pub recording : Network W C → Network (Journal W C) C
  recording net = record {
    new_client = λ address. unlisted (net.new_client address);
    close = λ conn. unlisted (net.close conn);
    tx_start = λ conn t at. unlisted (net.tx_start conn t at);
    tx_read = λ conn t key at. unlisted (net.tx_read conn t key at);
    tx_write = λ conn t key value. unlisted (net.tx_write conn t key value);
    tx_delete = λ conn t key. unlisted (net.tx_delete conn t key);
    prepare =
        λ conn t at iso. listed (λ reply. voted conn (vote_of reply)) (net.prepare conn t at iso);
    commit = λ conn t at. listed (λ reply. commit_sent conn at) (net.commit conn t at);
    abort = λ conn t. listed (λ reply. abort_sent conn) (net.abort conn t);
  }

module _ {C : Type 0} where
  -- the times of the votes to commit
  unfoldable pub votes : List (Event C) → List ℕ
  votes [] = []
  votes (voted conn (some at) ∷ rest) = at ∷ votes rest
  votes (_ ∷ rest) = votes rest

  -- the times of the requests to commit
  unfoldable pub commits : List (Event C) → List ℕ
  commits [] = []
  commits (commit_sent conn at ∷ rest) = at ∷ commits rest
  commits (_ ∷ rest) = commits rest

  pub votes-append : (xs ys : List (Event C)) → votes (xs ++ ys) ≡ votes xs ++ votes ys
  unfolding votes
  votes-append [] ys = refl
  votes-append (voted conn (some at) ∷ rest) ys = ap (◌∷◌ at) (votes-append rest ys)
  votes-append (voted conn none ∷ rest) ys = votes-append rest ys
  votes-append (commit_sent conn at ∷ rest) ys = votes-append rest ys
  votes-append (abort_sent conn ∷ rest) ys = votes-append rest ys

  pub commits-append : (xs ys : List (Event C)) → commits (xs ++ ys) ≡ commits xs ++ commits ys
  unfolding commits
  commits-append [] ys = refl
  commits-append (commit_sent conn at ∷ rest) ys = ap (◌∷◌ at) (commits-append rest ys)
  commits-append (voted conn at ∷ rest) ys = commits-append rest ys
  commits-append (abort_sent conn ∷ rest) ys = commits-append rest ys
