-- ===== src/Client.antt =====
-- internal/client/client.go and cmd/client/main.go: the command-line client. The service that it calls
-- is a parameter; a line of input is given by its fields, and an error by its text.
pub mod OneShot
pub mod Session
pub mod Following
pub mod Recorded
use Prim.Native.String as Text
use let_mil_go.Common.{
  ℕ, String, Bool, true, false, not, ◌||◌, List, [], ◌∷◌, ◌==◌, string_eq, if◌then◌else◌,
}
use let_mil_go.Rpc.{Try, success, failure}
use let_mil_go.Shard.State.{IsolationLevel, isolation_si}

pub record BeginTransactionResponse : Type 0 where
  pub tx_id : String

pub record ReadResponse : Type 0 where
  pub value : String
  pub found : Bool

-- mulberrypb.MulberryServiceClient, which the build generates from proto/mulberry.proto
pub record Service (W : Type 0) : Type 0 where
  pub on_begin : IsolationLevel → W → Try String BeginTransactionResponse × W
  pub on_read : String → String → W → Try String ReadResponse × W
  pub on_write : String → String → String → W → Try String (Unit {0}) × W
  pub on_delete : String → String → W → Try String (Unit {0}) × W
  pub on_commit : String → W → Try String (Unit {0}) × W
  pub on_abort : String → W → Try String (Unit {0}) × W

module _ {W : Type 0} where
  -- what the caller is given of a response
  abbrev pub given : {A B : Type 0} → (A → B) → Try String A × W → Try String B × W
  given f (success a, w) = (success (f a), w)
  given f (failure e, w) = (failure e, w)

  unfoldable pub begin_transaction : Service W → IsolationLevel → W → Try String String × W
  begin_transaction c isolation w = given (λ resp. resp.tx_id) (c.on_begin isolation w)

  unfoldable pub read : Service W → String → String → W → Try String (String × Bool) × W
  read c tx_id key w = given (λ resp. (resp.value, resp.found)) (c.on_read tx_id key w)

  unfoldable pub write : Service W → String → String → String → W → Try String (Unit {0}) × W
  write c tx_id key value w = given (λ _. tt) (c.on_write tx_id key value w)

  unfoldable pub delete : Service W → String → String → W → Try String (Unit {0}) × W
  delete c tx_id key w = given (λ _. tt) (c.on_delete tx_id key w)

  unfoldable pub commit : Service W → String → W → Try String (Unit {0}) × W
  commit c tx_id w = given (λ _. tt) (c.on_commit tx_id w)

  unfoldable pub abort : Service W → String → W → Try String (Unit {0}) × W
  abort c tx_id w = given (λ _. tt) (c.on_abort tx_id w)

-- the loop of `start` of the resolver: the addresses between the commas, without the empty ones
unfoldable pub resolve : List String → List String
resolve [] = []
resolve (addr ∷ rest) = let addrs = resolve rest in if addr == "" then addrs else addr ∷ addrs

-- a turn of the loop: the line that it prints, the transaction after it, and whether it is the last
pub record Turn (W : Type 0) : Type 0 where
  pub printed : String
  pub current_tx : String
  pub world : W
  pub quits : Bool

-- strings.Join(…, " ")
unfoldable pub join_fields : List String → String
join_fields [] = ""
join_fields (x ∷ []) = x
join_fields (x ∷ y ∷ rest) = Text.◌++◌ x (Text.◌++◌ " " (join_fields (y ∷ rest)))

abbrev pub error_line : String → String
error_line e = Text.◌++◌ "Error: " e

abbrev pub no_transaction : String
no_transaction = "Error: No active transaction. Use 'start' first."

abbrev pub no_active : String
no_active = "Error: No active transaction."

module _ {W : Type 0} where
  -- a turn that leaves the transaction
  abbrev pub say : String → String → W → Turn W
  say line tx w = record { printed = line; current_tx = tx; world = w; quits = false }

  unfoldable pub after_start : String → Try String String × W → Turn W
  after_start tx (success tid, w) = say (Text.◌++◌ "Transaction started: " tid) tid w
  after_start tx (failure e, w) = say (error_line e) tx w

  unfoldable pub after_read : String → Try String (String × Bool) × W → Turn W
  after_read tx (success (value, true), w) = say value tx w
  after_read tx (success (value, false), w) = say "<not found>" tx w
  after_read tx (failure e, w) = say (error_line e) tx w

  unfoldable pub after_change : String → Try String (Unit {0}) × W → Turn W
  after_change tx (success _, w) = say "OK" tx w
  after_change tx (failure e, w) = say (error_line e) tx w

  -- the end of a transaction, with the word for it
  unfoldable pub after_end : String → String → Try String (Unit {0}) × W → Turn W
  after_end word tx (success _, w) = say word "" w
  after_end word tx (failure e, w) = say (error_line e) tx w

  -- a command with its key and the fields after that, in a transaction
  unfoldable pub read_key : Service W → String → List String → W → Turn W
  unfolding after_read
  read_key service tx [] w = say "Usage: read <key>" tx w
  read_key service tx (key ∷ _) w = after_read tx (read service tx key w)

  unfoldable pub write_key : Service W → String → List String → W → Turn W
  unfolding after_change join_fields
  write_key service tx (key ∷ x ∷ more) w =
      after_change tx (write service tx key (join_fields (x ∷ more)) w)
  write_key service tx _ w = say "Usage: write <key> <value>" tx w

  unfoldable pub delete_key : Service W → String → List String → W → Turn W
  unfolding after_change
  delete_key service tx [] w = say "Usage: delete <key>" tx w
  delete_key service tx (key ∷ _) w = after_change tx (delete service tx key w)

  -- the switch on the first field
  unfoldable pub dispatch : Service W → String → String → List String → W → Turn W
  unfolding after_start read_key write_key delete_key after_end
  dispatch service op tx args w =
      if op == "q" || (op == "quit" || op == "exit")
      then record { printed = ""; current_tx = tx; world = w; quits = true }
      else if op == "start" || op == "begin"
      then after_start tx (begin_transaction service isolation_si w)
      else if op == "read"
      then if tx == "" then say no_transaction tx w else read_key service tx args w
      else if op == "write"
      then if tx == "" then say no_transaction tx w else write_key service tx args w
      else if op == "delete"
      then if tx == "" then say no_transaction tx w else delete_key service tx args w
      else if op == "commit"
      then if tx == "" then say no_active tx w else after_end "Committed" tx (commit service tx w)
      else if op == "abort"
      then if tx == "" then say no_active tx w else after_end "Aborted" tx (abort service tx w)
      else say "Unknown command" tx w

  -- a round of `runInteractive`, for a line with these fields
  unfoldable pub turn : Service W → String → List String → W → Turn W
  unfolding dispatch
  turn service tx [] w = say "" tx w
  turn service tx (op ∷ args) w = dispatch service op tx args w

  -- `runInteractive`, until the lines end or one quits: what it prints, the transaction and the world
  unfoldable pub run_interactive :
      Service W → String → List (List String) → W → List String × (String × W)
  unfolding turn
  run_interactive service tx [] w = ([], (tx, w))
  run_interactive service tx (line ∷ rest) w =
      let t = turn service tx line w in
      let later = run_interactive service t.current_tx rest t.world in
      elim t.quits [ true ↦ ([], (t.current_tx, t.world)) | false ↦ (t.printed ∷ later.0, later.1) ]
