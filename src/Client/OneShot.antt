-- ===== src/Client/OneShot.antt =====
-- cmd/client/main.go: `runOneShot`, one command of the flags.
use let_mil_go.Common.{String, Bool, true, false, ◌||◌, ◌==◌, string_eq, if◌then◌else◌}
use let_mil_go.Rpc.{Try, success, failure}
use let_mil_go.Shard.State.{isolation_si}
use let_mil_go.Client.{Service}
use let_mil_go.Client

-- how the process ends: a line and status 0, an error and status 1, or the usage and status 1
pub data Exit : Type 0 where
  prints dies : String → Exit
  usage : Exit

module _ {W : Type 0} where
  unfoldable pub exit_of_id : Try String String × W → Exit × W
  exit_of_id (success tid, w) = (prints tid, w)
  exit_of_id (failure e, w) = (dies e, w)

  unfoldable pub exit_of_read : Try String (String × Bool) × W → Exit × W
  exit_of_read (success (value, true), w) = (prints value, w)
  exit_of_read (success (value, false), w) = (prints "<not found>", w)
  exit_of_read (failure e, w) = (dies e, w)

  unfoldable pub exit_of_call : String → Try String (Unit {0}) × W → Exit × W
  exit_of_call word (success _, w) = (prints word, w)
  exit_of_call word (failure e, w) = (dies e, w)

  unfoldable pub run_one_shot : Service W → String → String → String → String → W → Exit × W
  unfolding exit_of_id exit_of_read exit_of_call
  run_one_shot service cmd tx_id key val w =
      if cmd == "begin"
      then exit_of_id (Client.begin_transaction service isolation_si w)
      else if cmd == "read"
      then if tx_id == "" || key == ""
        then (dies "tx and key required", w)
        else exit_of_read (Client.read service tx_id key w)
      else if cmd == "write"
      then if tx_id == "" || key == ""
        then (dies "tx and key required", w)
        else exit_of_call "OK" (Client.write service tx_id key val w)
      else if cmd == "delete"
      then if tx_id == "" || key == ""
        then (dies "tx and key required", w)
        else exit_of_call "OK" (Client.delete service tx_id key w)
      else if cmd == "commit"
      then if tx_id == ""
        then (dies "tx required", w)
        else exit_of_call "Committed" (Client.commit service tx_id w)
      else if cmd == "abort"
      then if tx_id == ""
        then (dies "tx required", w)
        else exit_of_call "Aborted" (Client.abort service tx_id w)
      else (usage, w)
