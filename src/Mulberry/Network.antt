-- ===== src/Mulberry/Network.antt =====
-- What internal/mulberry takes of google.golang.org/grpc and of the code that the build generates from
-- proto/shard.proto: connections, and the calls of a shard server over one. `W` is the state of the
-- network and of all that is behind it, `C` the type of a connection. Any two may answer anything.
use let_mil_go.Common.{ℕ, String, Option}
use let_mil_go.Rpc.{Status, Try}
use let_mil_go.Shard.State.{ReadReply, IsolationLevel}
use let_mil_go.Shard.Server.{PrepareResponse}

pub record Network (W C : Type 0) : Type 0 where
  -- grpc.NewClient
  pub new_client : String → W → Try Status C × W
  -- conn.Close; nil is `none`
  pub close : C → W → Option Status × W
  pub tx_start : C → String → ℕ → W → Try Status (Unit {0}) × W
  pub tx_read : C → String → String → ℕ → W → Try Status ReadReply × W
  pub tx_write : C → String → String → String → W → Try Status ℕ × W
  pub tx_delete : C → String → String → W → Try Status ℕ × W
  pub prepare : C → String → ℕ → IsolationLevel → W → Try Status PrepareResponse × W
  pub commit : C → String → ℕ → W → Try Status (Unit {0}) × W
  pub abort : C → String → W → Try Status (Unit {0}) × W
