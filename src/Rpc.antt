-- ===== src/Rpc.antt =====
-- What google.golang.org/grpc gives the servers and the clients of the program: status codes, and the
-- outcome of a call.
use let_mil_go.Common.{◌≡◌, ◌⊎◌, inl, inr, refl, String}

-- the codes of google.golang.org/grpc/codes that the program or a failing network returns
pub data Code : Type 0 where
  code_not_found code_already_exists code_aborted code_internal code_unavailable : Code

-- status.Error
pub record Status : Type 0 where
  pub code : Code
  pub message : String

-- Go's pair of a result and an error, of which one is set
pub data Try (E A : Type 0) : Type 0 where
  success : A → Try E A
  failure : E → Try E A

pub Try-cases :
    {E A : Type 0} (r : Try E A) → ((a : A) × (r ≡ success a)) ⊎ ((e : E) × (r ≡ failure e))
Try-cases (success a) = inl (a, refl)
Try-cases (failure e) = inr (e, refl)
