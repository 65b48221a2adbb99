-- ===== src/Errors.antt =====
-- The sentinel errors of internal/shard/component (store.go, lock.go, shard.go), and a call's result.
use let_mil_go.Common.{◌≡◌, ◌⊎◌, inl, inr, refl}

-- `panic` is no error of the source: it stands for a Go run-time panic, such as an index out of
-- range or a nil pointer that is read.
pub data Error : Type 0 where
  key_not_found version_not_found version_conflict : Error
  lock_conflict lock_not_held deadlock : Error
  tx_already_exists tx_not_found tx_no_ops : Error
  panic : Error

pub data Result {ℓ} (A : Type ℓ) : Type ℓ where
  ok : A → Result A
  err : Error → Result A

pub Result-cases {ℓ} :
    {A : Type ℓ} (r : Result A) → ((a : A) × (r ≡ ok a)) ⊎ ((e : Error) × (r ≡ err e))
Result-cases (ok a) = inl (a, refl)
Result-cases (err e) = inr (e, refl)
