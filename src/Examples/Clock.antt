-- ===== src/Examples/Clock.antt =====
-- Concrete timestamps of internal/hlc/hlc.go.
use Prim.Native.Nat.{max}
use let_mil_go.Common.{suc, ◌+◌, ◌*◌, ◌^◌, ◌<◌, ◌≡◌, refl, inl, [], ◌∷◌, arith}
use let_mil_go.Hlc.{Clock, physical, logical, tick, update, max_logical}
use let_mil_go.Hlc.Order.{tick-eq-max, update-eq-max}
use let_mil_go.Hlc.Exhausted.{update_backwards}
use let_mil_go.Hlc.Issued.{ticks, Increasing, ticks-Increasing}

-- physical time 3, logical counter 1
abbrev early : Clock
early = record { ts = 196609 }

-- physical time 3, logical counter 65535
abbrev full : Clock
full = record { ts = 262143 }

logical_full : logical full.ts ≡ max_logical
unfolding logical
logical_full = refl

logical_early : logical (max early.ts 131072) < max_logical
unfolding logical
logical_early = omega arith

physical_full : 2 < physical (max full.ts 7)
unfolding physical
physical_full = omega arith

tick-eq-max_example : (tick 3 full).0 ≡ max (3 * 2 ^ 16) (suc full.ts)
tick-eq-max_example = tick-eq-max 3 full (omega arith) (omega arith)

update-eq-max_example : (update 3 131072 early).0 ≡ max (3 * 2 ^ 16) (suc (max early.ts 131072))
update-eq-max_example =
    update-eq-max 3 131072 early (omega arith) (omega arith) (omega arith) (inl logical_early)

update_backwards_example : (update 2 7 full).0 + max_logical ≡ max full.ts 7
update_backwards_example =
    update_backwards 2 7 full (omega arith) (omega arith) logical_full
      (omega (arith, physical_full))

ticks-Increasing_example : Increasing early.ts (ticks (3 ∷ 2 ∷ 9 ∷ []) early)
ticks-Increasing_example =
    ticks-Increasing (3 ∷ 2 ∷ 9 ∷ []) early (omega arith)
      (omega arith, (omega arith, (omega arith, tt)))
