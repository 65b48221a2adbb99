-- ===== src/Hlc/Exhausted.antt =====
-- `Update` of internal/hlc/hlc.go when the logical counter has no room left.
use Prim.Native.Nat.{max}
use let_mil_go.Common.{ℕ, ◌+◌, ◌*◌, ◌/◌, ◌%◌, ◌^◌, ◌≤◌, ◌<◌, ◌≡◌, arith}
use let_mil_go.Hlc.{Clock, physical, logical, next_logical, update, max_logical, u64_mod}
use let_mil_go.Hlc.Order.{logical_lem, update_value}

-- The counter wraps to 0: the `+ 1` of the switch is a uint16 sum.
next_logical_full :
    (m a b c l l' : ℕ)
    → m ≡ max b c
    → a ≤ m
    → l < 2 ^ 16
    → l' < 2 ^ 16
    → max (b * 2 ^ 16 + l) (c * 2 ^ 16 + l') % 2 ^ 16 ≡ max_logical
    → m * 2 ^ 16 + next_logical m a b c l l' + max_logical ≡ max (b * 2 ^ 16 + l) (c * 2 ^ 16 + l')
unfolding next_logical
next_logical_full m a b c l l' e k h h' full = ground arith

-- When the greater of the local and the incoming timestamp has the logical counter 65535 and the
-- physical time has not passed it, `Update` returns a timestamp 65535 below it.
pub update_backwards :
    (now incoming : ℕ) (c : Clock)
    → c.ts < u64_mod
    → incoming < u64_mod
    → logical (max c.ts incoming) ≡ max_logical
    → now ≤ physical (max c.ts incoming)
    → (update now incoming c).0 + max_logical ≡ max c.ts incoming
unfolding physical
update_backwards now incoming c k k' full late =
    let a = c.ts / 2 ^ 16 in
    let b = incoming / 2 ^ 16 in
    let l = c.ts % 2 ^ 16 in
    let l' = incoming % 2 ^ 16 in
    let m = max now (max a b) in
    let split : c.ts ≡ a * 2 ^ 16 + l = omega arith in
    let split' : incoming ≡ b * 2 ^ 16 + l' = omega arith in
    let full' : max (a * 2 ^ 16 + l) (b * 2 ^ 16 + l') % 2 ^ 16 ≡ max_logical =
      omega (arith, logical_lem (max c.ts incoming)) in
    omega (
      arith,
      update_value now incoming c,
      next_logical_full m now a b l l' (omega arith) (omega arith) (omega arith) (omega arith)
          full',
    )
