-- ===== src/Hlc/Order.antt =====
-- The timestamps that internal/hlc/hlc.go hands out, and their order.
use Prim.Native.Nat.{max}
use let_mil_go.Common.{ℕ, suc, ◌+◌, ◌*◌, ◌/◌, ◌%◌, ◌^◌, ◌<◌, ◌≡◌, refl, ◌⊎◌, arith}
use let_mil_go.Hlc.Bits.{bit_and-mask, bit_or-disjoint}
use let_mil_go.Hlc.{
  Clock, compose, physical, logical, max3, next_logical, tick, update, max_logical, u64_mod,
}

pub compose_lem : (p l : ℕ) → l < 2 ^ 16 → compose p l ≡ p % 2 ^ 48 * 2 ^ 16 + l
unfolding compose
compose_lem p l h = rw shifted (bit_or-disjoint 16 (p % 2 ^ 48) l h)
  where
    shifted : p * 2 ^ 16 % u64_mod ≡ p % 2 ^ 48 * 2 ^ 16
    shifted = omega arith

pub logical_lem : (ts : ℕ) → logical ts ≡ ts % 2 ^ 16
unfolding logical
logical_lem ts = omega (arith, bit_and-mask 16 ts)

-- A timestamp of 64 bits is put together again from its physical time and its logical counter.
pub compose-physical-logical : (ts : ℕ) → ts < u64_mod → compose (physical ts) (logical ts) ≡ ts
unfolding physical
compose-physical-logical ts h =
    omega (arith, compose_lem (ts / 2 ^ 16) (logical ts), logical_lem ts)

-- While the physical time fits 48 bits and the last timestamp is not the greatest, `Tick` returns the
-- greater of the physical time, with an empty counter, and the number after the last timestamp.
pub tick-eq-max :
    (now : ℕ) (c : Clock)
    → now < 2 ^ 48
    → suc c.ts < u64_mod
    → (tick now c).0 ≡ max (now * 2 ^ 16) (suc c.ts)
unfolding tick physical
tick-eq-max now c h k = ground (
  arith,
  logical_lem c.ts,
  compose_lem now 0 (omega arith),
  compose_lem (c.ts / 2 ^ 16) ((logical c.ts + 1) % 2 ^ 16) (omega arith),
  compose_lem ((c.ts / 2 ^ 16 + 1) % 2 ^ 64) 0 (omega arith),
)

max3_lem : (a b c : ℕ) → max3 a b c ≡ max a (max b c)
unfolding max3
max3_lem a b c = ground arith

next_logical-lt : (m a b c l l' : ℕ) → next_logical m a b c l l' < 2 ^ 16
unfolding next_logical
next_logical-lt m a b c l l' = ground arith

-- The counter chosen by the switch, where the greater of the two timestamps has room for one more.
next_logical_room :
    (m a b c l l' : ℕ)
    → m ≡ max a (max b c)
    → l < 2 ^ 16
    → l' < 2 ^ 16
    → (max (b * 2 ^ 16 + l) (c * 2 ^ 16 + l') % 2 ^ 16 < max_logical) ⊎ (max b c < a)
    → m * 2 ^ 16 + next_logical m a b c l l'
      ≡ max (a * 2 ^ 16) (suc (max (b * 2 ^ 16 + l) (c * 2 ^ 16 + l')))
unfolding next_logical
next_logical_room m a b c l l' e h h' room = ground arith

-- Since the counter is a uint16, the test `logical > maxLogical` never succeeds.
pub update_value :
    (now incoming : ℕ) (c : Clock)
    → let p = max now (max (physical c.ts) (physical incoming)) in
      (update now incoming c).0
      ≡ p % 2 ^ 48 * 2 ^ 16
        + next_logical p now (physical c.ts) (physical incoming) (c.ts % 2 ^ 16) (incoming % 2 ^ 16)
unfolding update
update_value now incoming c =
    rw (← max3_lem now pl pi, ← logical_lem c.ts, ← logical_lem incoming)
      (ground (
        arith,
        next_logical-lt (max3 now pl pi) now pl pi (logical c.ts) (logical incoming),
        compose_lem (max3 now pl pi)
            (next_logical (max3 now pl pi) now pl pi (logical c.ts) (logical incoming)),
      ))
  where
    pl : ℕ
    pl = physical c.ts

    pi : ℕ
    pi = physical incoming

-- `Update` hands out the least timestamp that is past the local clock and the incoming one and not
-- behind the physical time, when the greater of the two has room in its logical counter, or the
-- physical time has passed it, and all times fit their width.
pub update-eq-max :
    (now incoming : ℕ) (c : Clock)
    → now < 2 ^ 48
    → c.ts < u64_mod
    → incoming < u64_mod
    → (logical (max c.ts incoming) < max_logical) ⊎ (physical (max c.ts incoming) < now)
    → (update now incoming c).0 ≡ max (now * 2 ^ 16) (suc (max c.ts incoming))
unfolding physical
update-eq-max now incoming c h k k' room =
    let a = c.ts / 2 ^ 16 in
    let b = incoming / 2 ^ 16 in
    let l = c.ts % 2 ^ 16 in
    let l' = incoming % 2 ^ 16 in
    let m = max now (max a b) in
    let split : c.ts ≡ a * 2 ^ 16 + l = omega arith in
    let split' : incoming ≡ b * 2 ^ 16 + l' = omega arith in
    let room' : (max (a * 2 ^ 16 + l) (b * 2 ^ 16 + l') % 2 ^ 16 < max_logical) ⊎ (max a b < now) =
      ground (arith, logical_lem (max c.ts incoming)) in
    omega (
      arith,
      update_value now incoming c,
      next_logical_room m now a b l l' refl (omega arith) (omega arith) room',
    )
