-- ===== src/Hlc.antt =====
-- internal/hlc/hlc.go: the hybrid logical clock. A uint64 and a uint16 are natural numbers that
-- wrap; the clock's time source `nowFn` is an argument of each call that reads it. The mutex makes
-- each method one step.
mod Bits
pub mod Order
pub mod Exhausted
pub mod Issued
use Prim.Native.Nat.{max, bit_or, bit_and}
use let_mil_go.Common.{
  ℕ, ◌+◌, ◌-◌, ◌*◌, ◌/◌, ◌%◌, ◌^◌, Bool, ◌&&◌, ltb, leb, ◌==◌, nat_eq, if◌then◌else◌,
}

abbrev pub logical_bits : ℕ
logical_bits = 16

abbrev pub logical_mask : ℕ
logical_mask = 2 ^ logical_bits - 1

abbrev pub max_logical : ℕ
max_logical = logical_mask

abbrev pub u64_mod : ℕ
u64_mod = 2 ^ 64

abbrev pub u16_mod : ℕ
u16_mod = 2 ^ 16

pub record Clock : Type 0 where
  pub ts : ℕ

unfoldable pub compose : ℕ → ℕ → ℕ
compose physical logical = bit_or (physical * 2 ^ logical_bits % u64_mod) logical

unfoldable pub physical : ℕ → ℕ
physical ts = ts / 2 ^ logical_bits

unfoldable pub logical : ℕ → ℕ
logical ts = bit_and ts logical_mask % u16_mod

unfoldable pub max3 : ℕ → ℕ → ℕ → ℕ
max3 a b c = if leb b a && leb c a then a else if leb c b then b else c

unfoldable pub new_with_now_fn : Clock
new_with_now_fn = record { ts = 0 }

-- `now` is what `nowFn` returns.
unfoldable pub tick : ℕ → Clock → ℕ × Clock
tick now c =
    let phys_cur = physical c.ts in
    let log_cur = logical c.ts in
    let ts =
      if ltb phys_cur now
      then compose now 0
      else if ltb log_cur max_logical
      then compose phys_cur ((log_cur + 1) % u16_mod)
      else compose ((phys_cur + 1) % u64_mod) 0 in
    (ts, record { ts = ts })

-- The `switch` of `Update` on the greatest physical time: the new logical counter, a uint16.
unfoldable pub next_logical : ℕ → ℕ → ℕ → ℕ → ℕ → ℕ → ℕ
next_logical max_phys phys_now phys_local phys_incoming log_local log_incoming =
    if max_phys == phys_now
    then if phys_now == phys_local && phys_now == phys_incoming
      then (max log_local log_incoming + 1) % u16_mod
      else if phys_now == phys_local
      then (log_local + 1) % u16_mod
      else if phys_now == phys_incoming
      then (log_incoming + 1) % u16_mod
      else 0
    else if max_phys == phys_local
    then if phys_local == phys_incoming
      then (max log_local log_incoming + 1) % u16_mod
      else (log_local + 1) % u16_mod
    else (log_incoming + 1) % u16_mod

unfoldable pub update : ℕ → ℕ → Clock → ℕ × Clock
update now incoming c =
    let phys_local = physical c.ts in
    let phys_incoming = physical incoming in
    let max_phys = max3 now phys_local phys_incoming in
    let log_next =
      next_logical max_phys now phys_local phys_incoming (logical c.ts) (logical incoming) in
    let ts =
      if ltb max_logical log_next
      then compose ((max_phys + 1) % u64_mod) 0
      else compose max_phys log_next in
    (ts, record { ts = ts })

-- `Now`: the timestamp as it stands.
unfoldable pub now : Clock → ℕ
now c = c.ts
