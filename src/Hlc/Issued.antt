-- ===== src/Hlc/Issued.antt =====
-- The timestamps that successive calls of `Tick` of internal/hlc/hlc.go return.
use let_mil_go.Common.{ℕ, ◌+◌, ◌*◌, ◌^◌, ◌≤◌, ◌<◌, ◌≡◌, refl, List, [], ◌∷◌, arith, length}
use let_mil_go.Hlc.{Clock, tick, u64_mod}
use let_mil_go.Hlc.Order.{tick-eq-max}

-- One call of `Tick` for each reading of the time source.
pub ticks : List ℕ → Clock → List ℕ
ticks [] c = []
ticks (now ∷ later) c = (tick now c).0 ∷ ticks later (tick now c).1

-- Each entry lies above the one before it, and the first above the bound.
abbrev pub Increasing : ℕ → List ℕ → Type 0
Increasing low [] = Unit {0}
Increasing low (t ∷ ts) = (low < t) × Increasing t ts

-- Every reading leaves room for `n` more timestamps below 2 ^ 64.
abbrev pub Fits : ℕ → List ℕ → Type 0
Fits n [] = Unit {0}
Fits n (now ∷ later) = (now * 2 ^ 16 + n < u64_mod) × Fits n later

pub ts-tick : (now : ℕ) (c : Clock) → (tick now c).1.ts ≡ (tick now c).0
unfolding tick
ts-tick now c = refl

ticks-Increasing_room :
    (n : ℕ) (readings : List ℕ) (c : Clock)
    → length readings ≤ n
    → c.ts + length readings < u64_mod
    → Fits n readings
    → Increasing c.ts (ticks readings c)
unfolding ticks
ticks-Increasing_room n [] c fits room f = tt
ticks-Increasing_room n (now ∷ later) c fits room f =
    let e = tick-eq-max now c (omega arith) (omega arith) in
    let rest =
      ticks-Increasing_room n later (tick now c).1 (omega arith) (omega (arith, e, ts-tick now c))
        f.1 in
    (omega (arith, e), rw (ts-tick now c) at rest)

-- Whatever the time source returns, also when it stands still or steps back, successive calls of
-- `Tick` return strictly increasing timestamps, none of them reused, as long as the
-- clock and every reading leave room for all of them in 64 bits.
pub ticks-Increasing :
    (readings : List ℕ) (c : Clock)
    → c.ts + length readings < u64_mod
    → Fits (length readings) readings
    → Increasing c.ts (ticks readings c)
ticks-Increasing readings c room f =
    ticks-Increasing_room (length readings) readings c (omega arith) room f
