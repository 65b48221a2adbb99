-- ===== src/Hlc/Bits.antt =====
-- The bit operations of the timestamp layout, `|` and `&` of internal/hlc/hlc.go, as arithmetic.
use Prim.Native.Nat.{
  ℕ, zero, suc, ◌+◌, ◌-◌, ◌*◌, ◌/◌, ◌%◌, ◌^◌, ◌≤◌, ◌<◌, min, max, bit_and, bit_or, digits,
  bit_and-bitwise, bit_or-bitwise,
}
use mathlib.Core.Path.{◌≡◌, refl, sym, ap, ◌∙◌, ◌≡⟨◌⟩◌, ◌∎}
use native.Mathlib.Omega.{arith}
use native.Mathlib.Nat.{
  pow-suc, mul_assoc, mod-lt, mod-eq_of_lt, div-add-mod, add-mul-mod_self_left,
}

-- The two operations are one walk over the binary digits, with a digit operation and a rule for the
-- digits that are left when the first number is used up.
module _ (rest : ℕ → ℕ) (op : ℕ → ℕ → ℕ) where
  digits-zero : (fuel b : ℕ) → digits rest op fuel 0 b ≡ rest b
  digits-zero zero b = refl
  digits-zero (suc fuel) b = refl

  digits-enough :
      (a b fuel more : ℕ) → a ≤ fuel → a ≤ more → digits rest op fuel a b ≡ digits rest op more a b
  digits-enough zero b fuel more h k = digits-zero fuel b ∙ sym (digits-zero more b)
  digits-enough (suc a) b zero more h k = absurd (omega arith)
  digits-enough (suc a) b (suc fuel) zero h k = absurd (omega arith)
  digits-enough (suc a) b (suc fuel) (suc more) h k =
      let tail = digits-enough (suc a / 2) (b / 2) fuel more (omega arith) (omega arith) in
      omega (arith, tail)

  -- the walk takes the lowest digits off
  digits_step :
      ((b : ℕ) → rest b ≡ rest (b / 2) * 2 + op 0 (b % 2))
      → (a b : ℕ)
      → digits rest op a a b ≡ digits rest op (a / 2) (a / 2) (b / 2) * 2 + op (a % 2) (b % 2)
  digits_step left zero b = left b
  digits_step left (suc a) b =
      let half = suc a / 2 in
      let tail = digits-enough half (b / 2) a half (omega arith) (omega arith) in
      ap (λ t. t * 2 + op (suc a % 2) (b % 2)) tail

and_step : (a b : ℕ) → bit_and a b ≡ bit_and (a / 2) (b / 2) * 2 + min (a % 2) (b % 2)
and_step a b =
    rw (bit_and-bitwise a b, bit_and-bitwise (a / 2) (b / 2))
      (digits_step (λ _. zero) min (λ c. omega arith) a b)

or_step : (a b : ℕ) → bit_or a b ≡ bit_or (a / 2) (b / 2) * 2 + max (a % 2) (b % 2)
or_step a b =
    rw (bit_or-bitwise a b, bit_or-bitwise (a / 2) (b / 2))
      (digits_step (λ c. c) max (λ c. omega arith) a b)

-- both operations with 0 on the right, for all numbers up to a bound
with_zero : (bound a : ℕ) → a ≤ bound → (bit_and a 0 ≡ 0) × (bit_or a 0 ≡ a)
with_zero bound zero h = (bit_and-bitwise 0 0, bit_or-bitwise 0 0)
with_zero zero (suc a) h = absurd (omega arith)
with_zero (suc bound) (suc a) h =
    let ih = with_zero bound (suc a / 2) (omega arith) in
    (omega (arith, and_step (suc a) 0, ih.0), omega (arith, or_step (suc a) 0, ih.1))

pow-pos : (k : ℕ) → 1 ≤ 2 ^ k
pow-pos zero = omega arith
pow-pos (suc k) = rw (pow-suc 2 k) (omega (arith, pow-pos k))

-- The remainder by twice `m`, one digit at a time.
mod-mul_two : (a m : ℕ) → 0 < m → a % (m * 2) ≡ a / 2 % m * 2 + a % 2
mod-mul_two a m h =
    a % (m * 2)
    ≡⟨ ap (λ t. t % (m * 2)) split ⟩ (low + m * 2 * (a / 2 / m)) % (m * 2)
    ≡⟨ add-mul-mod_self_left low (m * 2) (a / 2 / m) ⟩ low % (m * 2)
    ≡⟨ mod-eq_of_lt (omega (arith, mod-lt (a / 2) h)) ⟩ low ∎
  where
    low : ℕ
    low = a / 2 % m * 2 + a % 2

    split : a ≡ low + m * 2 * (a / 2 / m)
    split = omega (arith, div-add-mod (a / 2) m)

-- A mask of `k` ones keeps the low `k` digits.
pub bit_and-mask : (k a : ℕ) → bit_and a (2 ^ k - 1) ≡ a % 2 ^ k
bit_and-mask zero a = omega (arith, (with_zero a a (omega arith)).0)
bit_and-mask (suc k) a = rw (pow-suc 2 k) (
    omega (
      arith,
      pow-pos k,
      and_step a (2 ^ k * 2 - 1),
      ap (bit_and (a / 2)) halved,
      bit_and-mask k (a / 2),
      mod-mul_two a (2 ^ k) (pow-pos k),
    ))
  where
    halved : (2 ^ k * 2 - 1) / 2 ≡ 2 ^ k - 1
    halved = omega (arith, pow-pos k)

-- Two numbers whose digits do not overlap are joined by addition.
pub bit_or-disjoint : (k a b : ℕ) → b < 2 ^ k → bit_or (a * 2 ^ k) b ≡ a * 2 ^ k + b
bit_or-disjoint zero a b h =
    let e : b ≡ 0 = omega arith in rw e (omega (arith, (with_zero (a * 1) (a * 1) (omega arith)).1))
bit_or-disjoint (suc k) a b h = omega (
  arith,
  pow-suc 2 k,
  twice,
  or_step (a * 2 ^ suc k) b,
  ap (λ t. bit_or t (b / 2)) halved,
  bit_or-disjoint k a (b / 2) (omega (arith, pow-suc 2 k)),
)
  where
    twice : a * 2 ^ suc k ≡ a * 2 ^ k * 2
    twice = rw (pow-suc 2 k) (sym (mul_assoc a (2 ^ k) 2))

    halved : a * 2 ^ suc k / 2 ≡ a * 2 ^ k
    halved = omega (arith, twice)
