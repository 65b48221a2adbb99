-- ===== src/Common/Numerals.antt =====
-- Decimals read back: what `%d` prints of a number is no other number's.
use Prim.Native.Nat.{ℕ, zero, suc, ◌+◌, ◌-◌, ◌*◌, ◌/◌, ◌%◌, ◌^◌, ◌<◌}
use Prim.Native.String as Text
use Prim.Native.String.{String}
use Prim.Native.Char.{code}
use mathlib.Core.Path.{◌≡◌, refl, ap, ◌∙◌}
use mathlib.Core.Logic.{inl, inr}
use native.Mathlib.Nat.{pow-suc}
use native.Mathlib.Omega.{arith}
use let_mil_go.Common.Tests.{ltb, nat_eq, Bool-cases}
use let_mil_go.Common.Decimal.{digit, decimal_in, decimal}

-- the number that a text of digits stands for, after what was read before
pub value_from : ℕ → String → ℕ
value_from n Text.[] = n
value_from n (Text.◌∷◌ c s) = value_from (n * 10 + (code c - 48)) s

value_from-append :
    (n : ℕ) (s t : String) → value_from n (Text.◌++◌ s t) ≡ value_from (value_from n s) t
unfolding value_from
value_from-append n Text.[] t = ap (value_from n) (λ i. Text.append.nil t i)
value_from-append n (Text.◌∷◌ c s) t =
    ap (value_from n) (λ i. Text.append.cons c s t i)
    ∙ value_from-append (n * 10 + (code c - 48)) s t

value_from-digit : (n d : ℕ) → d < 10 → value_from n (digit d) ≡ n * 10 + d
unfolding value_from digit
value_from-digit n zero h = refl
value_from-digit n (suc zero) h = refl
value_from-digit n (suc (suc zero)) h = refl
value_from-digit n (suc (suc (suc zero))) h = refl
value_from-digit n (suc (suc (suc (suc zero)))) h = refl
value_from-digit n (suc (suc (suc (suc (suc zero))))) h = refl
value_from-digit n (suc (suc (suc (suc (suc (suc zero)))))) h = refl
value_from-digit n (suc (suc (suc (suc (suc (suc (suc zero))))))) h = refl
value_from-digit n (suc (suc (suc (suc (suc (suc (suc (suc zero)))))))) h = refl
value_from-digit n (suc (suc (suc (suc (suc (suc (suc (suc (suc zero))))))))) h = refl
value_from-digit n (suc (suc (suc (suc (suc (suc (suc (suc (suc (suc d)))))))))) h =
    absurd (omega arith)

-- With as many rounds as a number has digits, the text stands for the number.
value_from-decimal_in : (rounds n : ℕ) → n < 10 ^ rounds → value_from 0 (decimal_in rounds n) ≡ n
unfolding decimal_in value_from
value_from-decimal_in zero n h = omega arith
value_from-decimal_in (suc rounds) n h = elim (Bool-cases (ltb n 10)) [
  | inl one ↦ rw (one, decimal_in) (value_from-digit 0 n (ground (arith, one)) ∙ omega arith)
  | inr more ↦
      let rest = value_from-decimal_in rounds (n / 10) (omega (arith, pow-suc 10 rounds)) in
      rw (more, decimal_in)
        (rw (value_from-append 0 (decimal_in rounds (n / 10)) (digit (n % 10)), rest)
          (value_from-digit (n / 10) (n % 10) (omega arith) ∙ omega arith))
]

-- What `%d` prints of a uint64 stands for it.
pub value_from-decimal : (n : ℕ) → n < 2 ^ 64 → value_from 0 (decimal n) ≡ n
unfolding decimal
value_from-decimal n h = value_from-decimal_in 20 n (omega arith)
