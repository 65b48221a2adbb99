-- ===== src/Common/Decimal.antt =====
-- The verb %d of package fmt, for a uint64: at most twenty digits.
use Prim.Native.Nat.{ℕ, zero, suc, ◌/◌, ◌%◌}
use Prim.Native.String as Text
use Prim.Native.String.{String}
use let_mil_go.Common.Tests.{ltb, if◌then◌else◌, ◌==◌, nat_eq}

-- the digit of a number below ten
unfoldable pub digit : ℕ → String
digit d =
    if d == 0
    then "0"
    else if d == 1
    then "1"
    else if d == 2
    then "2"
    else if d == 3
    then "3"
    else if d == 4
    then "4"
    else if d == 5
    then "5"
    else if d == 6
    then "6"
    else if d == 7
    then "7"
    else if d == 8
    then "8"
    else "9"

unfoldable pub decimal_in : ℕ → ℕ → String
unfolding digit
decimal_in zero n = ""
decimal_in (suc rounds) n =
    let more = Text.◌++◌ (decimal_in rounds (n / 10)) (digit (n % 10)) in
    if ltb n 10 then digit n else more

unfoldable pub decimal : ℕ → String
unfolding decimal_in
decimal n = decimal_in 20 n
