-- ===== src/Common/Decimal.antt =====
-- `std::to_string` of a number that is not negative: its decimal digits.
use Prim.Native.Nat.{ℕ, zero, suc, ◌/◌, ◌%◌}
use Prim.Native.String.{String, ◌++◌}
use lb.Common.Tests.{◌==◌, if◌then◌else◌}

digit : ℕ → String
digit d =
    if d == 0
    then "0"
    else if d == 1
    then "1"
    else if d == 2
    then "2"
    else if d == 3
    then "3"
    else if d == 4
    then "4"
    else if d == 5
    then "5"
    else if d == 6
    then "6"
    else if d == 7
    then "7"
    else if d == 8
    then "8"
    else "9"

-- The digits of `n` before `text`; a number has at most as many digits as the number is large.
digits_before : ℕ → ℕ → String → String
unfolding digit
digits_before zero n text = text
digits_before (suc fuel) n text =
    let more = digits_before fuel (n / 10) (digit (n % 10) ++ text) in
    if n / 10 == 0 then digit (n % 10) ++ text else more

unfoldable pub decimal : ℕ → String
unfolding digits_before
decimal n = digits_before (suc n) n ""
