-- ===== src/Base/Decimal.antt =====
-- `str(n)` of a natural number.
pub mod Reads
use Prim.Native.Nat.{ℕ, zero, suc, ◌/◌, ◌%◌}
use Prim.Native.String.{String, ◌++◌ as ◌<>◌}
use mathlib.Core.Path.{◌≡◌, refl}
use security_event_rag_demo.Base.Tests.{ltb, ◌==◌, if◌then◌else◌}

unfoldable pub digit : ℕ → String
digit d =
    if d == 0
    then "0"
    else if d == 1
    then "1"
    else if d == 2
    then "2"
    else if d == 3
    then "3"
    else if d == 4
    then "4"
    else if d == 5
    then "5"
    else if d == 6
    then "6"
    else if d == 7
    then "7"
    else if d == 8
    then "8"
    else "9"

-- The digits of `n`, with fuel above `n`.
unfoldable pub decimal_from : ℕ → ℕ → String
unfolding digit
decimal_from zero n = ""
decimal_from (suc fuel) n =
    let high = decimal_from fuel (n / 10) in if ltb n 10 then digit n else high <> digit (n % 10)

unfoldable pub decimal : ℕ → String
unfolding decimal_from
decimal n = decimal_from (suc n) n

decimal_test : decimal 20260701 ≡ "20260701"
unfolding decimal_from digit
decimal_test = unfold decimal in refl
