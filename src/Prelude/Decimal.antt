-- ===== src/Prelude/Decimal.antt =====
-- Integers printed as Python's f-strings print them.
use Prim.Native.Nat.{ℕ, zero, suc, ◌+◌, ◌/◌, ◌%◌}
use Prim.Native.String.{String, ◌++◌}
use vibe_coding_harness.Prelude.Tests.{eqb, ltb, if◌then◌else◌}

digit : ℕ → String
digit n =
    if eqb n 0
    then "0"
    else if eqb n 1
    then "1"
    else if eqb n 2
    then "2"
    else if eqb n 3
    then "3"
    else if eqb n 4
    then "4"
    else if eqb n 5
    then "5"
    else if eqb n 6
    then "6"
    else if eqb n 7
    then "7"
    else if eqb n 8
    then "8"
    else "9"

-- The quotient falls at each round, so `n + 1` rounds are enough.
decimal_from : ℕ → ℕ → String
decimal_from zero n = ""
decimal_from (suc rounds) n =
    let more = decimal_from rounds (n / 10) ++ digit (n % 10) in if ltb n 10 then digit n else more

-- `f"{n}"` and `f"{n:03d}"`
unfoldable pub decimal : ℕ → String
unfolding decimal_from digit
decimal n = decimal_from (n + 1) n

unfoldable pub decimal_3 : ℕ → String
unfolding decimal
decimal_3 n =
    if ltb n 10 then "00" ++ decimal n else if ltb n 100 then "0" ++ decimal n else decimal n
