-- ===== src/Bytes/Decimal.antt =====
-- `n.toString(10)` and `BigInt(text)` on decimal digits.
use trana.Prelude.{ℕ, zero, suc, ◌+◌, ◌-◌, ◌*◌, ◌/◌, ◌%◌, ◌<◌, ◌≡◌, arith}
use trana.Prelude.{List, [], ◌∷◌, Option, none, some, ◌&&◌, ltb, leb, if◌then◌else◌}

-- The digits before `rest`; the fuel bounds their number.
decimal_from : ℕ → ℕ → List ℕ → List ℕ
decimal_from zero n rest = rest
decimal_from (suc fuel) n rest =
    let last = (n % 10 + 48) ∷ rest in
    let more = decimal_from fuel (n / 10) last in if ltb n 10 then last else more

-- A number has at most one digit more than its value.
unfoldable pub to_decimal : ℕ → List ℕ
unfolding decimal_from
to_decimal n = decimal_from (suc n) n []

decimal_value_from : ℕ → List ℕ → Option ℕ
decimal_value_from acc [] = some acc
decimal_value_from acc (c ∷ cs) =
    let rest = decimal_value_from (acc * 10 + (c - 48)) cs in
    if leb 48 c && leb c 57 then rest else none

-- `none` is the SyntaxError of `BigInt`. The empty text is 0.
unfoldable pub from_decimal : List ℕ → Option ℕ
unfolding decimal_value_from
from_decimal cs = decimal_value_from 0 cs

-- Reading the digits of `n` before `rest` is reading `rest` with `n` in front.
decimal_round :
    (fuel n : ℕ) (rest : List ℕ)
    → n < fuel
    → decimal_value_from 0 (decimal_from fuel n rest) ≡ decimal_value_from n rest
unfolding decimal_from decimal_value_from
decimal_round zero n rest h = absurd (omega arith)
decimal_round (suc fuel) n rest h =
    ground (arith, decimal_round fuel (n / 10) ((n % 10 + 48) ∷ rest))

pub from_decimal-to_decimal : (n : ℕ) → from_decimal (to_decimal n) ≡ some n
unfolding from_decimal to_decimal
from_decimal-to_decimal n = decimal_round (suc n) n [] (omega arith)
