-- ===== src/Format.antt =====
-- `format!` of numbers: decimal and sixteen hexadecimal digits.
pub mod Hex
use shenron.Common.{
  ℕ, zero, suc, ◌+◌, ◌-◌, ◌/◌, ◌%◌, List, [], ◌∷◌, ◌++◌, if◌then◌else◌, Text, ltb, length, Bool,
}

abbrev pub hex_digit : ℕ → ℕ
hex_digit d = if ltb d 10 then 48 + d else 87 + d

-- The `width` low digits of `n` in base 16, the highest first.
pub hex_digits : ℕ → ℕ → Text
hex_digits zero n = []
hex_digits (suc width) n = hex_digits width (n / 16) ++ hex_digit (n % 16) ∷ []

-- `{id:016x}`, for `id < 2 ^ 64`.
unfoldable pub format_016x : ℕ → Text
unfolding hex_digits
format_016x n = hex_digits 16 n

-- Decimal digits; `n` itself is fuel enough, since each round divides by ten.
decimal_fuel : ℕ → ℕ → Text
decimal_fuel zero n = (48 + n % 10) ∷ []
decimal_fuel (suc fuel) n =
    let more = decimal_fuel fuel (n / 10) ++ (48 + n % 10) ∷ [] in
    if ltb n 10 then (48 + n) ∷ [] else more

unfoldable pub decimal : ℕ → Text
unfolding decimal_fuel
decimal n = decimal_fuel n n
