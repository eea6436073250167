-- ===== src/Format/Hex.antt =====
-- `{id:016x}` tells numbers below 2 ^ 64 apart.
use native.Mathlib.Nat.{pow-suc}
use shenron.Common.{
  ℕ, zero, suc, ◌+◌, ◌-◌, ◌*◌, ◌/◌, ◌%◌, ◌^◌, ◌<◌, ◌≡◌, refl, sym, ap, ◌∙◌, [], ◌∷◌, ◌++◌, Text,
  ltb, if◌then◌else◌, arith,
}
use shenron.Format.{hex_digit, hex_digits, format_016x}

hex_value : ℕ → ℕ
hex_value c = if ltb c 58 then c - 48 else c - 87

read_hex : ℕ → Text → ℕ
read_hex acc [] = acc
read_hex acc (c ∷ t) = read_hex (acc * 16 + hex_value c) t

hex_value-hex_digit : (d : ℕ) → d < 16 → hex_value (hex_digit d) ≡ d
unfolding hex_value
hex_value-hex_digit d h = ground arith

read_hex-append :
    (acc : ℕ) (t : Text) (c : ℕ) → read_hex acc (t ++ c ∷ []) ≡ read_hex acc t * 16 + hex_value c
unfolding read_hex
read_hex-append acc [] c = refl
read_hex-append acc (d ∷ t) c = read_hex-append (acc * 16 + hex_value d) t c

read_hex-hex_digits : (width n : ℕ) → n < 16 ^ width → read_hex 0 (hex_digits width n) ≡ n
unfolding hex_digits read_hex
read_hex-hex_digits zero n h = omega arith
read_hex-hex_digits (suc width) n h =
    let below : n / 16 < 16 ^ width = omega (arith, pow-suc 16 width) in
    omega (
      arith,
      read_hex-append 0 (hex_digits width (n / 16)) (hex_digit (n % 16)),
      read_hex-hex_digits width (n / 16) below,
      hex_value-hex_digit (n % 16),
    )

pub format_016x-injective :
    (m n : ℕ) → m < 2 ^ 64 → n < 2 ^ 64 → format_016x m ≡ format_016x n → m ≡ n
unfolding format_016x
format_016x-injective m n hm hn e =
    sym (read_hex-hex_digits 16 m hm) ∙ ap (read_hex 0) e ∙ read_hex-hex_digits 16 n hn
