-- ===== src/Lines.antt =====
-- Rust's `str::lines` and `str::trim`, as src/auth/trusted_ca.rs uses them.
use shenron.Common.{ℕ, Bool, false, List, [], ◌∷◌, ◌&&◌, ◌||◌, if◌then◌else◌, Text, leb, nat_beq}
use mathlib.Core.List.{reverse}

abbrev cons_char : ℕ → List Text → List Text
cons_char c [] = (c ∷ []) ∷ []
cons_char c (line ∷ rest) = (c ∷ line) ∷ rest

abbrev starts_line_feed : Text → Bool
starts_line_feed [] = false
starts_line_feed (c ∷ t) = nat_beq c b'\n'

-- A line ends at a line feed, with a carriage return before it or without; the last may lack it.
unfoldable pub lines : Text → List Text
lines [] = []
lines (c ∷ t) =
    let rest = lines t in
    if nat_beq c b'\n'
    then [] ∷ rest
    else if nat_beq c b'\r' && starts_line_feed t
    then rest
    else cons_char c rest

-- `char::is_whitespace`
unfoldable pub is_whitespace : ℕ → Bool
is_whitespace c =
    (leb 9 c && leb c 13)
    || nat_beq c 32
    || nat_beq c 133
    || nat_beq c 160
    || nat_beq c 5760
    || (leb 8192 c && leb c 8202)
    || nat_beq c 8232
    || nat_beq c 8233
    || nat_beq c 8239
    || nat_beq c 8287
    || nat_beq c 12288

unfoldable pub trim_start : Text → Text
trim_start [] = []
trim_start (c ∷ t) = if is_whitespace c then trim_start t else c ∷ t

unfoldable pub trim : Text → Text
trim t = reverse (trim_start (reverse (trim_start t)))
