-- ===== src/Sftp/Longname/Modes.antt =====
-- src/middleware/builtins/sftp/handler.rs: what the mode column of `longname` says.

use shenron.Common.{
  ℕ, ◌+◌, ◌*◌, ◌/◌, ◌%◌, ◌^◌, ◌≡◌, refl, ap, ◌∙◌, Option, none, some, [], ◌∷◌, ◌++◌, Text, text,
  length, if◌then◌else◌, nat_beq, arith,
}
use shenron.Sftp.Longname.{flag_char, rwx, mode_string}

-- One column of permissions, which has its letter or a dash: the bits so far with one more.
abbrev flag_bit : ℕ → ℕ → ℕ → Option ℕ
flag_bit letter acc c =
    if nat_beq c letter then some (acc * 2 + 1) else if nat_beq c b'-' then some (acc * 2) else none

abbrev and_then : Option ℕ → (ℕ → Option ℕ) → Option ℕ
and_then none rest = none
and_then (some acc) rest = rest acc

-- The number that a row of columns stands for, the letters of which are given; none where a
-- column has another character, and where there are more or fewer columns.
abbrev pub read_flags : Text → Text → ℕ → Option ℕ
read_flags [] [] acc = some acc
read_flags [] (c ∷ cs) acc = none
read_flags (l ∷ ls) [] acc = none
read_flags (l ∷ ls) (c ∷ cs) acc = and_then (flag_bit l acc c) (read_flags ls cs)

-- The permission bits of a mode column: the type of the file, and `rwx` three times.
abbrev pub permission_bits : Text → Option ℕ
permission_bits [] = none
permission_bits (kind ∷ cs) = read_flags (text "rwxrwxrwx") cs 0

flag_bit-r :
    (bits mask acc : ℕ)
    → flag_bit b'r' acc (flag_char bits mask b'r') ≡ some (acc * 2 + bits / mask % 2)
flag_bit-r bits mask acc = ground arith

flag_bit-w :
    (bits mask acc : ℕ)
    → flag_bit b'w' acc (flag_char bits mask b'w') ≡ some (acc * 2 + bits / mask % 2)
flag_bit-w bits mask acc = ground arith

flag_bit-x :
    (bits mask acc : ℕ)
    → flag_bit b'x' acc (flag_char bits mask b'x') ≡ some (acc * 2 + bits / mask % 2)
flag_bit-x bits mask acc = ground arith

read_flags-rwx :
    (bits acc : ℕ) (ls cs : Text)
    → read_flags (b'r' ∷ b'w' ∷ b'x' ∷ ls) (rwx bits ++ cs) acc
      ≡ read_flags ls cs (acc * 8 + bits % 8)
unfolding rwx
read_flags-rwx bits acc ls cs =
    ap
      (λ o.
        and_then o
          (read_flags (b'w' ∷ b'x' ∷ ls) (flag_char bits 2 b'w' ∷ flag_char bits 1 b'x' ∷ cs)))
      (flag_bit-r bits 4 acc)
    ∙ ap (λ o. and_then o (read_flags (b'x' ∷ ls) (flag_char bits 1 b'x' ∷ cs)))
        (flag_bit-w bits 2 (acc * 2 + bits / 4 % 2))
    ∙ ap (λ o. and_then o (read_flags ls cs))
        (flag_bit-x bits 1 ((acc * 2 + bits / 4 % 2) * 2 + bits / 2 % 2))
    ∙ ap (read_flags ls cs) (omega arith)

-- The mode column has ten characters, of which the last nine are the letters `rwxrwxrwx`, each a
-- dash where its bit is clear: they tell the nine permission bits.
pub permission_bits-mode_string :
    (mode : ℕ)
    → (length (mode_string mode) ≡ 10) × (permission_bits (mode_string mode) ≡ some (mode % 512))
unfolding mode_string rwx
permission_bits-mode_string mode = (
  refl,
  read_flags-rwx (mode / 2 ^ 6) 0 (text "rwxrwx") (rwx (mode / 2 ^ 3) ++ rwx mode)
      ∙ read_flags-rwx (mode / 2 ^ 3) (0 * 8 + mode / 2 ^ 6 % 8) (text "rwx") (rwx mode)
      ∙ read_flags-rwx mode ((0 * 8 + mode / 2 ^ 6 % 8) * 8 + mode / 2 ^ 3 % 8) [] []
      ∙ ap some (omega arith),
)
