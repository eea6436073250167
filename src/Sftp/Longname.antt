-- ===== src/Sftp/Longname.antt =====
-- src/middleware/builtins/sftp/handler.rs: `longname`, the `ls -l` line of an entry.
pub mod Modes
use shenron.Common.{
  ℕ, zero, suc, ◌+◌, ◌-◌, ◌*◌, ◌/◌, ◌%◌, ◌^◌, Bool, Option, none, some, List, [], ◌∷◌, ◌++◌,
  if◌then◌else◌, Text, text, ltb, length, unwrap_or, nat_beq,
}
use shenron.Format.{decimal}
use shenron.Sftp.{FileAttr}

-- The character of the file type, by `mode & 0o170_000`: four bits above the low twelve.
pub kind_char : ℕ → ℕ
kind_char kind =
    if nat_beq kind 0o14
    then b's'
    else if nat_beq kind 0o12
    then b'l'
    else if nat_beq kind 0o06
    then b'b'
    else if nat_beq kind 0o04
    then b'd'
    else if nat_beq kind 0o02
    then b'c'
    else if nat_beq kind 0o01
    then b'p'
    else b'-'

-- `if bits & mask == 0 { '-' } else { c }`, for the bit of weight `mask`.
abbrev pub flag_char : ℕ → ℕ → ℕ → ℕ
flag_char bits mask c = if nat_beq (bits / mask % 2) 0 then b'-' else c

pub rwx : ℕ → Text
rwx bits = flag_char bits 4 b'r' ∷ flag_char bits 2 b'w' ∷ flag_char bits 1 b'x' ∷ []

pub mode_string : ℕ → Text
unfolding kind_char rwx
mode_string mode =
    kind_char (mode / 2 ^ 12 % 16) ∷ (rwx (mode / 2 ^ 6) ++ (rwx (mode / 2 ^ 3) ++ rwx mode))

abbrev pub spaces : ℕ → Text
spaces zero = []
spaces (suc n) = b' ' ∷ spaces n

-- `{:>width}` and `{:<width}`
pad_left : ℕ → Text → Text
pad_left width t = spaces (width - length t) ++ t

pad_right : ℕ → Text → Text
pad_right width t = t ++ spaces (width - length t)

abbrev pub six_months : ℕ
six_months = 182 * 24 * 60 * 60

-- `mtime > now - SIX_MONTHS`, on integers.
pub is_recent : ℕ → ℕ → Bool
is_recent mtime now = ltb now (mtime + six_months)

module _ (format_time : Bool → ℕ → Text) where
  -- `format_time true` is chrono's `%b %e %H:%M` of a time stamp, and `format_time false` its
  -- `%b %e  %Y`; each is empty for a time stamp out of range.
  pub mtime_string : ℕ → ℕ → Text
  unfolding is_recent
  mtime_string mtime now = format_time (is_recent mtime now) mtime

  unfoldable pub longname : Text → FileAttr → ℕ → Text
  unfolding mode_string pad_left pad_right mtime_string
  longname name attrs now =
      mode_string (unwrap_or attrs.permissions 0)
      ++ (b' '
          ∷ (pad_left 3 (decimal 1)
              ++ (b' '
                  ∷ (pad_right 8 (decimal (unwrap_or attrs.uid 0))
                      ++ (b' '
                          ∷ (pad_right 8 (decimal (unwrap_or attrs.gid 0))
                              ++ (b' '
                                  ∷ (pad_left 8 (decimal (unwrap_or attrs.size 0))
                                      ++ (b' '
                                          ∷ (mtime_string (unwrap_or attrs.mtime 0) now
                                              ++ (b' ' ∷ name)))))))))))
