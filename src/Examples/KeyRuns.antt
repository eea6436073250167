-- ===== src/Examples/KeyRuns.antt =====
-- Packets of keys, with a parser that knows printable characters only.
use shenron.Common.{
  ℕ, ◌≡◌, refl, some, List, [], ◌∷◌, ◌++◌, ◌&&◌, if◌then◌else◌, leb, nat_beq, map, arith, zero, suc,
}
use shenron.Error.{ok, err}
use shenron.Tui.Key.{Parse, parse_input}
use shenron.Tui.Codes.{Input, TermEvent, key_event, press, char, esc, Modifiers, no_modifiers}
use shenron.Tui.Key.Progress.{parse_input-total}
use shenron.Tui.Key.Skipping.{typed, ParsesPlain, IsUnknown, parse_input-plain, parse_input-csi}
use shenron.Channel.{PtySize}

-- A capital letter is typed with shift.
abbrev held : ℕ → Modifiers
held c = record no_modifiers { shift = leb b'A' c && leb c b'Z' }

abbrev plain_key : ℕ → TermEvent
plain_key c = key_event (record { code = char c; modifiers = held c; kind = press })

-- It knows a lone ESC, too.
abbrev pub knows_plain : Parse
knows_plain (c ∷ []) =
    if leb 0x20 c && leb c 0x7e
    then ok (some (plain_key c))
    else if nat_beq c 0x1b
    then ok (some (key_event (record { code = esc; modifiers = no_modifiers; kind = press })))
    else err tt
knows_plain bytes = err tt

knows_plain-ParsesPlain : ParsesPlain held knows_plain
knows_plain-ParsesPlain c (lo, hi) = ground arith

abbrev pub hi : List ℕ
hi = b'H' ∷ b'i' ∷ []

parse_input-total_example : (inputs : List Input) × (parse_input knows_plain hi ≡ some inputs)
parse_input-total_example = parse_input-total knows_plain hi

parse_input-plain_example : parse_input knows_plain hi ≡ some (map (typed held) hi)
parse_input-plain_example =
    parse_input-plain held knows_plain hi knows_plain-ParsesPlain
      ((omega arith, omega arith), ((omega arith, omega arith), tt))

-- `ESC [ 9 y`, and a key after it.
abbrev strange : List ℕ
strange = 0x1b ∷ b'[' ∷ (b'9' ∷ []) ++ b'y' ∷ hi

strange-IsUnknown : IsUnknown knows_plain strange
strange-IsUnknown zero event lo hi e = absurd (omega (arith, lo))
strange-IsUnknown (suc zero) event lo hi e = absurd (omega (arith, lo))
strange-IsUnknown (suc (suc n)) event lo hi e = absurd (cc)

parse_input-csi_example : parse_input knows_plain strange ≡ parse_input knows_plain hi
parse_input-csi_example =
    parse_input-csi knows_plain (b'9' ∷ []) b'y' hi refl strange-IsUnknown (refl, tt) refl

-- A size of the window.
abbrev pub small : PtySize
small = record { width = 80; height = 24; pixel_width = 0; pixel_height = 0 }
