-- ===== src/Tui/Key.antt =====
-- src/tui/key.rs: the keys and pastes of one packet. `parse_from` is terminput's parser of one
-- event.
pub mod Progress
pub mod Skipping
use shenron.Common.{
  ℕ, zero, suc, ◌+◌, ◌-◌, Bool, true, false, Option, none, some, List, [], ◌∷◌, ◌++◌, ◌&&◌, not,
  if◌then◌else◌, Text, leb, nat_beq, length, take, drop, min, max,
}
use shenron.Tui.Codes.{Input, TermEvent, esc_key, convert}
use shenron.Error.{Result, ok, err}

abbrev pub paste_start : List ℕ
paste_start = 0x1b ∷ b'[' ∷ b'2' ∷ b'0' ∷ b'0' ∷ b'~' ∷ []

abbrev pub paste_end : List ℕ
paste_end = 0x1b ∷ b'[' ∷ b'2' ∷ b'0' ∷ b'1' ∷ b'~' ∷ []

abbrev pub max_sequence : ℕ
max_sequence = 32

-- `starts_with`
abbrev pub starts_with : List ℕ → List ℕ → Bool
starts_with [] bs = true
starts_with (p ∷ ps) [] = false
starts_with (p ∷ ps) (b ∷ bs) = nat_beq p b && starts_with ps bs

abbrev next_position : Option ℕ → Option ℕ
next_position none = none
next_position (some i) = some (suc i)

-- `windows(needle.len()).position(|window| window == needle)`
pub find : List ℕ → List ℕ → Option ℕ
find needle [] = none
find needle (b ∷ bs) =
    if starts_with needle (b ∷ bs) then some 0 else next_position (find needle bs)

-- `(0x40..=0x7E).contains(b)`
abbrev pub is_final : ℕ → Bool
is_final b = leb 0x40 b && leb b 0x7e

pub find_final : List ℕ → Option ℕ
find_final [] = none
find_final (b ∷ bs) = if is_final b then some 0 else next_position (find_final bs)

pub csi_end : ℕ → Option ℕ → ℕ
csi_end len none = len
csi_end len (some i) = i + 3

pub skip_csi : List ℕ → ℕ
skip_csi bytes = csi_end (length bytes) (find_final (drop 2 bytes))

-- `&data[..end]`; none where it panics, past the end.
unfoldable pub slice_to : ℕ → List ℕ → Option (List ℕ)
slice_to upto bytes = if leb upto (length bytes) then some (take upto bytes) else none

-- `data[1]`; none where it panics.
abbrev pub second : List ℕ → Option ℕ
second (e ∷ b ∷ bs) = some b
second _ = none

unfoldable pub char_width : ℕ → Option ℕ
char_width b =
    if leb b 0x7f
    then some 1
    else if leb 0xc0 b && leb b 0xdf
    then some 2
    else if leb 0xe0 b && leb b 0xef
    then some 3
    else if leb 0xf0 b && leb b 0xf7
    then some 4
    else none

abbrev pub Parse : Type 0
Parse = List ℕ → Result (Unit {0}) (Option TermEvent)

-- What one successful parse gives; otherwise nothing.
unfoldable pub converted : Result (Unit {0}) (Option TermEvent) → Option Input
converted (ok (some event)) = convert event
converted (ok none) = none
converted (err e) = none

abbrev pub push : Option Input → List Input → List Input
push none inputs = inputs
push (some i) inputs = i ∷ inputs

abbrev pub push_all : Option Input → Option (List Input) → Option (List Input)
push_all i none = none
push_all i (some inputs) = some (push i inputs)

-- What a parse of some bytes gives, and how many it consumes; none where the source panics.
abbrev pub Parsed : Type 0
Parsed = Option (Option Input × ℕ)

module _ (parse_from : Parse) where
  -- The event in a slice of that many bytes.
  abbrev pub parsed_slice : ℕ → Option (List ℕ) → Parsed
  parsed_slice total none = none
  parsed_slice total (some bytes) = some (converted (parse_from bytes), total)

  pub paste_found : List ℕ → Option ℕ → Parsed
  paste_found bytes none = some (none, length bytes)
  paste_found bytes (some upto) =
      parsed_slice (upto + length paste_end) (slice_to (upto + length paste_end) bytes)

  pub parse_paste : List ℕ → Parsed
  unfolding paste_found
  parse_paste bytes = paste_found bytes (find paste_end bytes)

  -- One turn of the loop over `end`, and the turns after it: none where they panic, and `some none`
  -- where they find nothing.
  pub scanned : Result (Unit {0}) (Option TermEvent) → ℕ → Option Parsed → Option Parsed
  scanned (ok (some event)) upto later = some (some (convert event, upto))
  scanned (ok none) upto later = later
  scanned (err e) upto later = some none

  abbrev pub scanned_slice : Option (List ℕ) → ℕ → Option Parsed → Option Parsed
  scanned_slice none upto later = none
  scanned_slice (some bytes) upto later = scanned (parse_from bytes) upto later

  -- The loop, for a number of turns.
  pub scan : ℕ → ℕ → List ℕ → Option Parsed
  unfolding scanned
  scan zero upto bytes = some none
  scan (suc turns) upto bytes =
      scanned_slice (slice_to upto bytes) upto (scan turns (suc upto) bytes)

  -- `if data[1] == b'['`
  abbrev pub skipped : List ℕ → Option ℕ → Parsed
  skipped bytes none = none
  skipped bytes (some b) =
      some (if nat_beq b b'[' then (none, skip_csi bytes) else (some esc_key, 1))

  pub unless_scanned : List ℕ → Option Parsed → Parsed
  unless_scanned bytes none = none
  unless_scanned bytes (some (some found)) = some found
  unless_scanned bytes (some none) = skipped bytes (second bytes)

  pub parse_escape : List ℕ → Parsed
  unfolding unless_scanned
  parse_escape bytes =
      if starts_with paste_start bytes
      then parse_paste bytes
      else if nat_beq (length bytes) 1
      then some (some esc_key, 1)
      else unless_scanned bytes (scan (min (length bytes) max_sequence - 1) 2 bytes)

  unfoldable pub char_of : List ℕ → Option ℕ → Parsed
  char_of bytes none = some (none, 1)
  char_of bytes (some width) =
      if not (leb width (length bytes))
      then some (none, length bytes)
      else parsed_slice width (slice_to width bytes)

  unfoldable pub parse_char : ℕ → List ℕ → Parsed
  unfolding char_of
  parse_char first bytes = char_of bytes (char_width first)

  -- One turn of the loop of `parse_input`, on a packet that starts with `first`.
  unfoldable pub parse_one : ℕ → List ℕ → Parsed
  parse_one first bytes = if nat_beq first 0x1b then parse_escape bytes else parse_char first bytes

  -- The rest of a turn, and the turns after it; `&rest[consumed.max(1)..]` panics past the end.
  abbrev pub parsed_rest : (List ℕ → Option (List Input)) → List ℕ → Parsed → Option (List Input)
  parsed_rest again bytes none = none
  parsed_rest again bytes (some (input, consumed)) =
      let rest = again (drop (max consumed 1) bytes) in
      if leb (max consumed 1) (length bytes) then push_all input rest else none

  -- The loop, on fuel; none where it panics, and where the fuel ends.
  unfoldable pub parse_loop : ℕ → List ℕ → Option (List Input)
  parse_loop fuel [] = some []
  parse_loop zero (b ∷ bs) = none
  parse_loop (suc fuel) (b ∷ bs) = parsed_rest (parse_loop fuel) (b ∷ bs) (parse_one b (b ∷ bs))

  unfoldable pub parse_input : List ℕ → Option (List Input)
  parse_input bytes = parse_loop (length bytes) bytes
