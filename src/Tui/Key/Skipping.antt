-- ===== src/Tui/Key/Skipping.antt =====
-- src/tui/key.rs: what a packet of plain characters gives, and what a sequence that terminput does
-- not know gives.
use shenron.Common.{
  ℕ, zero, suc, ◌+◌, ◌-◌, ◌≤◌, ◌≡◌, refl, ◌∙◌, ◌<◌, ap, Bool, true, false, Option, none, some, List,
  [], ◌∷◌, ◌++◌, arith, if◌then◌else◌, leb, nat_beq, length, take, drop, min, max, length-drop,
  le→leb, map, All, ◌≢◌, length-append,
}
use shenron.Error.{Result, ok, err}
use shenron.Tui.Key.{
  starts_with, paste_start, converted, char_width, find_final, is_final, skip_csi, csi_end, Parse,
  Parsed, scanned, scanned_slice, scan, unless_scanned, parse_escape, char_of, parse_char,
  parse_one, parsed_rest, parse_loop, parse_input, push_all, max_sequence,
}
use shenron.Tui.Key.Progress.{longer_than_one, slice_to-some}
use shenron.Tui.Codes.{
  Input, key, Modifiers, same_code, char, TermEvent, key_event, press, convert, convert_key,
  convert_code, convert_modifiers,
}

-- The key press of a character.
abbrev pub typed : (ℕ → Modifiers) → ℕ → Input
typed held c = key (record { code = same_code (char c); modifiers = held c })

-- A printable character of ASCII.
abbrev pub IsPlain : ℕ → Type 0
IsPlain c = (0x20 ≤ c) × (c ≤ 0x7e)

-- terminput parses one printable character as a press of its key, with the modifiers that it is
-- held to carry: for a capital letter, shift.
abbrev pub ParsesPlain : (ℕ → Modifiers) → Parse → Type 0
ParsesPlain held parse_from =
    (c : ℕ)
    → IsPlain c
    → parse_from (c ∷ [])
      ≡ ok (some (key_event (record { code = char c; modifiers = held c; kind = press })))

char-code : (shift : Bool) (c : ℕ) → convert_code shift (char c) ≡ some (same_code (char c))
unfolding convert_code
char-code true c = refl
char-code false c = refl

converted-press :
    (held : ℕ → Modifiers) (c : ℕ)
    → converted (ok (some (key_event (record { code = char c; modifiers = held c; kind = press }))))
      ≡ some (typed held c)
unfolding converted convert convert_key convert_modifiers
converted-press held c =
    ap
      (λ o. elim o as (λ x. Option Input) [
        | none ↦ none
        | some code ↦ some (key (record { code = code; modifiers = held c }))
      ])
      (char-code (held c).shift c)

module _ (held : ℕ → Modifiers) (parse_from : Parse) where
  char_of-plain :
      (c : ℕ) (cs : List ℕ)
      → IsPlain c
      → ParsesPlain held parse_from
      → char_of parse_from (c ∷ cs) (some 1) ≡ some (some (typed held c), 1)
  unfolding char_of
  char_of-plain c cs h p =
      rw (le→leb 1 (length (c ∷ cs)) (omega arith), char_of)
        (rw (slice_to-some 1 (c ∷ cs) (omega arith))
          (ap (λ i. some (i, 1)) (ap converted (p c h) ∙ converted-press held c)))

  width-plain : (c : ℕ) → IsPlain c → char_width c ≡ some 1
  unfolding char_width
  width-plain c h = ground (arith, h.0, h.1)

  parse_one-plain :
      (c : ℕ) (cs : List ℕ)
      → IsPlain c
      → ParsesPlain held parse_from
      → parse_one parse_from c (c ∷ cs) ≡ some (some (typed held c), 1)
  unfolding parse_one parse_char
  parse_one-plain c cs h p =
      let plain : nat_beq c 0x1b ≡ false = ground (arith, h.0) in
      rw (plain, parse_one)
        (ap (char_of parse_from (c ∷ cs)) (width-plain c h) ∙ char_of-plain c cs h p)

  parse_loop-plain :
      (bytes : List ℕ)
      → All IsPlain bytes
      → ParsesPlain held parse_from
      → parse_loop parse_from (length bytes) bytes ≡ some (map (typed held) bytes)
  unfolding parse_loop
  parse_loop-plain [] h p = refl
  parse_loop-plain (c ∷ cs) h p =
      rw (parse_one-plain c cs h.0 p, parse_loop)
        (rw (le→leb 1 (length (c ∷ cs)) (omega arith))
          (ap (push_all (some (typed held c))) (parse_loop-plain cs h.1 p)))

  -- A packet of printable characters gives one key press for each, in order, with the modifiers
  -- that terminput gives to the character.
  pub parse_input-plain :
      (bytes : List ℕ)
      → ParsesPlain held parse_from
      → All IsPlain bytes
      → parse_input parse_from bytes ≡ some (map (typed held) bytes)
  unfolding parse_input
  parse_input-plain bytes p h = parse_loop-plain bytes h p

drop-past : (xs : List ℕ) (y : ℕ) (ys : List ℕ) → drop (suc (length xs)) (xs ++ y ∷ ys) ≡ ys
drop-past [] y ys = refl
drop-past (x ∷ xs) y ys = drop-past xs y ys

push_all-none : (o : Option (List Input)) → push_all none o ≡ o
push_all-none none = refl
push_all-none (some inputs) = refl

find_final-append :
    (params : List ℕ) (final : ℕ) (rest : List ℕ)
    → All (λ b. is_final b ≡ false) params
    → is_final final ≡ true
    → find_final (params ++ final ∷ rest) ≡ some (length params)
unfolding find_final
find_final-append [] final rest h f = rw (f, find_final) refl
find_final-append (b ∷ params) final rest h f =
    rw (h.0, find_final) (rw (find_final-append params final rest h.1 f) refl)

module _ (parse_from : Parse) where
  -- terminput finds no event in the first bytes, for every number of them that is tried: two, up to
  -- `max_sequence`. What it makes of a lone ESC does not matter.
  abbrev pub IsUnknown : List ℕ → Type 0
  IsUnknown bytes =
      (n : ℕ) (event : TermEvent)
      → 2 ≤ n
      → n ≤ max_sequence
      → parse_from (take n bytes) ≢ ok (some event)

  scanned-nothing :
      (r : Result (Unit {0}) (Option TermEvent)) (upto : ℕ) (later : Option Parsed)
      → ((event : TermEvent) → r ≢ ok (some event))
      → later ≡ some none
      → scanned parse_from r upto later ≡ some none
  unfolding scanned
  scanned-nothing (ok (some event)) upto later h l = absurd (h event refl)
  scanned-nothing (ok none) upto later h l = l
  scanned-nothing (err e) upto later h l = refl

  scan-nothing :
      (turns upto : ℕ) (bytes : List ℕ)
      → 2 ≤ upto
      → upto + turns ≤ max_sequence + 1
      → upto + turns ≤ length bytes + 1
      → IsUnknown bytes
      → scan parse_from turns upto bytes ≡ some none
  unfolding scan
  scan-nothing zero upto bytes lo hi fits h = refl
  scan-nothing (suc turns) upto bytes lo hi fits h =
      ap (λ o. scanned_slice parse_from o upto (scan parse_from turns (suc upto) bytes))
        (slice_to-some upto bytes (omega (arith, fits)))
      ∙ scanned-nothing (parse_from (take upto bytes)) upto (scan parse_from turns (suc upto) bytes)
          (λ event. h upto event lo (omega (arith, hi)))
          (scan-nothing turns (suc upto) bytes (omega (arith, lo)) (omega (arith, hi))
            (omega (arith, fits)) h)

  parse_escape-unknown :
      (b c : ℕ) (cs : List ℕ)
      → starts_with paste_start (b ∷ c ∷ cs) ≡ false
      → IsUnknown (b ∷ c ∷ cs)
      → parse_escape parse_from (b ∷ c ∷ cs) ≡ unless_scanned parse_from (b ∷ c ∷ cs) (some none)
  unfolding parse_escape
  parse_escape-unknown b c cs s u =
      rw (s, parse_escape)
        (rw (longer_than_one (length cs)) (
          ap (unless_scanned parse_from (b ∷ c ∷ cs)) (
            scan-nothing (min (length (b ∷ c ∷ cs)) max_sequence - 1) 2 (b ∷ c ∷ cs) (omega arith)
              (omega arith) (omega arith) u)))

  parse_one-csi :
      (params : List ℕ) (final : ℕ) (rest : List ℕ)
      → starts_with paste_start (0x1b ∷ b'[' ∷ params ++ final ∷ rest) ≡ false
      → IsUnknown (0x1b ∷ b'[' ∷ params ++ final ∷ rest)
      → All (λ b. is_final b ≡ false) params
      → is_final final ≡ true
      → parse_one parse_from 0x1b (0x1b ∷ b'[' ∷ params ++ final ∷ rest)
        ≡ some (none, length params + 3)
  unfolding parse_one unless_scanned skip_csi csi_end
  parse_one-csi params final rest s u h f =
      let q = params ++ final ∷ rest in
      parse_escape-unknown 0x1b b'[' q s u
      ∙ ap (λ o. some (none, csi_end (length (0x1b ∷ b'[' ∷ q)) o))
          (find_final-append params final rest h f)

  rest-fuel :
      (again other : List ℕ → Option (List Input)) (bytes : List ℕ) (out : Parsed)
      → 1 ≤ length bytes
      → ((rest : List ℕ) → length rest < length bytes → again rest ≡ other rest)
      → parsed_rest parse_from again bytes out ≡ parsed_rest parse_from other bytes out
  rest-fuel again other bytes none h ih = refl
  rest-fuel again other bytes (some (input, consumed)) h ih =
      let k = max consumed 1 in
      ap (λ r. if leb k (length bytes) then push_all input r else none)
        (ih (drop k bytes) (omega (arith, length-drop k bytes, h)))

  parse_loop-fuel :
      (f g : ℕ) (bytes : List ℕ)
      → length bytes ≤ f
      → length bytes ≤ g
      → parse_loop parse_from f bytes ≡ parse_loop parse_from g bytes
  unfolding parse_loop
  parse_loop-fuel f g [] hf hg = refl
  parse_loop-fuel zero g (b ∷ bs) hf hg = absurd (omega arith)
  parse_loop-fuel (suc f) zero (b ∷ bs) hf hg = absurd (omega arith)
  parse_loop-fuel (suc f) (suc g) (b ∷ bs) hf hg =
      rest-fuel (parse_loop parse_from f) (parse_loop parse_from g) (b ∷ bs)
        (parse_one parse_from b (b ∷ bs)) (omega arith)
        (λ rest lt. parse_loop-fuel f g rest (omega (arith, lt, hf)) (omega (arith, lt, hg)))

  -- A control sequence that terminput does not know, and that is no paste, gives nothing: the
  -- packet goes on after its final byte as if the sequence were not there.
  pub parse_input-csi :
      (params : List ℕ) (final : ℕ) (rest : List ℕ)
      → starts_with paste_start (0x1b ∷ b'[' ∷ params ++ final ∷ rest) ≡ false
      → IsUnknown (0x1b ∷ b'[' ∷ params ++ final ∷ rest)
      → All (λ b. is_final b ≡ false) params
      → is_final final ≡ true
      → parse_input parse_from (0x1b ∷ b'[' ∷ params ++ final ∷ rest) ≡ parse_input parse_from rest
  unfolding parse_input parse_loop
  parse_input-csi params final rest s u h f =
      let q = params ++ final ∷ rest in
      let k = max (length params + 3) 1 in
      let room : length rest ≤ suc (length q) =
        omega (arith, length-append params (final ∷ rest)) in
      let fits : k ≤ length (0x1b ∷ b'[' ∷ q) =
        omega (arith, length-append params (final ∷ rest)) in
      let past : k ≡ suc (suc (suc (length params))) = omega arith in
      rw (parse_one-csi params final rest s u h f, parse_loop)
        (rw (le→leb k (length (0x1b ∷ b'[' ∷ q)) fits) (
          push_all-none (parse_loop parse_from (suc (length q)) (drop k (0x1b ∷ b'[' ∷ q)))
          ∙ ap (λ n. parse_loop parse_from (suc (length q)) (drop n (0x1b ∷ b'[' ∷ q))) past
          ∙ ap (parse_loop parse_from (suc (length q))) (drop-past params final rest)
          ∙ parse_loop-fuel (suc (length q)) (length rest) rest room (omega arith)))
