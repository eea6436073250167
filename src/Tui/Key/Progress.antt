-- ===== src/Tui/Key/Progress.antt =====
-- src/tui/key.rs: every turn of `parse_input` consumes some of the packet and no more than it has.
use shenron.Common.{
  ℕ, zero, suc, ◌+◌, ◌-◌, ◌≤◌, ◌<◌, ◌≡◌, refl, sym, leb, ap, subst, true, false, Option, none, some,
  List, [], ◌∷◌, arith, if◌then◌else◌, nat_beq, length, take, drop, min, max, length-drop, le→leb,
  Bool-cases, inl, inr,
}
use shenron.Error.{Result, ok, err}
use shenron.Tui.Key.{
  starts_with, paste_start, paste_end, find, find_final, csi_end, skip_csi, is_final, next_position,
  char_width, Parse, Parsed, slice_to, parsed_slice, paste_found, parse_paste, scanned,
  scanned_slice, scan, unless_scanned, parse_escape, char_of, parse_char, parse_one, parsed_rest,
  parse_loop, parse_input, push, push_all, max_sequence,
}
use shenron.Tui.Codes.{Input, TermEvent, esc_key}

starts_with-length : (ps bs : List ℕ) → starts_with ps bs ≡ true → length ps ≤ length bs
starts_with-length [] bs h = omega arith
starts_with-length (p ∷ ps) [] h = absurd (cc)
starts_with-length (p ∷ ps) (b ∷ bs) h = ground (arith, starts_with-length ps bs)

-- A position, with the room that it needs after it.
abbrev Fits : ℕ → ℕ → Option ℕ → Type 0
Fits room len none = Unit
Fits room len (some i) = i + room ≤ len

Fits-next : (room len : ℕ) (o : Option ℕ) → Fits room len o → Fits room (suc len) (next_position o)
Fits-next room len none h = tt
Fits-next room len (some i) h = omega (arith, h)

find-Fits : (needle bs : List ℕ) → Fits (length needle) (length bs) (find needle bs)
unfolding find
find-Fits needle [] = tt
find-Fits needle (b ∷ bs) = elim (Bool-cases (starts_with needle (b ∷ bs))) [
  | inl here ↦ rw (here, find) (omega (arith, starts_with-length needle (b ∷ bs) here))
  | inr later ↦
      rw (later, find)
        (Fits-next (length needle) (length bs) (find needle bs) (find-Fits needle bs))
]

find_final-Fits : (bs : List ℕ) → Fits 1 (length bs) (find_final bs)
unfolding find_final
find_final-Fits [] = tt
find_final-Fits (b ∷ bs) = elim (Bool-cases (is_final b)) [
  | inl here ↦ rw (here, find_final) (omega arith)
  | inr later ↦
      rw (later, find_final) (Fits-next 1 (length bs) (find_final bs) (find_final-Fits bs))
]

csi_end-le : (len : ℕ) (o : Option ℕ) → 2 ≤ len → Fits 1 (len - 2) o → csi_end len o ≤ len
unfolding csi_end
csi_end-le len none h f = omega arith
csi_end-le len (some i) h f = omega (arith, f)

skip_csi-le : (bytes : List ℕ) → 2 ≤ length bytes → skip_csi bytes ≤ length bytes
unfolding skip_csi
skip_csi-le bytes h = csi_end-le (length bytes) (find_final (drop 2 bytes)) h (
    subst (λ n. Fits 1 n (find_final (drop 2 bytes))) (length-drop 2 bytes)
      (find_final-Fits (drop 2 bytes)))

pub longer_than_one : (n : ℕ) → nat_beq (suc (suc n)) 1 ≡ false
longer_than_one n = ground arith

pub slice_to-some :
    (n : ℕ) (bytes : List ℕ) → n ≤ length bytes → slice_to n bytes ≡ some (take n bytes)
unfolding slice_to
slice_to-some n bytes h = rw (le→leb n (length bytes) h) refl

-- A turn that does not panic, and consumes no more than there is.
abbrev Steps : ℕ → Parsed → Type 0
Steps len none = ⊥
Steps len (some (input, consumed)) = consumed ≤ len

-- A loop over `end` that does not panic.
abbrev Scans : ℕ → Option Parsed → Type 0
Scans len none = ⊥
Scans len (some none) = Unit
Scans len (some (some (input, consumed))) = consumed ≤ len

module _ (parse_from : Parse) where
  parsed_slice-Steps :
      (n : ℕ) (bytes : List ℕ)
      → n ≤ length bytes
      → Steps (length bytes) (parsed_slice parse_from n (slice_to n bytes))
  parsed_slice-Steps n bytes h =
      subst (λ o. Steps (length bytes) (parsed_slice parse_from n o))
        (sym (slice_to-some n bytes h)) h

  paste_found-Steps :
      (bytes : List ℕ) (o : Option ℕ)
      → Fits (length paste_end) (length bytes) o
      → Steps (length bytes) (paste_found parse_from bytes o)
  unfolding paste_found
  paste_found-Steps bytes none h = omega arith
  paste_found-Steps bytes (some i) h = parsed_slice-Steps (i + length paste_end) bytes h

  scanned-Scans :
      (r : Result (Unit {0}) (Option TermEvent)) (upto len : ℕ) (later : Option Parsed)
      → upto ≤ len
      → Scans len later
      → Scans len (scanned parse_from r upto later)
  unfolding scanned
  scanned-Scans (ok (some event)) upto len later h l = h
  scanned-Scans (ok none) upto len later h l = l
  scanned-Scans (err e) upto len later h l = tt

  scan-Scans :
      (turns upto : ℕ) (bytes : List ℕ)
      → upto + turns ≤ length bytes + 1
      → Scans (length bytes) (scan parse_from turns upto bytes)
  unfolding scan
  scan-Scans zero upto bytes h = tt
  scan-Scans (suc turns) upto bytes h =
      subst
        (λ o.
          Scans (length bytes)
            (scanned_slice parse_from o upto (scan parse_from turns (suc upto) bytes)))
        (sym (slice_to-some upto bytes (omega (arith, h))))
        (scanned-Scans (parse_from (take upto bytes)) upto (length bytes)
          (scan parse_from turns (suc upto) bytes) (omega (arith, h))
          (scan-Scans turns (suc upto) bytes (omega (arith, h))))

  unless_scanned-Steps :
      (b c : ℕ) (cs : List ℕ) (o : Option Parsed)
      → Scans (length (b ∷ c ∷ cs)) o
      → Steps (length (b ∷ c ∷ cs)) (unless_scanned parse_from (b ∷ c ∷ cs) o)
  unfolding unless_scanned
  unless_scanned-Steps b c cs none e = e
  unless_scanned-Steps b c cs (some (some found)) e = e
  unless_scanned-Steps b c cs (some none) e = ground (arith, skip_csi-le (b ∷ c ∷ cs) (omega arith))

  escape_other-Steps :
      (b : ℕ) (bs : List ℕ)
      → Steps (length (b ∷ bs)) (
          if nat_beq (length (b ∷ bs)) 1
          then some (some esc_key, 1)
          else unless_scanned parse_from
              (b ∷ bs)
              (scan parse_from (min (length (b ∷ bs)) max_sequence - 1) 2 (b ∷ bs)))
  escape_other-Steps b [] = omega arith
  escape_other-Steps b (c ∷ cs) = rw (longer_than_one (length cs)) (
      unless_scanned-Steps b c cs
        (scan parse_from (min (length (b ∷ c ∷ cs)) max_sequence - 1) 2 (b ∷ c ∷ cs))
        (scan-Scans (min (length (b ∷ c ∷ cs)) max_sequence - 1) 2 (b ∷ c ∷ cs) (omega arith)))

  parse_escape-Steps :
      (b : ℕ) (bs : List ℕ) → Steps (length (b ∷ bs)) (parse_escape parse_from (b ∷ bs))
  unfolding parse_escape parse_paste
  parse_escape-Steps b bs = elim (Bool-cases (starts_with paste_start (b ∷ bs))) [
    | inl pasted ↦
        rw (pasted, parse_escape)
          (paste_found-Steps (b ∷ bs) (find paste_end (b ∷ bs)) (find-Fits paste_end (b ∷ bs)))
    | inr other ↦ rw (other, parse_escape) (escape_other-Steps b bs)
  ]

  char_of-Steps :
      (b : ℕ) (bs : List ℕ) (o : Option ℕ) → Steps (length (b ∷ bs)) (char_of parse_from (b ∷ bs) o)
  unfolding char_of
  char_of-Steps b bs none = omega arith
  char_of-Steps b bs (some width) = elim (Bool-cases (leb width (length (b ∷ bs)))) [
    | inl fits ↦ rw (fits, char_of) (parsed_slice-Steps width (b ∷ bs) (ground (arith, fits)))
    | inr short ↦ rw (short, char_of) (omega arith)
  ]

  parse_one-Steps :
      (b : ℕ) (bs : List ℕ) → Steps (length (b ∷ bs)) (parse_one parse_from b (b ∷ bs))
  unfolding parse_one parse_char
  parse_one-Steps b bs = elim (Bool-cases (nat_beq b 0x1b)) [
    | inl escape ↦ rw (escape, parse_one) (parse_escape-Steps b bs)
    | inr plain ↦ rw (plain, parse_one) (char_of-Steps b bs (char_width b))
  ]

  rest-total :
      (again : List ℕ → Option (List Input)) (bytes : List ℕ) (out : Parsed)
      → 1 ≤ length bytes
      → Steps (length bytes) out
      → ((rest : List ℕ)
          → length rest < length bytes
          → (inputs : List Input) × (again rest ≡ some inputs))
      → (inputs : List Input) × (parsed_rest parse_from again bytes out ≡ some inputs)
  rest-total again bytes none le h ih = absurd h
  rest-total again bytes (some (input, consumed)) le h ih =
      let k = max consumed 1 in
      let (inputs, e) = ih (drop k bytes) (omega (arith, length-drop k bytes, le)) in
      (
        push input inputs,
        rw (le→leb k (length bytes) (omega (arith, h, le))) (ap (push_all input) e),
      )

  parse_loop-total :
      (fuel : ℕ) (bytes : List ℕ)
      → length bytes ≤ fuel
      → (inputs : List Input) × (parse_loop parse_from fuel bytes ≡ some inputs)
  unfolding parse_loop
  parse_loop-total fuel [] h = ([], refl)
  parse_loop-total zero (b ∷ bs) h = absurd (omega arith)
  parse_loop-total (suc fuel) (b ∷ bs) h =
      rest-total (parse_loop parse_from fuel) (b ∷ bs) (parse_one parse_from b (b ∷ bs))
        (omega arith) (parse_one-Steps b bs)
        (λ rest lt. parse_loop-total fuel rest (omega (arith, lt, h)))

  -- `parse_input` ends on every packet, whatever terminput makes of the bytes, and never panics: no
  -- slice and no index is past the end of what is left, and each turn consumes at least one byte.
  pub parse_input-total :
      (bytes : List ℕ) → (inputs : List Input) × (parse_input parse_from bytes ≡ some inputs)
  unfolding parse_input
  parse_input-total bytes = parse_loop-total (length bytes) bytes (omega arith)
