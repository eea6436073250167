-- ===== src/Utf8.antt =====
-- UTF-8, as `str::as_bytes` writes it and `String::from_utf8` and `from_utf8_lossy` read it.
pub mod RoundTrip
use shenron.Common.{
  ℕ, zero, suc, ◌+◌, ◌-◌, ◌*◌, ◌/◌, ◌%◌, Option, none, some, List, [], ◌∷◌, ◌++◌, if◌then◌else◌,
  Text, ltb, leb, ◌&&◌, ◌||◌, Bool, not, length, nat_beq,
}

-- The bytes of one scalar value.
unfoldable pub encode_char : ℕ → List ℕ
encode_char c =
    if ltb c 0x80
    then c ∷ []
    else if ltb c 0x800
    then (0xC0 + c / 64) ∷ (0x80 + c % 64) ∷ []
    else if ltb c 0x10000
    then (0xE0 + c / 4096) ∷ (0x80 + c / 64 % 64) ∷ (0x80 + c % 64) ∷ []
    else (0xF0 + c / 262144) ∷ (0x80 + c / 4096 % 64) ∷ (0x80 + c / 64 % 64) ∷ (0x80 + c % 64) ∷ []

unfoldable pub as_bytes : Text → List ℕ
unfolding encode_char
as_bytes [] = []
as_bytes (c ∷ t) = encode_char c ++ as_bytes t

-- A `char`: a code point that is no surrogate.
abbrev pub is_scalar : ℕ → Bool
is_scalar c = ltb c 0xD800 || (leb 0xE000 c && ltb c 0x110000)

-- A reading of the first scalar value: the value, or the length of the invalid part.
pub data Step : Type 0 where
  done : Step
  valid : ℕ → List ℕ → Step
  invalid : List ℕ → Step

abbrev within : ℕ → ℕ → ℕ → Bool
within lo hi b = leb lo b && leb b hi

-- The second byte that may follow a three-byte or four-byte lead.
abbrev second_of_three : ℕ → ℕ → Bool
second_of_three lead b =
    if nat_beq lead 0xE0
    then within 0xA0 0xBF b
    else if nat_beq lead 0xED
    then within 0x80 0x9F b
    else within 0x80 0xBF b

abbrev second_of_four : ℕ → ℕ → Bool
second_of_four lead b =
    if nat_beq lead 0xF0
    then within 0x90 0xBF b
    else if nat_beq lead 0xF4
    then within 0x80 0x8F b
    else within 0x80 0xBF b

two : ℕ → List ℕ → Step
two a [] = invalid []
two a (b ∷ r) =
    if within 0x80 0xBF b then valid ((a - 0xC0) * 64 + (b - 0x80)) r else invalid (b ∷ r)

three : ℕ → List ℕ → Step
three a [] = invalid []
three a (b ∷ []) = if second_of_three a b then invalid [] else invalid (b ∷ [])
three a (b ∷ c ∷ r) =
    if second_of_three a b
    then if within 0x80 0xBF c
      then valid ((a - 0xE0) * 4096 + (b - 0x80) * 64 + (c - 0x80)) r
      else invalid (c ∷ r)
    else invalid (b ∷ c ∷ r)

four : ℕ → List ℕ → Step
four a [] = invalid []
four a (b ∷ []) = if second_of_four a b then invalid [] else invalid (b ∷ [])
four a (b ∷ c ∷ []) =
    if second_of_four a b
    then if within 0x80 0xBF c then invalid [] else invalid (c ∷ [])
    else invalid (b ∷ c ∷ [])
four a (b ∷ c ∷ d ∷ r) =
    if second_of_four a b
    then if within 0x80 0xBF c
      then if within 0x80 0xBF d
        then valid ((a - 0xF0) * 262144 + (b - 0x80) * 4096 + (c - 0x80) * 64 + (d - 0x80)) r
        else invalid (d ∷ r)
      else invalid (c ∷ d ∷ r)
    else invalid (b ∷ c ∷ d ∷ r)

step : List ℕ → Step
unfolding two three four
step [] = done
step (a ∷ r) =
    if ltb a 0x80
    then valid a r
    else if within 0xC2 0xDF a
    then two a r
    else if within 0xE0 0xEF a
    then three a r
    else if within 0xF0 0xF4 a
    then four a r
    else invalid r

abbrev cons_some : ℕ → Option Text → Option Text
cons_some c none = none
cons_some c (some t) = some (c ∷ t)

-- One round for each scalar value; a round takes a byte at least.
from_utf8_fuel : ℕ → List ℕ → Option Text
unfolding step
from_utf8_fuel zero bytes = some []
from_utf8_fuel (suc fuel) bytes = elim (step bytes) [
  | done ↦ some []
  | valid c rest ↦ cons_some c (from_utf8_fuel fuel rest)
  | invalid rest ↦ none
]

pub from_utf8 : List ℕ → Option Text
unfolding from_utf8_fuel
from_utf8 bytes = from_utf8_fuel (length bytes) bytes

from_utf8_lossy_fuel : ℕ → List ℕ → Text
unfolding step
from_utf8_lossy_fuel zero bytes = []
from_utf8_lossy_fuel (suc fuel) bytes = elim (step bytes) [
  | done ↦ []
  | valid c rest ↦ c ∷ from_utf8_lossy_fuel fuel rest
  | invalid rest ↦ 0xFFFD ∷ from_utf8_lossy_fuel fuel rest
]

-- Each maximal invalid part becomes one U+FFFD.
unfoldable pub from_utf8_lossy : List ℕ → Text
unfolding from_utf8_lossy_fuel
from_utf8_lossy bytes = from_utf8_lossy_fuel (length bytes) bytes
