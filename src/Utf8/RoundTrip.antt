-- ===== src/Utf8/RoundTrip.antt =====
-- Reading back what `as_bytes` writes.
use shenron.Common.{
  ℕ, zero, suc, ◌+◌, ◌≤◌, ◌≡◌, refl, true, some, List, [], ◌∷◌, ◌++◌, Text, arith, length, All,
}
use shenron.Utf8.{encode_char, as_bytes, is_scalar, valid, step, from_utf8_fuel, from_utf8}

abbrev pub IsText : Text → Type 0
IsText = All (λ c. is_scalar c ≡ true)

step-encode_char :
    (c : ℕ) (rest : List ℕ) → is_scalar c ≡ true → step (encode_char c ++ rest) ≡ valid c rest
unfolding step encode_char
step-encode_char c rest h = ground arith

encode_char-ne-nil : (c : ℕ) (bs : List ℕ) → 1 + length bs ≤ length (encode_char c ++ bs)
unfolding encode_char
encode_char-ne-nil c bs = ground arith

from_utf8_fuel-as_bytes :
    (fuel : ℕ) (t : Text)
    → IsText t
    → length (as_bytes t) ≤ fuel
    → from_utf8_fuel fuel (as_bytes t) ≡ some t
unfolding from_utf8_fuel as_bytes
from_utf8_fuel-as_bytes zero [] h le = refl
from_utf8_fuel-as_bytes (suc fuel) [] h le = unfold step in refl
from_utf8_fuel-as_bytes zero (c ∷ t) h le =
    absurd (omega (arith, encode_char-ne-nil c (as_bytes t)))
from_utf8_fuel-as_bytes (suc fuel) (c ∷ t) h le =
    rw (step-encode_char c (as_bytes t) h.0, from_utf8_fuel)
      (rw (from_utf8_fuel-as_bytes fuel t h.1 (omega (arith, encode_char-ne-nil c (as_bytes t)))))

-- Decoding the bytes of a text gives the text back.
pub from_utf8-as_bytes : (t : Text) → IsText t → from_utf8 (as_bytes t) ≡ some t
unfolding from_utf8
from_utf8-as_bytes t h = from_utf8_fuel-as_bytes (length (as_bytes t)) t h (omega arith)
