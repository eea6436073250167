-- ===== src/Examples/AuthRuns.antt =====
-- Characters of each length, and a bag of extensions.
use shenron.Common.{ℕ, ◌≡◌, refl, none, some, List, [], ◌∷◌, Text, text, text_eq, All}
use shenron.Extensions.{default, get}
use shenron.Extensions.Bag.{
  Edit, inserts, modifies, removes, merges, edit_all, bag_edit_all, edit_all-bag,
}
use shenron.Utf8.{as_bytes, from_utf8}
use shenron.Utf8.RoundTrip.{IsText, from_utf8-as_bytes}

-- One character of each length in UTF-8.
abbrev wide : Text
wide = 65 ∷ 233 ∷ 8364 ∷ 128009 ∷ []

from_utf8-as_bytes_example : from_utf8 (as_bytes wide) ≡ some wide
from_utf8-as_bytes_example = from_utf8-as_bytes wide (refl, (refl, (refl, (refl, tt))))

abbrev answers : List Text
answers = wide ∷ text "kame" ∷ []

answers-IsText : All IsText answers
answers-IsText = ((refl, (refl, (refl, (refl, tt)))), ((refl, (refl, (refl, (refl, tt)))), tt))

abbrev edits : List (Edit ℕ)
edits = inserts 1 10 ∷ modifies 1 (λ n. 11) ∷ merges ((2, 20) ∷ (1, 12) ∷ []) ∷ removes 2 ∷ []

edit_all-bag_example : get 1 (edit_all edits default) ≡ bag_edit_all edits (λ t. none) 1
edit_all-bag_example = edit_all-bag edits 1
