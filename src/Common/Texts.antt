-- ===== src/Common/Texts.antt =====
-- Texts: a Rust `String` or `&str` is the list of its Unicode scalar values.
use Prim.Native.Nat.{ℕ}
use Prim.Native.Char.{code}
use Prim.Native.String.{String}
use mathlib.Core.Path.{◌≡◌}
use mathlib.Core.Logic.{◌↔◌}
use mathlib.Core.Bool.{Bool, true, false, ◌&&◌}
use mathlib.Core.List.{List, [], ◌∷◌}
use native.Mathlib.Omega.{arith}
use shenron.Common.Tests.{nat_beq, Equality}

abbrev pub Text : Type 0
Text = List ℕ

-- A literal of the source.
abbrev pub text : String → Text
text String.[] = []
text (String.◌∷◌ c s) = code c ∷ text s

unfoldable pub text_beq : Text → Text → Bool
text_beq [] [] = true
text_beq [] (d ∷ ds) = false
text_beq (c ∷ cs) [] = false
text_beq (c ∷ cs) (d ∷ ds) = nat_beq c d && text_beq cs ds

pub text_beq_iff : (cs ds : Text) → (text_beq cs ds ≡ true) ↔ (cs ≡ ds)
unfolding text_beq
text_beq_iff (c ∷ cs) (d ∷ ds) = ground (arith, text_beq_iff cs ds)
text_beq_iff (c ∷ cs) [] = ground arith
text_beq_iff [] ds = elim ds [ [] ↦ ground arith | d ∷ ds ↦ ground arith ]

instance abbrev pub text_eq : Equality Text
text_eq = record { same_as = text_beq; same_iff = text_beq_iff }
