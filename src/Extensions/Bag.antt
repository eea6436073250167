-- ===== src/Extensions/Bag.antt =====
-- src/session/extensions.rs against its abstract view: a function from types to values.
use shenron.Common.{
  ℕ, ◌≡◌, refl, ap, ◌∙◌, Option, none, some, List, [], ◌∷◌, arith, if◌then◌else◌, nat_eq, ◌==◌,
}
use shenron.HashMap
use shenron.HashMap.{or_else}
use shenron.Extensions.{Extensions, default, insert, get, modify, remove, merge}
use shenron.Extensions.Laws.{
  IsTyped, insert-IsTyped, modify-IsTyped, remove-IsTyped, merge-IsTyped, get-insert, get-modify,
  get-remove, get-merge, map_option,
}

-- The calls that change a bag; a merge is with a bag that was filled by inserts.
pub data Edit (V : Type 0) : Type 0 where
  inserts : ℕ → V → Edit V
  modifies : ℕ → (V → V) → Edit V
  removes : ℕ → Edit V
  merges : List (ℕ × V) → Edit V

module _ {V : Type 0} where
  pub filled : List (ℕ × V) → Extensions V
  filled [] = default
  filled ((t, v) ∷ rest) = insert t v (filled rest)

  pub edit : Edit V → Extensions V → Extensions V
  edit (inserts t v) ext = insert t v ext
  edit (modifies t f) ext = modify t f ext
  edit (removes t) ext = (remove t ext).1
  edit (merges entries) ext = merge ext (filled entries)

  pub edit_all : List (Edit V) → Extensions V → Extensions V
  edit_all [] ext = ext
  edit_all (e ∷ es) ext = edit_all es (edit e ext)

  abbrev lookup : List (ℕ × V) → ℕ → Option V
  lookup [] u = none
  lookup ((t, v) ∷ rest) u = if t == u then some v else lookup rest u

  abbrev pub bag_edit : Edit V → (ℕ → Option V) → ℕ → Option V
  bag_edit (inserts t v) bag u = if t == u then some v else bag u
  bag_edit (modifies t f) bag u = if t == u then map_option f (bag u) else bag u
  bag_edit (removes t) bag u = if t == u then none else bag u
  bag_edit (merges entries) bag u = or_else (lookup entries u) (bag u)

  abbrev pub bag_edit_all : List (Edit V) → (ℕ → Option V) → ℕ → Option V
  bag_edit_all [] bag = bag
  bag_edit_all (e ∷ es) bag = bag_edit_all es (bag_edit e bag)

  get-default : (u : ℕ) → get u (default {V = V}) ≡ none
  unfolding get HashMap.get
  get-default u = refl

  filled-IsTyped : (entries : List (ℕ × V)) → IsTyped (filled entries)
  unfolding filled HashMap.get
  filled-IsTyped [] = λ t b e. ground arith
  filled-IsTyped ((t, v) ∷ rest) = insert-IsTyped t v (filled rest) (filled-IsTyped rest)

  get-filled : (entries : List (ℕ × V)) (u : ℕ) → get u (filled entries) ≡ lookup entries u
  unfolding filled
  get-filled [] u = get-default u
  get-filled ((t, v) ∷ rest) u =
      get-insert t u v (filled rest) ∙ ap (λ o. if t == u then some v else o) (get-filled rest u)

  edit-IsTyped : (e : Edit V) (ext : Extensions V) → IsTyped ext → IsTyped (edit e ext)
  unfolding edit
  edit-IsTyped (inserts t v) ext h = insert-IsTyped t v ext h
  edit-IsTyped (modifies t f) ext h = modify-IsTyped t f ext h
  edit-IsTyped (removes t) ext h = remove-IsTyped t ext h
  edit-IsTyped (merges entries) ext h =
      merge-IsTyped ext (filled entries) h (filled-IsTyped entries)

  get-edit :
      (e : Edit V) (ext : Extensions V) (bag : ℕ → Option V)
      → ((u : ℕ) → get u ext ≡ bag u)
      → (u : ℕ) → get u (edit e ext) ≡ bag_edit e bag u
  unfolding edit
  get-edit (inserts t v) ext bag h u =
      get-insert t u v ext ∙ ap (λ o. if t == u then some v else o) (h u)
  get-edit (modifies t f) ext bag h u =
      get-modify t u f ext ∙ ap (λ o. if t == u then map_option f o else o) (h u)
  get-edit (removes t) ext bag h u = get-remove t u ext ∙ ap (λ o. if t == u then none else o) (h u)
  get-edit (merges entries) ext bag h u =
      get-merge u ext (filled entries) (filled-IsTyped entries)
      ∙ ap (λ o. or_else o (get u ext)) (get-filled entries u)
      ∙ ap (or_else (lookup entries u)) (h u)

  edit_all-refines :
      (es : List (Edit V)) (ext : Extensions V) (bag : ℕ → Option V)
      → ((u : ℕ) → get u ext ≡ bag u)
      → (u : ℕ) → get u (edit_all es ext) ≡ bag_edit_all es bag u
  unfolding edit_all
  edit_all-refines [] ext bag h u = h u
  edit_all-refines (e ∷ es) ext bag h u =
      edit_all-refines es (edit e ext) (bag_edit e bag) (get-edit e ext bag h) u

  -- Whatever is inserted, changed, removed and merged into an empty bag of extensions, it holds
  -- for every type what a function from types to values holds after the same edits: at most one
  -- value for each type, the last one, and no downcast of a value fails.
  pub edit_all-bag :
      (es : List (Edit V)) (u : ℕ) → get u (edit_all es default) ≡ bag_edit_all es (λ t. none) u
  edit_all-bag es u = edit_all-refines es default (λ t. none) get-default u
