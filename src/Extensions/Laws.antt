-- ===== src/Extensions/Laws.antt =====
-- The bag of src/session/extensions.rs as a function from types to values.
use shenron.Common.{
  ℕ, ◌≡◌, Option, none, some, [], arith, if◌then◌else◌, nat_eq, Option-cases, ◌==◌, inl, inr,
}
use shenron.HashMap
use shenron.HashMap.{HashMap, or_else}
use shenron.Extensions.{Boxed, Extensions, insert, get, modify, remove, merge}

module _ {V : Type 0} where
  -- Every box stands under the type of its value, so that no downcast fails.
  abbrev pub IsTyped : Extensions V → Type 0
  IsTyped ext = (t : ℕ) (b : Boxed V) → HashMap.get t ext ≡ some b → b.type_id ≡ t

  pub insert-IsTyped : (t : ℕ) (v : V) (ext : Extensions V) → IsTyped ext → IsTyped (insert t v ext)
  unfolding insert
  insert-IsTyped t v ext h u b e =
      ground (arith, HashMap.get-insert t u (record { type_id = t; value = v }) ext, h u b)

  pub merge-IsTyped :
      (ext other : Extensions V) → IsTyped ext → IsTyped other → IsTyped (merge ext other)
  unfolding merge
  merge-IsTyped ext other h k t b e = ground (arith, HashMap.get-extend t ext other, h t b, k t b)

  pub modify-IsTyped :
      (t : ℕ) (f : V → V) (ext : Extensions V) → IsTyped ext → IsTyped (modify t f ext)
  unfolding modify
  modify-IsTyped t f ext h u b e = elim (Option-cases (HashMap.get t ext)) [
    | inl n ↦ ground (arith, h u b)
    | inr (c, n) ↦
        ground (arith, HashMap.get-insert t u (record c { value = f c.value }) ext, h u b, h t c)
  ]

  pub remove-IsTyped : (t : ℕ) (ext : Extensions V) → IsTyped ext → IsTyped (remove t ext).1
  unfolding remove
  remove-IsTyped t ext h u b e = ground (arith, HashMap.get-remove t u ext, h u b)

  pub get-insert :
      (t u : ℕ) (v : V) (ext : Extensions V)
      → get u (insert t v ext) ≡ (if t == u then some v else get u ext)
  unfolding get insert
  get-insert t u v ext =
      ground (arith, HashMap.get-insert t u (record { type_id = t; value = v }) ext)

  abbrev pub map_option : (V → V) → Option V → Option V
  map_option f none = none
  map_option f (some v) = some (f v)

  pub get-modify :
      (t u : ℕ) (f : V → V) (ext : Extensions V)
      → get u (modify t f ext) ≡ (if t == u then map_option f (get u ext) else get u ext)
  unfolding get modify
  get-modify t u f ext = elim (Option-cases (HashMap.get t ext)) [
    | inl e ↦ ground arith
    | inr (b, e) ↦ ground (arith, HashMap.get-insert t u (record b { value = f b.value }) ext)
  ]

  pub get-remove :
      (t u : ℕ) (ext : Extensions V) → get u (remove t ext).1 ≡ (if t == u then none else get u ext)
  unfolding get remove
  get-remove t u ext = ground (arith, HashMap.get-remove t u ext)

  pub merge-default : (ext : Extensions V) → merge ext [] ≡ ext
  unfolding merge
  merge-default ext = HashMap.extend-nil ext

  pub get-merge :
      (u : ℕ) (ext other : Extensions V)
      → IsTyped other
      → get u (merge ext other) ≡ or_else (get u other) (get u ext)
  unfolding get merge
  get-merge u ext other h = elim (Option-cases (HashMap.get u other)) [
    | inl e ↦ ground (arith, HashMap.get-extend u ext other)
    | inr (b, e) ↦ ground (arith, HashMap.get-extend u ext other, h u b e)
  ]
