-- ===== src/HashMap.antt =====
-- `std::collections::HashMap`, as an association list. No part of src depends on the order in
-- which a map is iterated; where an example prints a map, the order is the list's.
use shenron.Common.{
  ap, Bool-cases, inl, inr, suc, ◌<◌, ◌≤◌, ◌≡◌, refl, Option, none, some, List, [], ◌∷◌, arith,
  Equality, ◌==◌, if◌then◌else◌, length, is_some, All,
}

abbrev pub HashMap {ℓ κ} : Type ℓ → Type κ → Type (ℓ ⊔ κ)
HashMap K V = List (K × V)

-- `or_else o p` is `o`, or `p` where `o` is `none`.
abbrev pub or_else {ℓ} : {A : Type ℓ} → Option A → Option A → Option A
or_else none p = p
or_else (some a) p = some a

module _ {ℓ κ} {K : Type ℓ} {V : Type κ} ⦃e : Equality K⦄ where
  unfoldable pub get : K → HashMap K V → Option V
  get k [] = none
  get k ((j, v) ∷ m) = if j == k then some v else get k m

  -- Replaces the value of an existing key.
  unfoldable pub insert : K → V → HashMap K V → HashMap K V
  insert k v [] = (k, v) ∷ []
  insert k v ((j, w) ∷ m) = if j == k then (k, v) ∷ m else (j, w) ∷ insert k v m

  unfoldable pub remove : K → HashMap K V → HashMap K V
  remove k [] = []
  remove k ((j, w) ∷ m) = if j == k then remove k m else (j, w) ∷ remove k m

  -- `m.extend(other)`: the entries of `other` win.
  unfoldable pub extend : HashMap K V → HashMap K V → HashMap K V
  extend m [] = m
  extend m ((k, v) ∷ other) = insert k v (extend m other)

  pub get-insert :
      (k j : K) (v : V) (m : HashMap K V)
      → get j (insert k v m) ≡ (if k == j then some v else get j m)
  unfolding get insert
  get-insert k j v [] = refl
  get-insert k j v ((i, w) ∷ m) =
      ground (arith, e.same_iff k j, e.same_iff i k, e.same_iff i j, get-insert k j v m)

  pub get-remove :
      (k j : K) (m : HashMap K V) → get j (remove k m) ≡ (if k == j then none else get j m)
  unfolding get remove
  get-remove k j [] = ground arith
  get-remove k j ((i, w) ∷ m) =
      ground (arith, e.same_iff k j, e.same_iff i k, e.same_iff i j, get-remove k j m)

  pub remove-none : (k : K) (m : HashMap K V) → get k m ≡ none → remove k m ≡ m
  unfolding get remove
  remove-none k [] h = refl
  remove-none k ((j, w) ∷ m) h = elim (Bool-cases (j == k)) [
    | inl same ↦ absurd (ground (arith, h, same))
    | inr other ↦
        rw (other, remove) (ap (λ rest. (j, w) ∷ rest) (remove-none k m (ground (arith, h, other))))
  ]

  pub get-extend :
      (j : K) (m other : HashMap K V) → get j (extend m other) ≡ or_else (get j other) (get j m)
  unfolding get extend
  get-extend j m [] = refl
  get-extend j m ((k, v) ∷ other) =
      ground (arith, get-insert k j v (extend m other), get-extend j m other)

  pub extend-nil : (m : HashMap K V) → extend m [] ≡ m
  unfolding extend
  extend-nil m = refl

  pub length-insert :
      (k : K) (v : V) (m : HashMap K V)
      → length (insert k v m) ≡ (if is_some (get k m) then length m else suc (length m))
  unfolding get insert
  length-insert k v [] = refl
  length-insert k v ((i, w) ∷ m) = ground (arith, length-insert k v m)

  pub length-remove-le : (k : K) (m : HashMap K V) → length (remove k m) ≤ length m
  unfolding remove
  length-remove-le k [] = omega arith
  length-remove-le k ((i, w) ∷ m) = ground (arith, length-remove-le k m)

  pub length-remove-lt :
      (k : K) (m : HashMap K V) {v : V} → get k m ≡ some v → length (remove k m) < length m
  unfolding get remove
  length-remove-lt k [] h = ground arith
  length-remove-lt k ((i, w) ∷ m) {v} h =
      ground (arith, length-remove-le k m, length-remove-lt k m {v = v})

  -- A predicate on the values of a map.
  abbrev pub AllValues {μ} : (V → Type μ) → HashMap K V → Type μ
  AllValues P = All (λ entry. P entry.1)

  module _ {μ} (P : V → Type μ) where
    pub insert-AllValues :
        (k : K) (v : V) (m : HashMap K V) → P v → AllValues P m → AllValues P (insert k v m)
    unfolding insert
    insert-AllValues k v [] p h = (p, tt)
    insert-AllValues k v ((i, w) ∷ m) p h = ground (arith, insert-AllValues k v m p h.1)

    pub remove-AllValues : (k : K) (m : HashMap K V) → AllValues P m → AllValues P (remove k m)
    unfolding remove
    remove-AllValues k [] h = tt
    remove-AllValues k ((i, w) ∷ m) h = ground (arith, remove-AllValues k m h.1)

    pub get-AllValues : (k : K) (m : HashMap K V) {v : V} → AllValues P m → get k m ≡ some v → P v
    unfolding get
    get-AllValues k [] h e = ground arith
    get-AllValues k ((i, w) ∷ m) {v} h e = ground (arith, get-AllValues k m {v = v} h.1)
