-- ===== src/Extensions.antt =====
-- src/session/extensions.rs. `Box<dyn CloneAny>` is a value with the `TypeId` of its concrete
-- type; the values themselves are of the type parameter `V`, and a `TypeId` is a number.
pub mod Laws
pub mod Bag
use shenron.Common.{ℕ, ◌≡◌, Bool, Option, none, some, List, [], if◌then◌else◌, nat_beq, nat_eq}
use shenron.HashMap
use shenron.HashMap.{HashMap}

pub record Boxed (V : Type 0) : Type 0 where
  pub type_id : ℕ
  pub value : V

module _ {V : Type 0} where
  -- `downcast_ref`, `downcast_mut` and `downcast`: they test the dynamic type.
  abbrev downcast : ℕ → Boxed V → Option V
  downcast t b = if nat_beq b.type_id t then some b.value else none

  abbrev and_then : Option (Boxed V) → (Boxed V → Option V) → Option V
  and_then none f = none
  and_then (some b) f = f b

abbrev pub Extensions : Type 0 → Type 0
Extensions V = HashMap ℕ (Boxed V)

-- Each function takes the `TypeId` of its type argument `T`.
module _ {V : Type 0} where
  abbrev pub default : Extensions V
  default = []

  unfoldable pub insert : ℕ → V → Extensions V → Extensions V
  insert t value ext = HashMap.insert t (record { type_id = t; value = value }) ext

  pub get : ℕ → Extensions V → Option V
  get t ext = and_then (HashMap.get t ext) (downcast t)

  -- `get_mut`, and the write through the reference that it hands out.
  pub modify : ℕ → (V → V) → Extensions V → Extensions V
  modify t f ext = elim (HashMap.get t ext) [
    | none ↦ ext
    | some b ↦
        if nat_beq b.type_id t then HashMap.insert t (record b { value = f b.value }) ext else ext
  ]

  pub remove : ℕ → Extensions V → Option V × Extensions V
  remove t ext = (and_then (HashMap.get t ext) (downcast t), HashMap.remove t ext)

  unfoldable pub merge : Extensions V → Extensions V → Extensions V
  merge ext other = HashMap.extend ext other
