-- ===== src/Session/Attached.antt =====
-- src/session/core.rs: the typed values of a session. Each function takes the `TypeId` of `T`.
use shenron.Common.{ℕ, Option}
use shenron.Extensions
use shenron.Session.{Session}

module _ {P V : Type 0} where
  unfoldable pub get : ℕ → Session P V → Option V
  get t s = Extensions.get t s.extensions

  unfoldable pub insert : ℕ → V → Session P V → Session P V
  insert t value s = record s { extensions = Extensions.insert t value s.extensions }

  -- `Session::get_mut`, and the write through the reference that it hands out.
  unfoldable pub modify : ℕ → (V → V) → Session P V → Session P V
  modify t f s = record s { extensions = Extensions.modify t f s.extensions }

  abbrev taken : Session P V → Option V × Extensions.Extensions V → Session P V × Option V
  taken s (value, ext) = (record s { extensions = ext }, value)

  unfoldable pub remove : ℕ → Session P V → Session P V × Option V
  remove t s = taken s (Extensions.remove t s.extensions)
