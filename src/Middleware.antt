-- ===== src/Middleware.antt =====
-- src/middleware/chain.rs, core.rs, erased.rs and next.rs: the chain of middleware. A middleware
-- is erased to a function from the rest of the chain; the source runs `next` at most once, since
-- `Next::run` consumes it.
pub mod Builtins
pub mod Chain
use shenron.Common.{List, [], ◌∷◌}
use mathlib.Core.List.{reverse}
use shenron.Exit.{Exit, code, IntoExit}
use shenron.Session.{Session}
use shenron.Task.{Task, Handler, Frame, pure, erase}

abbrev pub Middleware : Type 0 → Type 0 → Type 0
Middleware P V = Handler P V → Handler P V

module _ {P V : Type 0} where
  -- The innermost handler.
  unfoldable pub base : Handler P V
  base = pure (code 0)

  -- The loop of `build_chain`, over the middleware from the last to the first.
  wrap : List (Middleware P V) → Handler P V → Handler P V
  wrap [] chain = chain
  wrap (mw ∷ rest) chain = wrap rest (mw chain)

  pub build_chain : List (Middleware P V) → Handler P V
  unfolding wrap
  build_chain middleware = wrap (reverse middleware) base

  -- `terminal`: the app ignores the rest of the chain.
  unfoldable pub terminal : {R : Type 0} ⦃i : IntoExit R⦄ → Task P V R → Middleware P V
  terminal app next = erase app
