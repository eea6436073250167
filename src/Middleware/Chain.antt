-- ===== src/Middleware/Chain.antt =====
-- src/middleware/chain.rs: the order in which the chain runs.
use shenron.Common.{List, [], ◌∷◌, ◌++◌, ◌≡◌, refl, sym, ◌∙◌, ap}
use mathlib.Core.List.{reverse, reverse-cons}
use shenron.Exit.{IntoExit, code}
use shenron.Task.{Task, Handler, returned}
use shenron.Middleware.{Middleware, base, wrap, build_chain, terminal}

module _ {P V : Type 0} where
  -- The chain, with the first middleware outermost; without any, a session exits with code 0.
  abbrev pub nest : List (Middleware P V) → Handler P V
  nest [] = λ f. (f, returned (code 0))
  nest (m ∷ ms) = m (nest ms)

  wrap-append :
      (xs ys : List (Middleware P V)) (h : Handler P V) → wrap (xs ++ ys) h ≡ wrap ys (wrap xs h)
  unfolding wrap
  wrap-append [] ys h = refl
  wrap-append (x ∷ xs) ys h = wrap-append xs ys (x h)

  wrap-reverse : (ms : List (Middleware P V)) → wrap (reverse ms) base ≡ nest ms
  unfolding wrap base
  wrap-reverse [] = refl
  wrap-reverse (m ∷ ms) =
      ap (λ l. wrap l base) (reverse-cons m ms)
      ∙ wrap-append (reverse ms) (m ∷ []) base
      ∙ ap m (wrap-reverse ms)

  nest-append :
      (xs ys : List (Middleware P V)) (zs : List (Middleware P V))
      → nest ys ≡ nest zs
      → nest (xs ++ ys) ≡ nest (xs ++ zs)
  nest-append [] ys zs e = e
  nest-append (x ∷ xs) ys zs e = ap x (nest-append xs ys zs e)

  -- The middleware that was added first is outermost, and each gets the chain of the later ones;
  -- an empty chain exits with code 0.
  pub build_chain-nest : (ms : List (Middleware P V)) → build_chain ms ≡ nest ms
  unfolding build_chain
  build_chain-nest ms = wrap-reverse ms

  -- What is added after an app never runs.
  pub build_chain-terminal :
      {R : Type 0} ⦃i : IntoExit R⦄ (app : Task P V R) (before after : List (Middleware P V))
      → build_chain (before ++ terminal app ∷ after) ≡ build_chain (before ++ terminal app ∷ [])
  unfolding terminal
  build_chain-terminal app before after =
      build_chain-nest (before ++ terminal app ∷ after)
      ∙ nest-append before (terminal app ∷ after) (terminal app ∷ []) refl
      ∙ sym (build_chain-nest (before ++ terminal app ∷ []))
