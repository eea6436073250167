-- ===== src/Events/Interceptors.antt =====
-- src/events/interceptor.rs. An interceptor may keep state; `S` is the state of them all.
use shenron.Common.{Option, none, some, List, [], ◌∷◌, ◌++◌, ◌≡◌, refl}

abbrev pub Interceptor : Type 0 → Type 0 → Type 0
Interceptor S E = E → S → S × Option E

module _ {S E : Type 0} where
  -- `?` on the event of one interceptor, and the loop after it.
  pub passed_on : (E → S → S × Option E) → S × Option E → S × Option E
  passed_on rest (s, none) = (s, none)
  passed_on rest (s, some event) = rest event s

  pub apply : List (Interceptor S E) → Interceptor S E
  unfolding passed_on
  apply [] event s = (s, some event)
  apply (i ∷ is) event s = passed_on (apply is) (i event s)

  -- `Interceptors::with`
  pub with_interceptor : Interceptor S E → List (Interceptor S E) → List (Interceptor S E)
  with_interceptor i is = is ++ i ∷ []

  passed_on-last : (out : S × Option E) → passed_on (λ event s. (s, some event)) out ≡ out
  unfolding passed_on
  passed_on-last (s, none) = refl
  passed_on-last (s, some event) = refl

  passed_on-append :
      (xs : List (Interceptor S E)) (i : Interceptor S E) (out : S × Option E)
      → ((event : E) (s : S)
          → apply (with_interceptor i xs) event s ≡ passed_on i (apply xs event s))
      → passed_on (apply (with_interceptor i xs)) out ≡ passed_on i (passed_on (apply xs) out)
  unfolding passed_on
  passed_on-append xs i (s, none) h = refl
  passed_on-append xs i (s, some event) h = h event s

  -- An interceptor that is added sees exactly the events that the ones before it let through, as
  -- they left them; where one of them drops the event it does not run.
  pub apply-with_interceptor :
      (xs : List (Interceptor S E)) (i : Interceptor S E) (event : E) (s : S)
      → apply (with_interceptor i xs) event s ≡ passed_on i (apply xs event s)
  unfolding apply with_interceptor passed_on
  apply-with_interceptor [] i event s = passed_on-last (i event s)
  apply-with_interceptor (x ∷ xs) i event s =
      passed_on-append xs i (x event s) (apply-with_interceptor xs i)
