-- ===== src/Auth/Methods.antt =====
-- src/auth/config.rs: the methods on offer.
use shenron.Common.{Bool, true, false, List, [], ◌∷◌, ◌≡◌, is_some, ◌||◌, arith}
use shenron.Auth.{
  AuthConfig, MethodKind, none_method, password_method, public_key, keyboard_interactive_method,
  is_empty, methods,
}

abbrev same_method : MethodKind → MethodKind → Bool
same_method none_method none_method = true
same_method password_method password_method = true
same_method public_key public_key = true
same_method keyboard_interactive_method keyboard_interactive_method = true
same_method _ _ = false

abbrev pub offers : MethodKind → List MethodKind → Bool
offers m [] = false
offers m (k ∷ ks) = same_method m k || offers m ks

-- The methods that a configuration serves: what `auth_none` and the other callbacks can accept.
abbrev pub serves : {P C V : Type 0} → AuthConfig P C V → MethodKind → Bool
serves a none_method = is_empty a
serves a password_method = is_some a.password || is_empty a
serves a public_key = is_some a.pubkey || is_some a.cert || is_empty a
serves a keyboard_interactive_method = is_some a.keyboard_interactive

module _ {P C V : Type 0} where
  -- The methods on offer are those that can succeed: the `none` method on an open server only,
  -- passwords and keys where a handler is configured or the server is open, and the
  -- keyboard-interactive method where its handler is configured.
  pub offers-methods : (a : AuthConfig P C V) (m : MethodKind) → offers m (methods a) ≡ serves a m
  unfolding methods is_empty
  offers-methods a m = ground arith
