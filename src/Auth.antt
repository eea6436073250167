-- ===== src/Auth.antt =====
-- src/auth: outcome.rs, config.rs, keyboard_interactive.rs and the closure traits password.rs,
-- pubkey.rs and cert.rs. `P` is russh's `PublicKey`, `C` its `Certificate`, and `V` the type of
-- the values in `Extensions`. A handler is a function of what it is given.
pub mod AuthorizedKeys
pub mod TrustedCa
pub mod Methods
use shenron.Common.{
  ℕ, Bool, true, false, Option, none, some, List, [], ◌∷◌, ◌++◌, if◌then◌else◌, Text, text, is_some,
  not, ◌&&◌, ◌||◌,
}
use shenron.Error.{Error, protocol, Result, ok, err}
use shenron.Extensions
use shenron.Extensions.{Extensions}
use shenron.Utf8.{from_utf8}

-- `auth::Auth`
pub record AuthOutcome (V : Type 0) : Type 0 where
  pub accepted : Bool
  pub extensions : Extensions V

module _ {V : Type 0} where
  unfoldable pub accept : AuthOutcome V
  accept = record { accepted = true; extensions = Extensions.default }

  pub reject : AuthOutcome V
  reject = record { accepted = false; extensions = Extensions.default }

  -- `Auth::with`, for a value of the type with the given `TypeId`.
  unfoldable pub attach : ℕ → V → AuthOutcome V → AuthOutcome V
  attach t v auth = record auth { extensions = Extensions.insert t v auth.extensions }

  unfoldable pub from_bool : Bool → AuthOutcome V
  unfolding accept reject
  from_bool accepted = if accepted then accept else reject

-- src/auth/keyboard_interactive.rs
pub record Prompt : Type 0 where
  pub text : Text
  pub echo : Bool

-- The part of `Challenge` that the client sees.
pub record Challenge : Type 0 where
  pub name : Text
  pub instructions : Text
  pub prompts : List Prompt

-- A keyboard-interactive handler: it returns, panics, or sends a challenge and waits for the
-- answers, which fail when the reply is dropped.
pub data Dialog (V : Type 0) : Type 0 where
  verdict : Result Error (AuthOutcome V) → Dialog V
  crash : Text → Dialog V
  ask : Challenge → (Result Error (List Text) → Dialog V) → Dialog V

unfoldable pub disconnected : Error
disconnected = protocol (text "keyboard-interactive client disconnected")

-- src/auth/config.rs
pub record AuthConfig (P C V : Type 0) : Type 0 where
  pub password : Option (Text → Text → AuthOutcome V)
  pub pubkey : Option (Text → P → AuthOutcome V)
  pub cert : Option (Text → C → AuthOutcome V)
  pub keyboard_interactive : Option (Text → Dialog V)

pub data MethodKind : Type 0 where
  none_method password_method public_key keyboard_interactive_method : MethodKind

-- `Vec::push` of a method under an `if`.
abbrev push_if : Bool → MethodKind → List MethodKind → List MethodKind
push_if b m methods = if b then methods ++ m ∷ [] else methods

module _ {P C V : Type 0} where
  unfoldable pub is_empty : AuthConfig P C V → Bool
  is_empty a =
      not (is_some a.password)
      && not (is_some a.pubkey)
      && not (is_some a.cert)
      && not (is_some a.keyboard_interactive)

  pub methods : AuthConfig P C V → List MethodKind
  methods a =
      let configured = push_if (is_some a.keyboard_interactive) keyboard_interactive_method (
        push_if (is_some a.pubkey || is_some a.cert) public_key
          (push_if (is_some a.password) password_method [])) in
      if is_empty a then none_method ∷ password_method ∷ public_key ∷ [] else configured

abbrev cons_answer : Option Text → Option (List Text) → Option (List Text)
cons_answer none rest = none
cons_answer (some t) none = none
cons_answer (some t) (some ts) = some (t ∷ ts)

-- `decode_answers` of src/server/russh.rs
pub decode_answers : List (List ℕ) → Option (List Text)
decode_answers [] = some []
decode_answers (b ∷ answers) = cons_answer (from_utf8 b) (decode_answers answers)
