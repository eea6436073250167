-- ===== src/Server/Connection/Open.antt =====
-- src/server/russh.rs: an attempt that the configuration accepts is accepted.
use shenron.Common.{
  Bool, true, false, Option, some, ◌≡◌, sym, ◌∙◌, Text, arith, is_some, Bool-cases, inl, inr,
}
use shenron.Error.{ok}
use shenron.Auth.{AuthConfig, AuthOutcome, is_empty}
use shenron.Server.{
  ShenronHandler, consult, finish_auth, conclude_auth, auth_none, auth_publickey,
  auth_openssh_certificate, auth_password,
}
use shenron.Server.Connection.{
  Attempt, by_none, by_key, by_cert, by_password, by_answers, accepted_by, is_accept, attempt,
}

-- Every attempt but a keyboard-interactive one.
abbrev pub TakesOneRound : {P C : Type 0} → Attempt P C → Type 0
TakesOneRound (by_answers response) = ⊥
TakesOneRound _ = Unit

module _ {P C V : Type 0} where
  -- What the configuration says to an attempt that takes one round: the handler of the method
  -- where there is one, and otherwise whether the server is open.
  abbrev pub says : AuthConfig P C V → Text → Attempt P C → Bool
  says auth user by_none = is_empty auth
  says auth user (by_key key) = (consult auth.pubkey user key (is_empty auth)).accepted
  says auth user (by_cert cert) = (consult auth.cert user cert (is_empty auth)).accepted
  says auth user (by_password password) =
      (consult auth.password user password (is_empty auth)).accepted
  says auth user (by_answers response) = false

  finish_auth-accepted :
      (user : Text) (b : Bool) (h : ShenronHandler P C V)
      → is_some h.remote_addr ≡ true
      → is_accept (ok (finish_auth user b h).1) ≡ b
  unfolding finish_auth
  finish_auth-accepted user b h e = ground (arith, e)

  finish_auth-rejected : (user : Text) (h : ShenronHandler P C V) → (finish_auth user false h).0 ≡ h
  unfolding finish_auth
  finish_auth-rejected user h = ground arith

  conclude-accepted :
      (user : Text) (key : Option P) (outcome : AuthOutcome V) (h : ShenronHandler P C V)
      → is_some h.remote_addr ≡ true
      → is_accept (ok (conclude_auth user key outcome h).1) ≡ outcome.accepted
  unfolding conclude_auth
  conclude-accepted user key outcome h e = elim (Bool-cases outcome.accepted) [
    | inl granted ↦ rw (granted, conclude_auth) (finish_auth-accepted user true _ e)
    | inr denied ↦ rw (denied, conclude_auth) (finish_auth-accepted user false h e)
  ]

  conclude-rejected :
      (user : Text) (key : Option P) (outcome : AuthOutcome V) (h : ShenronHandler P C V)
      → outcome.accepted ≡ false
      → (conclude_auth user key outcome h).0 ≡ h
  unfolding conclude_auth
  conclude-rejected user key outcome h denied =
      rw (denied, conclude_auth) (finish_auth-rejected user h)

  pub attempt-says :
      (inner_key : C → P) (user : Text) (a : Attempt P C) (h : ShenronHandler P C V)
      → TakesOneRound a
      → is_some h.remote_addr ≡ true
      → is_accept (attempt inner_key user a h).1 ≡ says h.auth user a
  unfolding attempt auth_none auth_publickey auth_openssh_certificate auth_password accepted_by
  attempt-says inner_key user by_none h t e = finish_auth-accepted user (is_empty h.auth) h e
  attempt-says inner_key user (by_key key) h t e = conclude-accepted user (some key) _ h e
  attempt-says inner_key user (by_cert cert) h t e =
      conclude-accepted user (some (inner_key cert)) _ h e
  attempt-says inner_key user (by_password password) h t e =
      conclude-accepted user h.public_key _ h e
  attempt-says inner_key user (by_answers response) h t e = elim t [ ]

  attempt-denied :
      (inner_key : C → P) (user : Text) (a : Attempt P C) (h : ShenronHandler P C V)
      → TakesOneRound a
      → says h.auth user a ≡ false
      → (attempt inner_key user a h).0 ≡ h
  unfolding attempt auth_none auth_publickey auth_openssh_certificate auth_password accepted_by
  attempt-denied inner_key user by_none h t e = rw e (finish_auth-rejected user h)
  attempt-denied inner_key user (by_key key) h t e = conclude-rejected user (some key) _ h e
  attempt-denied inner_key user (by_cert cert) h t e =
      conclude-rejected user (some (inner_key cert)) _ h e
  attempt-denied inner_key user (by_password password) h t e =
      conclude-rejected user h.public_key _ h e
  attempt-denied inner_key user (by_answers response) h t e = elim t [ ]

  -- With a known address, an attempt of one round that is not accepted leaves the connection as it
  -- is: no user, no key and no attached data stay behind.
  pub attempt-rejected :
      (inner_key : C → P) (user : Text) (a : Attempt P C) (h : ShenronHandler P C V)
      → TakesOneRound a
      → is_some h.remote_addr ≡ true
      → is_accept (attempt inner_key user a h).1 ≡ false
      → (attempt inner_key user a h).0 ≡ h
  attempt-rejected inner_key user a h t addr e =
      attempt-denied inner_key user a h t (sym (attempt-says inner_key user a h t addr) ∙ e)
