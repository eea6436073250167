-- ===== src/Auth/TrustedCa/Login.antt =====
-- src/auth/trusted_ca.rs on a server: who logs in by certificate.
use shenron.Common.{
  subst, Bool, true, false, Option, none, some, List, [], ◌∷◌, ◌≡◌, refl, sym, ◌∙◌, ap, Text, ◌⊎◌,
  inl, inr, any, ◌==◌, text_eq, text_beq_iff, arith, Bool-cases,
}
use mathlib.Core.Option.{some-injective}
use shenron.Session.{SocketAddr}
use shenron.Auth.{AuthConfig, AuthOutcome, from_bool}
use shenron.Auth.TrustedCa.{Certificate, user_cert, check, trusted_ca_keys}
use shenron.Server.{ShenronServer}
use shenron.Server.Connection.{
  Attempt, by_none, by_key, by_cert, by_password, by_answers, Connection, connect, Reach,
}
use shenron.Server.Connection.Accepting.{Accepts, LetIn, Reach-IsLetIn}

-- The name is among the principals.
abbrev pub Names : Text → List Text → Type 0
Names user [] = ⊥
Names user (p ∷ ps) = (p ≡ user) ⊎ Names user ps

any-Names : (user : Text) (ps : List Text) → any (λ p. p == user) ps ≡ true → Names user ps
any-Names user [] e = absurd (cc)
any-Names user (p ∷ ps) e = elim (Bool-cases (p == user)) [
  | inl same ↦ inl ((text_beq_iff p user).0 same)
  | inr other ↦ inr (any-Names user ps (ground (arith, e, other)))
]

pub from_bool-accepted : (V : Type 0) (b : Bool) → (from_bool {V = V} b).accepted ≡ b
unfolding from_bool
from_bool-accepted V true = refl
from_bool-accepted V false = refl

module _ {F : Type 0} where
  -- A certificate that lets the user in.
  pub record Admits (fingerprints : List F) (user : Text) (cert : Certificate F) : Type 0 where
    pub is_user : cert.cert_type ≡ user_cert
    pub is_valid : cert.validate fingerprints ≡ true
    pub is_named : Names user cert.valid_principals
    pub unrestricted : cert.critical_options ≡ []

  check-Admits :
      (user : Text) (cert : Certificate F) (fingerprints : List F)
      → check user cert fingerprints ≡ true
      → Admits fingerprints user cert
  unfolding check
  check-Admits user cert fingerprints e = record {
    is_user = ground (arith, e);
    is_valid = ground (arith, e);
    is_named = any-Names user cert.valid_principals (ground (arith, e));
    unrestricted = ground (arith, e);
  }

module _ {V F : Type 0} where
  accepted-Admits :
      (fingerprints : List F) (user : Text) (verify : Text → Certificate F → AuthOutcome V)
      (cert : Certificate F)
      → some (trusted_ca_keys fingerprints) ≡ some verify
      → (verify user cert).accepted ≡ true
      → Admits fingerprints user cert
  unfolding trusted_ca_keys
  accepted-Admits fingerprints user verify cert e accepts = check-Admits user cert fingerprints (
      sym (from_bool-accepted V (check user cert fingerprints))
      ∙ ap (λ v. (v user cert).accepted) (some-injective _ _ e)
      ∙ accepts)

module _ {P F : Type 0} where
  -- The attempt presents a certificate that lets the user in.
  abbrev IsCert : List F → Text → Attempt P (Certificate F) → Type 0
  IsCert fingerprints user a =
      (cert : Certificate F) × (a ≡ by_cert cert) × Admits fingerprints user cert

module _ {P V F : Type 0} where
  -- A server that takes certificates only.
  unfoldable pub ca_only : List F → AuthConfig P (Certificate F) V
  ca_only fingerprints = record {
    password = none;
    pubkey = none;
    cert = some (trusted_ca_keys fingerprints);
    keyboard_interactive = none;
  }

module _ {P F : Type 0} where
  Accepts-IsCert :
      (V : Type 0) (fingerprints : List F) (user : Text) (a : Attempt P (Certificate F))
      → Accepts {V = V} (ca_only fingerprints) user a
      → IsCert fingerprints user a
  unfolding ca_only
  Accepts-IsCert V fingerprints user by_none h = absurd (cc h.no_cert)
  Accepts-IsCert V fingerprints user (by_key key) (inl (e, h)) = absurd (cc h.no_cert)
  Accepts-IsCert V fingerprints user (by_key key) (inr (verify, e, accepts)) = absurd (cc e)
  Accepts-IsCert V fingerprints user (by_cert cert) (inl (e, h)) = absurd (cc e)
  Accepts-IsCert V fingerprints user (by_cert cert) (inr (verify, e, accepts)) =
      (cert, refl, accepted-Admits fingerprints user verify cert e accepts)
  Accepts-IsCert V fingerprints user (by_password pw) (inl (e, h)) = absurd (cc h.no_cert)
  Accepts-IsCert V fingerprints user (by_password pw) (inr (verify, e, accepts)) = absurd (cc e)
  Accepts-IsCert V fingerprints user (by_answers r) (verify, e) = absurd (cc e)

module _ {P V F : Type 0} where
  -- On a server whose only handler is `trusted_ca_keys`, an authenticated connection has the user
  -- of an attempt on the way to it that was accepted and presented a certificate: a user
  -- certificate that names this user among its principals, that the listed fingerprints validate
  -- and that has no critical options.
  pub Reach-Admits :
      (inner_key : Certificate F → P) (fingerprints : List F)
      (server : ShenronServer P (Certificate F) V) (addr : Option SocketAddr)
      {c : Connection P (Certificate F) V}
      → server.auth ≡ ca_only fingerprints
      → (r : Reach inner_key (connect server addr) c) → c.authenticated ≡ true
      → (user : Text) × (cert : Certificate F) × LetIn r user (by_cert cert)
        × (c.handler.user ≡ some user)
        × Admits fingerprints user cert
  Reach-Admits inner_key fingerprints server addr only r e =
      let (user, a, way, is_user, accepts) = Reach-IsLetIn inner_key server addr r e in
      let (cert, same, admits) =
        Accepts-IsCert V fingerprints user a (subst (λ auth. Accepts auth user a) only accepts) in
      (user, cert, subst (LetIn r user) same way, is_user, admits)
