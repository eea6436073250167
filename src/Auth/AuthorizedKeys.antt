-- ===== src/Auth/AuthorizedKeys.antt =====
-- src/auth/authorized_keys.rs, and who logs in on a server that uses it. `P` is russh's `PublicKey`
-- and `D` its `KeyData`. What ssh-key reads from the file is a parameter.
use shenron.Common.{
  subst, ap, sym, ◌∙◌, ◌≡◌, refl, ◌⊎◌, inl, inr, Bool, true, Option, none, some, List, [], ◌∷◌, map,
  Text, any, ◌==◌, Equality, Bool-cases, arith,
}
use mathlib.Core.Option.{some-injective}
use shenron.Error.{Error, Result, ok, err}
use shenron.Session.{SocketAddr}
use shenron.Auth.{AuthConfig, AuthOutcome, from_bool}
use shenron.Auth.TrustedCa.Login.{from_bool-accepted}
use shenron.Server.{ShenronServer}
use shenron.Server.Connection.{
  Attempt, by_none, by_key, by_cert, by_password, by_answers, Connection, connect, Reach,
}
use shenron.Server.Connection.Accepting.{Accepts, LetIn, Reach-IsLetIn}

-- The key has the data of one that is listed.
abbrev pub IsListed : {P D : Type 0} → (P → D) → P → List P → Type 0
IsListed key_data key [] = ⊥
IsListed key_data key (entry ∷ entries) =
    (key_data entry ≡ key_data key) ⊎ IsListed key_data key entries

module _ {P D : Type 0} ⦃e : Equality D⦄ (key_data : P → D) where
  -- The closure; the set of `KeyData` is a list.
  unfoldable pub listed : List D → Text → P → Bool
  listed keys user key = any (λ d. d == key_data key) keys

  -- The argument is what `AuthorizedKeys::read_file` returns, an entry by its key.
  unfoldable pub authorized_keys : Result Error (List P) → Result Error (Text → P → Bool)
  authorized_keys (err failure) = err failure
  authorized_keys (ok entries) = ok (listed (map key_data entries))

  abbrev closure : (Text → P → Bool) → Result Error (Text → P → Bool) → Text → P → Bool
  closure default (ok handler) = handler
  closure default (err failure) = default

  listed-IsListed :
      (user : Text) (key : P) (entries : List P)
      → listed (map key_data entries) user key ≡ true
      → IsListed key_data key entries
  unfolding listed
  listed-IsListed user key [] h = absurd (cc)
  listed-IsListed user key (entry ∷ entries) h =
      elim (Bool-cases (key_data entry == key_data key)) [
        | inl same ↦ inl ((e.same_iff (key_data entry) (key_data key)).0 same)
        | inr differs ↦ inr (listed-IsListed user key entries (ground (arith, h, differs)))
      ]

  -- A server with this handler and no other.
  unfoldable pub keys_only : {C V : Type 0} → (Text → P → Bool) → AuthConfig P C V
  keys_only handler = record {
    password = none;
    pubkey = some (λ user key. from_bool (handler user key));
    cert = none;
    keyboard_interactive = none;
  }

  module _ {V : Type 0} where
    accepted-IsListed :
        (entries : List P) (user : Text) (verify : Text → P → AuthOutcome V) (key : P)
        → some (λ user key. from_bool {V = V} (listed (map key_data entries) user key))
          ≡ some verify
        → (verify user key).accepted ≡ true
        → IsListed key_data key entries
    accepted-IsListed entries user verify key e accepts = listed-IsListed user key entries (
        sym (from_bool-accepted V (listed (map key_data entries) user key))
        ∙ ap (λ v. (v user key).accepted) (some-injective _ _ e)
        ∙ accepts)

  module _ {C : Type 0} where
    -- The attempt presents a key that is listed.
    abbrev IsKey : List P → Attempt P C → Type 0
    IsKey entries a = (key : P) × (a ≡ by_key key) × IsListed key_data key entries

    Accepts-IsKey :
        (V : Type 0) (entries : List P) (user : Text) (a : Attempt P C)
        → Accepts (keys_only {C = C} {V = V} (listed (map key_data entries))) user a
        → IsKey entries a
    unfolding keys_only
    Accepts-IsKey V entries user by_none h = absurd (cc h.no_pubkey)
    Accepts-IsKey V entries user (by_key key) (inl (x, h)) = absurd (cc x)
    Accepts-IsKey V entries user (by_key key) (inr (verify, x, accepts)) =
        (key, refl, accepted-IsListed entries user verify key x accepts)
    Accepts-IsKey V entries user (by_cert cert) (inl (x, h)) = absurd (cc h.no_pubkey)
    Accepts-IsKey V entries user (by_cert cert) (inr (verify, x, accepts)) = absurd (cc x)
    Accepts-IsKey V entries user (by_password pw) (inl (x, h)) = absurd (cc h.no_pubkey)
    Accepts-IsKey V entries user (by_password pw) (inr (verify, x, accepts)) = absurd (cc x)
    Accepts-IsKey V entries user (by_answers r) (verify, x) = absurd (cc x)

  module _ {C V : Type 0} where
    -- On a server whose only handler is `authorized_keys` of a file that was read, an authenticated
    -- connection has the user of an attempt on the way to it that was accepted and presented a key,
    -- and the key data of that key is the one of an entry; the name of the user is free.
    pub Reach-IsListed :
        (inner_key : C → P) (entries : List P) (handler : Text → P → Bool)
        (server : ShenronServer P C V) (addr : Option SocketAddr) {c : Connection P C V}
        → authorized_keys (ok entries) ≡ ok handler
        → server.auth ≡ keys_only handler
        → (r : Reach inner_key (connect server addr) c) → c.authenticated ≡ true
        → (user : Text) × (key : P) × LetIn r user (by_key key)
          × (c.handler.user ≡ some user)
          × IsListed key_data key entries
    unfolding authorized_keys
    Reach-IsListed inner_key entries handler server addr made only r authenticated =
        let (user, a, way, is_user, accepts) =
          Reach-IsLetIn inner_key server addr r authenticated in
        let (key, same, is_listed) = Accepts-IsKey V entries user a (
          subst (λ auth. Accepts auth user a)
            (only ∙ ap (λ h. keys_only (closure handler h)) (sym made)) accepts) in
        (user, key, subst (LetIn r user) same way, is_user, is_listed)
