-- ===== src/Server/Connection/Verdicts.antt =====
-- What an accepted attempt rests on.
use shenron.Common.{
  ℕ, Bool, true, false, Option, none, some, List, ◌≡◌, refl, Text, arith, sym, subst, ◌⊎◌, inl, inr,
}
use mathlib.Core.Option.{some-injective}
use shenron.Error.{Error, Result, ok, err}
use shenron.Auth.{
  AuthConfig, AuthOutcome, Dialog, verdict, crash, ask, is_empty, from_bool, decode_answers,
}
use shenron.Server.{
  ShenronHandler, KbiState, consult, finish_auth, conclude_auth, advance_on, answer_kbi, kbi_round,
  reply_slot,
}
use shenron.Server.Connection.{accepted_by, is_accept, RoundContinues}
use shenron.Server.Connection.Dialogs.{Runs, start, Waits, IsWaiting, slot-pending}

-- What the configuration accepts for a user.
pub data Grants {P C V : Type 0} (auth : AuthConfig P C V) (user : Text) : Type 0 where
  open_server : is_empty auth ≡ true → Grants auth user
  password_accepts :
      (verify : Text → Text → AuthOutcome V) (password : Text)
      → auth.password ≡ some verify
      → (verify user password).accepted ≡ true
      → Grants auth user
  key_accepts :
      (verify : Text → P → AuthOutcome V) (key : P)
      → auth.pubkey ≡ some verify
      → (verify user key).accepted ≡ true
      → Grants auth user
  cert_accepts :
      (verify : Text → C → AuthOutcome V) (cert : C)
      → auth.cert ≡ some verify
      → (verify user cert).accepted ≡ true
      → Grants auth user
  dialog_accepts :
      (verify : Text → Dialog V) (outcome : AuthOutcome V)
      → auth.keyboard_interactive ≡ some verify
      → Runs (verify user) (verdict (ok outcome))
      → outcome.accepted ≡ true
      → Grants auth user

pub consult_accepts :
    {A V : Type 0} (config : Option (Text → A → AuthOutcome V)) (user : Text) (a : A) (empty : Bool)
    → (consult config user a empty).accepted ≡ true
    → (empty ≡ true)
      ⊎ ((verify : Text → A → AuthOutcome V) × (config ≡ some verify)
          × ((verify user a).accepted ≡ true))
unfolding consult from_bool
consult_accepts none user a true e = inl refl
consult_accepts none user a false e = absurd (cc)
consult_accepts (some verify) user a empty e = inr (verify, refl, e)

module _ {P C V : Type 0} where
  pub conclude_accepts :
      (user : Text) (key : Option P) (o : AuthOutcome V) (h : ShenronHandler P C V)
      → is_accept (accepted_by (conclude_auth user key o h)).1 ≡ true
      → o.accepted ≡ true
  unfolding conclude_auth finish_auth accepted_by
  conclude_accepts user key o h e = ground arith

  pub finish_accepts :
      (user : Text) (b : Bool) (h : ShenronHandler P C V)
      → is_accept (accepted_by (finish_auth user b h)).1 ≡ true
      → b ≡ true
  unfolding finish_auth accepted_by
  finish_accepts user b h e = ground arith

  -- An accepting verdict of a conversation.
  advance_accepts :
      (auth : AuthConfig P C V) (user : Text) (verify : Text → Dialog V) (d : Dialog V)
      (h : ShenronHandler P C V)
      → auth.keyboard_interactive ≡ some verify
      → Runs (verify user) d
      → is_accept (advance_on user d h).1 ≡ true
      → Grants auth user
  unfolding advance_on accepted_by
  advance_accepts auth user verify (verdict (ok o)) h c r e =
      dialog_accepts verify o c r (conclude_accepts user h.public_key o _ e)
  advance_accepts auth user verify (verdict (err x)) h c r e = absurd (cc)
  advance_accepts auth user verify (crash m) h c r e = absurd (cc)
  advance_accepts auth user verify (ask ch k) h c r e = absurd (cc)

  answer_accepts :
      (auth : AuthConfig P C V) (user : Text) (st : KbiState V)
      (k : Result Error (List Text) → Dialog V) (answers : Option (List Text))
      (h : ShenronHandler P C V)
      → Waits auth.keyboard_interactive (some user) st
      → st.pending ≡ some k
      → is_accept (answer_kbi user answers k h).1 ≡ true
      → Grants auth user
  unfolding answer_kbi accepted_by
  answer_accepts auth user st k none h w p e = absurd (cc (finish_accepts user false _ e))
  answer_accepts auth user st k (some answers) h w p e =
      advance_accepts auth user w.verify _ _ w.configured
        (subst (λ u. Runs (w.verify u) (k (ok answers))) (sym (some-injective _ _ w.belongs))
          (w.replies k p (ok answers)))
        e

  answered_accepts :
      (auth : AuthConfig P C V) (verify : Text → Dialog V) (user : Text) (r : List (List ℕ))
      (ku : Option Text) (h : ShenronHandler P C V)
      (slot : Option (Result Error (List Text) → Dialog V))
      → reply_slot h.kbi ≡ slot
      → ku ≡ some user
      → IsWaiting auth.keyboard_interactive ku h.kbi
      → is_accept (kbi_round user (some verify) (some r) slot h).1 ≡ true
      → Grants auth user
  unfolding kbi_round accepted_by
  answered_accepts auth verify user r ku h none s cont w e =
      absurd (cc (finish_accepts user false h e))
  answered_accepts auth verify user r ku h (some k) s cont w e =
      let (st, waiting, pending) = slot-pending h.kbi k s in
      answer_accepts auth user st k (decode_answers r) h
        (subst (λ u. Waits auth.keyboard_interactive u st) cont (w st waiting)) pending e

  pub round_accepts :
      (auth : AuthConfig P C V) (config : Option (Text → Dialog V)) (user : Text)
      (response : Option (List (List ℕ))) (ku : Option Text) (h : ShenronHandler P C V)
      → auth.keyboard_interactive ≡ config
      → RoundContinues response user ku
      → IsWaiting auth.keyboard_interactive ku h.kbi
      → is_accept (kbi_round user config response (reply_slot h.kbi) h).1 ≡ true
      → Grants auth user
  unfolding kbi_round accepted_by
  round_accepts auth none user r ku h c cont w e = absurd (cc (finish_accepts user false h e))
  round_accepts auth (some verify) user none ku h c cont w e =
      advance_accepts auth user verify (verify user) _ c start e
  round_accepts auth (some verify) user (some r) ku h c cont w e =
      answered_accepts auth verify user r ku h (reply_slot h.kbi) refl cont w e

  pub grant_by :
      {A : Type 0} {auth : AuthConfig P C V} {user : Text} {a : A}
      {config : Option (Text → A → AuthOutcome V)}
      → ((verify : Text → A → AuthOutcome V)
          → config ≡ some verify
          → (verify user a).accepted ≡ true
          → Grants auth user)
      → (is_empty auth ≡ true)
        ⊎ ((verify : Text → A → AuthOutcome V) × (config ≡ some verify)
            × ((verify user a).accepted ≡ true))
      → Grants auth user
  grant_by rule (inl empty) = open_server empty
  grant_by rule (inr (verify, configured, accepted)) = rule verify configured accepted
