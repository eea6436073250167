-- ===== src/Server/Connection/Dialogs.antt =====
-- Conversations of src/server/russh.rs: a keyboard-interactive handler under way belongs to the
-- user that it was begun for.
use shenron.Common.{ℕ, Bool, false, Option, none, some, List, ◌≡◌, refl, Text, arith, sym, subst}
use mathlib.Core.Option.{some-injective}
use shenron.Error.{Error, Result, ok, err}
use shenron.Auth.{AuthOutcome, Dialog, verdict, crash, ask, Challenge, decode_answers}
use shenron.Server.{
  ShenronHandler, KbiState, finish_auth, conclude_auth, advance_on, answer_kbi, kbi_round, resume,
  reply_slot,
}
use shenron.Server.Connection.{round_user, RoundContinues}

-- The states that a keyboard-interactive handler goes through, whatever it is answered.
pub data Runs {V : Type 0} (d : Dialog V) : Dialog V → Type 0 where
  start : Runs d d
  answered :
      {ch : Challenge} {k : Result Error (List Text) → Dialog V}
      → Runs d (ask ch k)
      → (r : Result Error (List Text)) → Runs d (k r)

-- A conversation that is under way belongs to the user that it was begun for.
pub record Waits {V : Type 0} (config : Option (Text → Dialog V)) (kbi_user : Option Text)
    (st : KbiState V) : Type 0 where
  pub user : Text
  pub verify : Text → Dialog V
  pub belongs : kbi_user ≡ some user
  pub configured : config ≡ some verify
  pub runs : Runs (verify user) st.task
  pub replies :
      (k : Result Error (List Text) → Dialog V)
      → st.pending ≡ some k
      → (r : Result Error (List Text)) → Runs (verify user) (k r)

abbrev pub IsWaiting :
    {V : Type 0} → Option (Text → Dialog V) → Option Text → Option (KbiState V) → Type 0
IsWaiting config kbi_user kbi = (st : KbiState _) → kbi ≡ some st → Waits config kbi_user st

some-IsWaiting :
    {V : Type 0} (config : Option (Text → Dialog V)) (kbi_user : Option Text) (st : KbiState V)
    → Waits config kbi_user st
    → IsWaiting config kbi_user (some st)
some-IsWaiting config kbi_user st w st' e = subst (Waits config kbi_user) (some-injective _ _ e) w

pub none-IsWaiting :
    {V : Type 0} (config : Option (Text → Dialog V)) (kbi_user : Option Text)
    → IsWaiting config kbi_user none
none-IsWaiting config kbi_user st e = cc

module _ {V : Type 0} where
  -- The conversation after the answers to its challenge, or after their loss.
  resume-Waits :
      (config : Option (Text → Dialog V)) (kbi_user : Option Text) (st : KbiState V)
      (k : Result Error (List Text) → Dialog V) (x : Result Error (List Text))
      → Waits config kbi_user st
      → st.pending ≡ some k
      → Waits config kbi_user (resume k x)
  unfolding resume
  resume-Waits config kbi_user st k x w e = record {
    user = w.user;
    verify = w.verify;
    belongs = w.belongs;
    configured = w.configured;
    runs = w.replies k e x;
    replies = λ k' e'. absurd (cc);
  }

  pub slot-pending :
      (kbi : Option (KbiState V)) (k : Result Error (List Text) → Dialog V)
      → reply_slot kbi ≡ some k
      → (st : KbiState V) × (kbi ≡ some st) × (st.pending ≡ some k)
  slot-pending none k e = absurd (cc)
  slot-pending (some st) k e = (st, refl, e)

module _ {P C V : Type 0} where
  pub conclude_kbi :
      (user : Text) (key : Option P) (o : AuthOutcome V) (h : ShenronHandler P C V)
      → (conclude_auth user key o h).0.kbi ≡ h.kbi
  unfolding conclude_auth finish_auth
  conclude_kbi user key o h = ground arith

  pub finish_kbi :
      (user : Text) (b : Bool) (h : ShenronHandler P C V) → (finish_auth user b h).0.kbi ≡ h.kbi
  unfolding finish_auth
  finish_kbi user b h = ground arith

  advance-IsWaiting :
      (user : Text) (verify : Text → Dialog V) (config : Option (Text → Dialog V))
      (kbi_user : Option Text) (d : Dialog V) (h : ShenronHandler P C V)
      → config ≡ some verify
      → kbi_user ≡ some user
      → Runs (verify user) d
      → IsWaiting config kbi_user (advance_on user d h).0.kbi
  unfolding advance_on
  advance-IsWaiting user verify config ku (verdict (ok o)) h c b r =
      subst (IsWaiting config ku) (sym (conclude_kbi user h.public_key o (record h { kbi = none })))
        (none-IsWaiting config ku)
  advance-IsWaiting user verify config ku (verdict (err x)) h c b r = none-IsWaiting config ku
  advance-IsWaiting user verify config ku (crash m) h c b r = none-IsWaiting config ku
  advance-IsWaiting user verify config ku (ask ch k) h c b r = some-IsWaiting config ku _ (record {
    user = user;
    verify = verify;
    belongs = b;
    configured = c;
    runs = r;
    replies = λ k' e x. subst (λ f. Runs (verify user) (f x)) (some-injective _ _ e) (answered r x);
  })

  answer-IsWaiting :
      (config : Option (Text → Dialog V)) (user : Text) (st : KbiState V)
      (k : Result Error (List Text) → Dialog V) (answers : Option (List Text))
      (h : ShenronHandler P C V)
      → Waits config (some user) st
      → st.pending ≡ some k
      → IsWaiting config (some user) (answer_kbi user answers k h).0.kbi
  unfolding answer_kbi
  answer-IsWaiting config user st k none h w e =
      subst (IsWaiting config (some user)) (sym (finish_kbi user false _))
        (some-IsWaiting config (some user) _ (resume-Waits config (some user) st k _ w e))
  answer-IsWaiting config user st k (some answers) h w e =
      advance-IsWaiting user w.verify config (some user) _ _ w.configured refl (
        subst (λ u. Runs (w.verify u) (k (ok answers))) (sym (some-injective _ _ w.belongs))
          (w.replies k e (ok answers)))

  answered-IsWaiting :
      (verify : Text → Dialog V) (user : Text) (r : List (List ℕ)) (ku : Option Text)
      (h : ShenronHandler P C V) (slot : Option (Result Error (List Text) → Dialog V))
      → reply_slot h.kbi ≡ slot
      → ku ≡ some user
      → IsWaiting (some verify) ku h.kbi
      → IsWaiting (some verify) ku (kbi_round user (some verify) (some r) slot h).0.kbi
  unfolding kbi_round
  answered-IsWaiting verify user r ku h none e cont w =
      subst (IsWaiting (some verify) ku) (sym (finish_kbi user false h)) w
  answered-IsWaiting verify user r ku h (some k) e cont w =
      let (st, waiting, pending) = slot-pending h.kbi k e in
      subst (λ u. IsWaiting (some verify) u (answer_kbi user (decode_answers r) k h).0.kbi)
        (sym cont)
        (answer-IsWaiting (some verify) user st k (decode_answers r) h
          (subst (λ u. Waits (some verify) u st) cont (w st waiting)) pending)

  pub round-IsWaiting :
      (config : Option (Text → Dialog V)) (user : Text) (response : Option (List (List ℕ)))
      (ku : Option Text) (h : ShenronHandler P C V)
      → RoundContinues response user ku
      → IsWaiting config ku h.kbi
      → IsWaiting config
          (round_user response user ku)
          (kbi_round user config response (reply_slot h.kbi) h).0.kbi
  unfolding kbi_round
  round-IsWaiting none user none ku h cont w =
      subst (IsWaiting none (some user)) (sym (finish_kbi user false h))
        (λ st e. absurd (cc ((w st e).configured)))
  round-IsWaiting none user (some r) ku h cont w =
      subst (IsWaiting none ku) (sym (finish_kbi user false h)) w
  round-IsWaiting (some verify) user none ku h cont w =
      advance-IsWaiting user verify (some verify) (some user) (verify user) _ refl refl start
  round-IsWaiting (some verify) user (some r) ku h cont w =
      answered-IsWaiting verify user r ku h (reply_slot h.kbi) refl cont w
