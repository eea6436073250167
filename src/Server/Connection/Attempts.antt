-- ===== src/Server/Connection/Attempts.antt =====
-- What one authentication attempt changes.
use shenron.Common.{ℕ, Bool, true, false, Option, none, some, List, ◌≡◌, Text, arith, is_some}
use shenron.Error.{Error, Result, ok, err}
use shenron.Auth.{AuthOutcome, Dialog, verdict, crash, ask, is_empty, decode_answers}
use shenron.Server.{
  ShenronHandler, KbiState, Verdict, finish_auth, conclude_auth, advance_on, answer_kbi, kbi_round,
  reply_slot, auth_none, auth_publickey, auth_openssh_certificate, auth_password,
  auth_keyboard_interactive,
}
use shenron.Server.Connection.{
  Attempt, by_none, by_key, by_cert, by_password, by_answers, attempt, accepted_by, is_accept,
}

module _ {P C V : Type 0} where
  -- An attempt leaves the channels, the configuration and the address alone, and records the user
  -- exactly when it accepts, for which the address has to be known.
  pub record Keeps (h : ShenronHandler P C V) (user : Text)
      (out : ShenronHandler P C V × Result Error Verdict) : Type 0 where
    pub pending : out.0.pending ≡ h.pending
    pub running : out.0.running ≡ h.running
    pub remote_addr : out.0.remote_addr ≡ h.remote_addr
    pub auth : out.0.auth ≡ h.auth
    pub accepts : is_accept out.1 ≡ true → (out.0.user ≡ some user) × (is_some h.remote_addr ≡ true)
    pub refuses : is_accept out.1 ≡ false → out.0.user ≡ h.user

  conclude-Keeps :
      (h : ShenronHandler P C V) (user : Text) (key : Option P) (o : AuthOutcome V)
      → Keeps h user (accepted_by (conclude_auth user key o h))
  unfolding conclude_auth finish_auth accepted_by
  conclude-Keeps h user key o = ground arith

  finish-Keeps :
      (h : ShenronHandler P C V) (user : Text) (b : Bool)
      → Keeps h user (accepted_by (finish_auth user b h))
  unfolding finish_auth accepted_by
  finish-Keeps h user b = ground arith

  advance-Keeps :
      (h : ShenronHandler P C V) (user : Text) (d : Dialog V) → Keeps h user (advance_on user d h)
  unfolding advance_on finish_auth
  advance-Keeps h user (verdict (ok o)) = ground arith
  advance-Keeps h user (verdict (err e)) = ground arith
  advance-Keeps h user (crash m) = ground arith
  advance-Keeps h user (ask ch k) = ground arith

  with_kbi-Keeps :
      (h : ShenronHandler P C V) (user : Text) (kbi : Option (KbiState V))
      (out : ShenronHandler P C V × Result Error Verdict)
      → Keeps (record h { kbi = kbi }) user out
      → Keeps h user out
  with_kbi-Keeps h user kbi out k = record {
    pending = k.pending;
    running = k.running;
    remote_addr = k.remote_addr;
    auth = k.auth;
    accepts = k.accepts;
    refuses = k.refuses;
  }

  answer-Keeps :
      (h : ShenronHandler P C V) (user : Text) (answers : Option (List Text))
      (reply : Result Error (List Text) → Dialog V)
      → Keeps h user (answer_kbi user answers reply h)
  unfolding answer_kbi accepted_by
  answer-Keeps h user none reply =
      with_kbi-Keeps h user _ _ (finish-Keeps (record h { kbi = _ }) user false)
  answer-Keeps h user (some answers) reply =
      with_kbi-Keeps h user _ _ (advance-Keeps (record h { kbi = _ }) user (reply (ok answers)))

  round-Keeps :
      (h : ShenronHandler P C V) (user : Text) (config : Option (Text → Dialog V))
      (r : Option (List (List ℕ))) (slot : Option (Result Error (List Text) → Dialog V))
      → Keeps h user (kbi_round user config r slot h)
  unfolding kbi_round accepted_by
  round-Keeps h user none r slot = finish-Keeps h user false
  round-Keeps h user (some verify) none slot =
      with_kbi-Keeps h user _ _ (advance-Keeps (record h { kbi = _ }) user (verify user))
  round-Keeps h user (some verify) (some answers) none = finish-Keeps h user false
  round-Keeps h user (some verify) (some answers) (some reply) =
      answer-Keeps h user (decode_answers answers) reply

  pub attempt-Keeps :
      (inner_key : C → P) (user : Text) (a : Attempt P C) (h : ShenronHandler P C V)
      → Keeps h user (attempt inner_key user a h)
  unfolding attempt auth_none auth_publickey auth_openssh_certificate auth_password
      auth_keyboard_interactive
  attempt-Keeps inner_key user by_none h = finish-Keeps h user (is_empty h.auth)
  attempt-Keeps inner_key user (by_key key) h = conclude-Keeps h user (some key) _
  attempt-Keeps inner_key user (by_cert cert) h = conclude-Keeps h user (some (inner_key cert)) _
  attempt-Keeps inner_key user (by_password pw) h = conclude-Keeps h user h.public_key _
  attempt-Keeps inner_key user (by_answers r) h =
      round-Keeps h user h.auth.keyboard_interactive r (reply_slot h.kbi)
