-- ===== src/Server.antt =====
-- src/server/russh.rs: the callbacks that russh makes for one connection. A callback is a
-- function from the handler's state to the new state and its result.
pub mod Keygen
pub mod Channels
pub mod Builder
pub mod Connection
use shenron.Common.{
  ℕ, suc, ◌+◌, ◌-◌, Bool, true, false, Option, none, some, List, [], ◌∷◌, ◌++◌, if◌then◌else◌, Text,
  text, leb, length, unwrap_or, nat_eq, text_eq, map,
}
use shenron.Error.{Error, protocol, panic, Result, ok, err}
use shenron.HashMap
use shenron.HashMap.{HashMap}
use shenron.Extensions
use shenron.Extensions.{Extensions}
use shenron.Channel.{Channel, PtySize}
use shenron.Utf8.{from_utf8_lossy}
use shenron.Session
use shenron.Session.{Session, SessionKind, shell, exec, subsystem, SocketAddr}
use shenron.Task.{Handler}
use shenron.Auth.{
  AuthOutcome, AuthConfig, Dialog, verdict, crash, ask, Challenge, Prompt, MethodKind, is_empty,
  methods, from_bool, decode_answers, disconnected,
}

abbrev pub max_sessions : ℕ
max_sessions = 10

abbrev pub max_env_vars : ℕ
max_env_vars = 128

-- `russh::server::Auth`
pub data Verdict : Type 0 where
  accept : Verdict
  reject : (proceed_with_methods : Option (List MethodKind)) → (partial_success : Bool) → Verdict
  partial : (name instructions : Text) → (prompts : List (Text × Bool)) → Verdict

pub record PendingChannel : Type 0 where
  pub channel : Channel
  pub env : HashMap Text Text
  pub pty : Option (Text × PtySize)

-- `task` is the spawned handler, `pending` the reply that it waits for.
pub record KbiState (V : Type 0) : Type 0 where
  pub task : Dialog V
  pub pending : Option (Result Error (List Text) → Dialog V)

pub record ShenronHandler (P C V : Type 0) : Type 0 where
  pub handler : Handler P V
  pub remote_addr : Option SocketAddr
  pub pending : HashMap ℕ PendingChannel
  pub running : ℕ
  pub user : Option Text
  pub public_key : Option P
  pub auth : AuthConfig P C V
  pub extensions : Extensions V
  pub banner : Option Text
  pub kbi : Option (KbiState V)

-- `ShenronServer`, and the handler of a new client.
pub record ShenronServer (P C V : Type 0) : Type 0 where
  pub handler : Handler P V
  pub auth : AuthConfig P C V
  pub banner : Option Text

module _ {V : Type 0} where
  -- The state after `pending.take()` and the reply, or its drop.
  resume : (Result Error (List Text) → Dialog V) → Result Error (List Text) → KbiState V
  resume reply answers = record { task = reply answers; pending = none }

  abbrev reply_slot : Option (KbiState V) → Option (Result Error (List Text) → Dialog V)
  reply_slot none = none
  reply_slot (some state) = state.pending

-- The configured handler's outcome; without one, an open server accepts.
unfoldable pub consult :
    {A V : Type 0} → Option (Text → A → AuthOutcome V) → Text → A → Bool → AuthOutcome V
consult none user a empty = from_bool empty
consult (some verify) user a empty = verify user a

module _ {P C V : Type 0} where
  unfoldable pub new_client : ShenronServer P C V → Option SocketAddr → ShenronHandler P C V
  new_client server addr = record {
    handler = server.handler;
    remote_addr = addr;
    pending = [];
    running = 0;
    user = none;
    public_key = none;
    auth = server.auth;
    extensions = Extensions.default;
    banner = server.banner;
    kbi = none;
  }

  unfoldable pub authentication_banner : ShenronHandler P C V → Option Text
  authentication_banner h = h.banner

  unfoldable pub finish_auth : Text → Bool → ShenronHandler P C V → ShenronHandler P C V × Verdict
  finish_auth user accepted h = elim h.remote_addr [
    | none ↦ (h, reject (some []) false)
    | some addr ↦
        if accepted
        then (record h { user = some user }, accept)
        else (h, reject (some (methods h.auth)) false)
  ]

  pub auth_none : Text → ShenronHandler P C V → ShenronHandler P C V × Verdict
  auth_none user h = finish_auth user (is_empty h.auth) h

  abbrev merge_extensions : AuthOutcome V → ShenronHandler P C V → ShenronHandler P C V
  merge_extensions outcome h = record h {
    extensions = Extensions.merge h.extensions outcome.extensions;
  }

  -- What a verdict of a handler does: the key of the connection and the attached data are kept
  -- only when it accepts.
  pub conclude_auth :
      Text → Option P → AuthOutcome V → ShenronHandler P C V → ShenronHandler P C V × Verdict
  conclude_auth user key outcome h =
      let keyed = record h { public_key = key } in
      finish_auth user outcome.accepted
        (if outcome.accepted then merge_extensions outcome keyed else h)

  unfoldable pub auth_publickey : Text → P → ShenronHandler P C V → ShenronHandler P C V × Verdict
  unfolding conclude_auth
  auth_publickey user key h =
      let outcome : AuthOutcome V = consult h.auth.pubkey user key (is_empty h.auth) in
      conclude_auth user (some key) outcome h

  -- `inner_key` is `PublicKey::new(cert.public_key().clone(), "")`, of a library.
  unfoldable pub auth_openssh_certificate :
      (C → P) → Text → C → ShenronHandler P C V → ShenronHandler P C V × Verdict
  unfolding conclude_auth
  auth_openssh_certificate inner_key user cert h =
      let outcome : AuthOutcome V = consult h.auth.cert user cert (is_empty h.auth) in
      conclude_auth user (some (inner_key cert)) outcome h

  unfoldable pub auth_password : Text → Text → ShenronHandler P C V → ShenronHandler P C V × Verdict
  unfolding conclude_auth
  auth_password user password h =
      let outcome : AuthOutcome V = consult h.auth.password user password (is_empty h.auth) in
      conclude_auth user h.public_key outcome h

  -- `kbi_advance`, on what the spawned task does next.
  advance_on : Text → Dialog V → ShenronHandler P C V → ShenronHandler P C V × Result Error Verdict
  unfolding conclude_auth
  advance_on user (verdict (ok outcome)) h =
      let (h', v) = conclude_auth user h.public_key outcome (record h { kbi = none }) in (h', ok v)
  advance_on user (verdict (err e)) h = (record h { kbi = none }, err e)
  advance_on user (crash message) h = (record h { kbi = none }, err (panic message))
  advance_on user (ask challenge reply) h = (
    record h { kbi = some (record { task = ask challenge reply; pending = some reply }) },
    ok (
        partial challenge.name challenge.instructions
          (map (λ p. (p.text, p.echo)) challenge.prompts)),
  )

  -- Without a state the source panics.
  kbi_advance : Text → ShenronHandler P C V → ShenronHandler P C V × Result Error Verdict
  unfolding advance_on
  kbi_advance user h = elim h.kbi [
    | none ↦ (h, err (panic (text "kbi state present")))
    | some state ↦ advance_on user state.task h
  ]

  reject_kbi : Text → ShenronHandler P C V → ShenronHandler P C V × Result Error Verdict
  reject_kbi user h = let (h', v) = finish_auth user false h in (h', ok v)

  -- The continuation, on the decoded answers.
  answer_kbi :
      Text
      → Option (List Text)
      → (Result Error (List Text) → Dialog V)
      → ShenronHandler P C V
      → ShenronHandler P C V × Result Error Verdict
  unfolding kbi_advance reject_kbi resume
  answer_kbi user none reply h =
      reject_kbi user (record h { kbi = some (resume reply (err disconnected)) })
  answer_kbi user (some answers) reply h =
      kbi_advance user (record h { kbi = some (resume reply (ok answers)) })

  -- A round, on the configured handler, the response and the reply that is waited for.
  pub kbi_round :
      Text
      → Option (Text → Dialog V)
      → Option (List (List ℕ))
      → Option (Result Error (List Text) → Dialog V)
      → ShenronHandler P C V
      → ShenronHandler P C V × Result Error Verdict
  unfolding answer_kbi
  kbi_round user none response slot h = reject_kbi user h
  kbi_round user (some verify) none slot h =
      kbi_advance user (record h { kbi = some (record { task = verify user; pending = none }) })
  kbi_round user (some verify) (some answers) none h = reject_kbi user h
  kbi_round user (some verify) (some answers) (some reply) h =
      answer_kbi user (decode_answers answers) reply h

  pub auth_keyboard_interactive :
      Text
      → Option (List (List ℕ))
      → ShenronHandler P C V
      → ShenronHandler P C V × Result Error Verdict
  unfolding kbi_round
  auth_keyboard_interactive user response h =
      kbi_round user h.auth.keyboard_interactive response (reply_slot h.kbi) h
