-- ===== src/Server/Connection.antt =====
-- src/server/russh.rs over the life of a connection: authentication attempts, channel requests
-- and the ends of spawned tasks, in any order that russh allows. russh asks for authentication
-- until an attempt is accepted, hands on channel requests only after that, and hands the answers
-- of a keyboard-interactive round to the user that the conversation was begun for.
pub mod Attempts
pub mod Requests
pub mod Invariant
pub mod Dialogs
pub mod Verdicts
pub mod Grants
pub mod Open
pub mod Accepting
pub mod Arrival
use shenron.Common.{ℕ, Bool, true, false, Option, none, some, List, [], ◌∷◌, ◌++◌, ◌≡◌, Text, ◌==◌}
use shenron.Error.{Error, Result, ok, err}
use shenron.Channel.{Channel, PtySize}
use shenron.Session.{Session, SocketAddr}
use shenron.Auth.{AuthConfig, AuthOutcome}
use shenron.Server.{
  ShenronHandler, ShenronServer, Verdict, accept, reject, partial, new_client, auth_none,
  auth_publickey, auth_openssh_certificate, auth_password, auth_keyboard_interactive,
}
use shenron.Server.Channels.{
  RusshSession, channel_open_session, channel_close, env_request, pty_request, exec_request,
  shell_request, subsystem_request, drop_guard,
}

pub data Attempt (P C : Type 0) : Type 0 where
  by_none : Attempt P C
  by_key : P → Attempt P C
  by_cert : C → Attempt P C
  by_password : Text → Attempt P C
  by_answers : Option (List (List ℕ)) → Attempt P C

pub data Request : Type 0 where
  open_channel : Channel → Request
  close : ℕ → Request
  env : ℕ → Text → Text → Request
  pty : ℕ → Text → PtySize → Request
  exec : ℕ → List ℕ → Request
  shell : ℕ → Request
  subsystem : ℕ → Text → Request

-- `tasks` holds the sessions of the tasks that run; `kbi_user` the user that the last
-- keyboard-interactive conversation was begun for.
pub record Connection (P C V : Type 0) : Type 0 where
  pub handler : ShenronHandler P C V
  pub tasks : List (Session P V)
  pub authenticated : Bool
  pub kbi_user : Option Text

abbrev pub spawned_session : {A : Type 0} → Result Error A → Option A
spawned_session (ok a) = some a
spawned_session (err e) = none

abbrev pub is_accept : Result Error Verdict → Bool
is_accept (ok accept) = true
is_accept _ = false

-- The user of the conversation after a round, which a response of `none` begins anew.
abbrev pub round_user : Option (List (List ℕ)) → Text → Option Text → Option Text
round_user none user old = some user
round_user (some r) user old = old

abbrev pub RoundContinues : Option (List (List ℕ)) → Text → Option Text → Type 0
RoundContinues none user old = Unit
RoundContinues (some r) user old = old ≡ some user

abbrev pub begun : {P C : Type 0} → Attempt P C → Text → Option Text → Option Text
begun (by_answers response) user old = round_user response user old
begun _ user old = old

-- The answers of a round come under the user of the conversation.
abbrev pub Continues : {P C : Type 0} → Attempt P C → Text → Option Text → Type 0
Continues (by_answers response) user old = RoundContinues response user old
Continues _ user old = Unit

abbrev pub add_task :
    {P V : Type 0} → Option (Session P V) → List (Session P V) → List (Session P V)
add_task none tasks = tasks
add_task (some s) tasks = s ∷ tasks

module _ {P C V : Type 0} where
  pub accepted_by : ShenronHandler P C V × Verdict → ShenronHandler P C V × Result Error Verdict
  accepted_by (h, v) = (h, ok v)

  -- `inner_key` is the library's key of a certificate.
  unfoldable pub attempt :
      (C → P)
      → Text
      → Attempt P C
      → ShenronHandler P C V
      → ShenronHandler P C V × Result Error Verdict
  unfolding accepted_by
  attempt inner_key user by_none h = accepted_by (auth_none user h)
  attempt inner_key user (by_key key) h = accepted_by (auth_publickey user key h)
  attempt inner_key user (by_cert cert) h =
      accepted_by (auth_openssh_certificate inner_key user cert h)
  attempt inner_key user (by_password password) h = accepted_by (auth_password user password h)
  attempt inner_key user (by_answers response) h = auth_keyboard_interactive user response h

  spawned_by :
      ShenronHandler P C V × RusshSession × Result Error (Session P V)
      → ShenronHandler P C V × Option (Session P V)
  spawned_by (h, s, r) = (h, spawned_session r)

  -- A channel request, and the session that a task is spawned for.
  pub request :
      Request → RusshSession → ShenronHandler P C V → ShenronHandler P C V × Option (Session P V)
  unfolding spawned_by
  request (open_channel channel) s h =
      let (h', opened) = channel_open_session channel h in (h', none)
  request (close id) s h = (channel_close id h, none)
  request (env id name value) s h = (env_request id name value h, none)
  request (pty id term size) s h = let (h', s', r) = pty_request id term size h s in (h', none)
  request (exec id bytes) s h = spawned_by (exec_request id bytes h s)
  request (shell id) s h = spawned_by (shell_request id h s)
  request (subsystem id name) s h = spawned_by (subsystem_request id name h s)

  unfoldable pub connect : ShenronServer P C V → Option SocketAddr → Connection P C V
  connect server addr = record {
    handler = new_client server addr;
    tasks = [];
    authenticated = false;
    kbi_user = none;
  }

  abbrev pub after_attempt :
      Connection P C V
      → Text
      → Attempt P C
      → ShenronHandler P C V × Result Error Verdict
      → Connection P C V
  after_attempt c user a (h, r) = record c {
    handler = h;
    authenticated = is_accept r;
    kbi_user = begun a user c.kbi_user;
  }

  abbrev pub after_request :
      Connection P C V → ShenronHandler P C V × Option (Session P V) → Connection P C V
  after_request c (h, spawned) = record c { handler = h; tasks = add_task spawned c.tasks }

  pub data Step (inner_key : C → P) : Connection P C V → Connection P C V → Type 0 where
    attempts :
        (c : Connection P C V) (user : Text) (a : Attempt P C)
        → c.authenticated ≡ false
        → Continues a user c.kbi_user
        → Step inner_key c (after_attempt c user a (attempt inner_key user a c.handler))
    requests :
        (c : Connection P C V) (r : Request) (s : RusshSession)
        → c.authenticated ≡ true
        → Step inner_key c (after_request c (request r s c.handler))
    task_ends :
        (c : Connection P C V) (before later : List (Session P V)) (t : Session P V)
        → c.tasks ≡ before ++ t ∷ later
        → Step inner_key c (record c { handler = drop_guard c.handler; tasks = before ++ later })

  pub data Reach (inner_key : C → P) (c : Connection P C V) : Connection P C V → Type 0 where
    here : Reach inner_key c c
    next : {d e : Connection P C V} → Reach inner_key c d → Step inner_key d e → Reach inner_key c e
