-- ===== src/Server/Channels.antt =====
-- src/server/russh.rs: the callbacks on session channels, and the tasks that they spawn.
pub mod Tasks
pub mod Setups
pub mod Started
use shenron.Common.{
  ℕ, suc, ◌+◌, ◌-◌, Bool, true, false, Option, none, some, List, [], ◌∷◌, ◌++◌, if◌then◌else◌, Text,
  text, leb, length, unwrap_or, nat_eq, text_eq,
}
use shenron.Error.{Error, protocol, ssh, Result, ok, err}
use shenron.HashMap
use shenron.HashMap.{HashMap}
use shenron.Channel.{Channel, PtySize}
use shenron.Utf8.{from_utf8_lossy}
use shenron.Session
use shenron.Session.{Session, SessionKind, shell, exec, subsystem, SocketAddr, finish}
use shenron.Exit.{Exit, code, error, exit_code}
use shenron.Task.{
  Handler, Frame, Flow, returned, panicked, LogLine, handler_error, close_failed, log_line,
}
use shenron.Server.{ShenronHandler, PendingChannel, max_sessions, max_env_vars}

-- `russh::server::Session`: the replies to channel requests, and whether it still takes any.
pub record RusshSession : Type 0 where
  pub replies : List (ℕ × Bool)
  pub closed : Bool

-- `channel_success` and `channel_failure`
pub reply : ℕ → Bool → RusshSession → RusshSession × Result Error (Unit {0})
reply id success s =
    if s.closed
    then (s, err (ssh []))
    else (record s { replies = s.replies ++ (id, success) ∷ [] }, ok tt)

module _ {P C V : Type 0} where
  unfoldable pub channel_open_session : Channel → ShenronHandler P C V → ShenronHandler P C V × Bool
  channel_open_session channel h =
      if leb max_sessions (length h.pending + h.running) then (h, false) else (
        record h {
          pending =
              HashMap.insert channel.id (record { channel = channel; env = []; pty = none })
                h.pending;
        },
        true,
      )

  unfoldable pub channel_close : ℕ → ShenronHandler P C V → ShenronHandler P C V
  channel_close id h = record h { pending = HashMap.remove id h.pending }

  unfoldable pub env_request : ℕ → Text → Text → ShenronHandler P C V → ShenronHandler P C V
  env_request id name value h = elim (HashMap.get id h.pending) [
    | none ↦ h
    | some p ↦ if leb max_env_vars (length p.env) then h else record h {
      pending = HashMap.insert id (record p { env = HashMap.insert name value p.env }) h.pending;
    }
  ]

  unfoldable pub pty_request :
      ℕ
      → Text
      → PtySize
      → ShenronHandler P C V
      → RusshSession
      → ShenronHandler P C V × RusshSession × Result Error (Unit {0})
  unfolding reply
  pty_request id term size h s = elim (HashMap.get id h.pending) [
    | none ↦ let (s', r) = reply id false s in (h, s', r)
    | some p ↦
        let h' = record h {
          pending = HashMap.insert id (record p { pty = some (term, size) }) h.pending;
        } in
        let (s', r) = reply id true s in (h', s', r)
  ]

  abbrev without : ℕ → ShenronHandler P C V → ShenronHandler P C V
  without id h = record h { pending = HashMap.remove id h.pending }

  -- `start_session`, on the pending channel and the address. The pending channel is removed also
  -- where the address is missing.
  start_from :
      ℕ
      → SessionKind
      → Option PendingChannel
      → Option SocketAddr
      → ShenronHandler P C V
      → ShenronHandler P C V × Result Error (Session P V)
  start_from id kind none addr h = (h, err (protocol (text "No channel available")))
  start_from id kind (some p) none h = (without id h, err (protocol (text "No peer address")))
  start_from id kind (some p) (some addr) h = (
    without id h,
    ok (
        Session.new p.channel kind p.pty (unwrap_or h.user (text "unknown")) h.public_key p.env
          h.extensions addr),
  )

  pub start_session :
      ℕ → SessionKind → ShenronHandler P C V → ShenronHandler P C V × Result Error (Session P V)
  unfolding start_from
  start_session id kind h = start_from id kind (HashMap.get id h.pending) h.remote_addr h

  -- `run_handler`, after the reply: the session that a task is spawned for.
  run_replied :
      Session P V
      → ShenronHandler P C V
      → RusshSession × Result Error (Unit {0})
      → ShenronHandler P C V × RusshSession × Result Error (Session P V)
  run_replied session h (s, err e) = (h, s, err e)
  run_replied session h (s, ok _) = (record h { running = h.running + 1 }, s, ok session)

  run_started :
      ℕ
      → RusshSession
      → ShenronHandler P C V × Result Error (Session P V)
      → ShenronHandler P C V × RusshSession × Result Error (Session P V)
  unfolding run_replied reply
  run_started id s (h, err e) = (h, s, err e)
  run_started id s (h, ok session) = run_replied session h (reply id true s)

  -- The common body of the three requests below.
  unfoldable pub start_request :
      ℕ
      → SessionKind
      → ShenronHandler P C V
      → RusshSession
      → ShenronHandler P C V × RusshSession × Result Error (Session P V)
  unfolding start_session run_started
  start_request id kind h s = run_started id s (start_session id kind h)

  unfoldable pub exec_request :
      ℕ
      → List ℕ
      → ShenronHandler P C V
      → RusshSession
      → ShenronHandler P C V × RusshSession × Result Error (Session P V)
  unfolding start_request
  exec_request id bytes h s = start_request id (exec (from_utf8_lossy bytes)) h s

  unfoldable pub shell_request :
      ℕ
      → ShenronHandler P C V
      → RusshSession
      → ShenronHandler P C V × RusshSession × Result Error (Session P V)
  unfolding start_request
  shell_request id h s = start_request id shell h s

  unfoldable pub subsystem_request :
      ℕ
      → Text
      → ShenronHandler P C V
      → RusshSession
      → ShenronHandler P C V × RusshSession × Result Error (Session P V)
  unfolding start_request
  subsystem_request id name h s = start_request id (subsystem name) h s

  -- The `RunningGuard` of a task that ended, also one that panicked.
  unfoldable pub drop_guard : ShenronHandler P C V → ShenronHandler P C V
  drop_guard h = record h { running = h.running - 1 }

module _ {P V : Type 0} where
  abbrev log_error : Exit → Frame P V → Frame P V
  log_error (code n) f = f
  log_error (error e) f = log_line (handler_error e) f

  closed : Frame P V → Session P V × Result Error (Unit {0}) → Frame P V
  closed f (s, ok _) = record f { session = s }
  closed f (s, err e) = log_line (close_failed e) (record f { session = s })

  close_session : Exit → Frame P V → Frame P V
  unfolding closed
  close_session exit f = closed f (finish (exit_code exit) f.session)

  -- What follows the handler. A panic ends the task.
  ended : Frame P V × Flow Exit → Frame P V
  unfolding close_session
  ended (f, panicked p) = f
  ended (f, returned exit) = close_session exit (log_error exit f)

  -- The body of the task that `run_handler` spawns.
  pub run_task : Handler P V → Frame P V → Frame P V
  unfolding ended
  run_task handler f = ended (handler f)
