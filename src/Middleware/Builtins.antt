-- ===== src/Middleware/Builtins.antt =====
-- src/middleware/builtins: access_control.rs, active_term.rs, comment.rs, elapsed.rs, logging.rs
-- and recover.rs.
pub mod Guards
pub mod RateLimit
use shenron.Common.{
  ℕ, Bool, true, false, Option, none, some, List, [], ◌∷◌, ◌++◌, if◌then◌else◌, Text, text, any,
  unwrap_or, ◌==◌, text_eq,
}
use shenron.Error.{Error, Result, ok, err}
use shenron.Error
use shenron.Exit.{Exit, code, error, result_exit, exit_exit}
use shenron.Channel.{PtySize}
use shenron.Format.{decimal}
use shenron.Session.{
  Session, SocketAddr, SessionKind, shell, exec, subsystem, raw_command, command, write_str,
  write_stderr_str,
}
use shenron.Task.{
  Task, Handler, Frame, Flow, returned, panicked, Payload, str_payload, string_payload,
  other_payload, LogLine, session_started, session_ended, session_error, handler_panicked,
  panic_report, pure, await, ◌>>=◌, ◌>>◌, on_session, log_line, run_ok, erase,
}
use shenron.Middleware.{Middleware}

pub record AccessControl : Type 0 where
  pub allowed : List Text

pub is_allowed : AccessControl → Text → Bool
is_allowed ac program = any (λ allowed. allowed == program) ac.allowed

-- `if let Some(argv) = … && let Some(program) = argv.first() && self.is_allowed(program)`
pub permits : AccessControl → Option (List Text) → Bool
permits ac none = false
permits ac (some []) = false
permits ac (some (program ∷ args)) = is_allowed ac program

unfoldable pub not_allowed : Text → Text
not_allowed raw = text "Command not allowed: " ++ (raw ++ text "\n")

unfoldable pub pty_required : Text
pty_required = text "PTY required\n"

unfoldable pub session_lasted : Text → Text
session_lasted duration = text "Session lasted: " ++ (duration ++ text "\r\n")

module _ {P V : Type 0} where
  -- `split` is `shell_words::split(...).ok()`, of a library.
  refuse : Text → Task P V (Result Error Exit)
  refuse raw = do on_session (write_stderr_str (not_allowed raw)); pure (ok (code 1))

  -- On the raw command, and on whether it is permitted.
  access_control_on : Option Text → Bool → Handler P V → Task P V (Result Error Exit)
  unfolding refuse
  access_control_on none permitted next = run_ok next
  access_control_on (some raw) true next = run_ok next
  access_control_on (some raw) false next = refuse raw

  access_control_handle :
      (Text → Option (List Text)) → AccessControl → Handler P V → Task P V (Result Error Exit)
  unfolding access_control_on
  access_control_handle split ac next f =
      access_control_on (raw_command f.session) (permits ac (command split f.session)) next f

  pub access_control : (Text → Option (List Text)) → AccessControl → Middleware P V
  unfolding access_control_handle
  access_control split ac next = erase (access_control_handle split ac next)

  active_term_handle : Handler P V → Task P V (Result Error Exit)
  active_term_handle next f =
      let refuse = (do on_session (write_stderr_str pty_required); pure (ok (code 1))) in
      elim f.session.pty [ none ↦ refuse f | some pty ↦ run_ok next f ]

  unfoldable pub active_term : Middleware P V
  unfolding active_term_handle
  active_term next = erase (active_term_handle next)

  comment_handle : Text → Handler P V → Task P V (Result Error Exit)
  comment_handle message next = do
    exit ← run_ok next
    on_session (write_str message)
    pure (ok exit)

  pub comment : Text → Middleware P V
  unfolding comment_handle
  comment message next = erase (comment_handle message next)

  -- `duration` is what `{:?}` prints of the time that the session took.
  elapsed_handle : Text → Handler P V → Task P V (Result Error Exit)
  elapsed_handle duration next = do
    exit ← run_ok next
    on_session (write_str (session_lasted duration))
    pure (ok exit)

  unfoldable pub elapsed : Text → Middleware P V
  unfolding elapsed_handle
  elapsed duration next = erase (elapsed_handle duration next)

pty_text : Option (Text × PtySize) → Text
pty_text none = []
pty_text (some (term, size)) =
    text " pty(term="
    ++ (term
        ++ (text ", size="
            ++ (decimal size.width ++ (text "x" ++ (decimal size.height ++ text ")")))))

kind_text : SessionKind → Text
kind_text shell = text "shell"
kind_text (exec command) = text "exec(" ++ (command ++ text ")")
kind_text (subsystem name) = text "subsystem(" ++ (name ++ text ")")

ended : Text → SocketAddr → Exit → LogLine
ended user remote (code n) = session_ended user remote n
ended user remote (error e) = session_error user remote e

-- `panic_message`
unfoldable pub panic_message : Payload → Text
panic_message (str_payload s) = s
panic_message (string_payload s) = s
panic_message other_payload = text "unknown panic payload"

module _ {P V : Type 0} where
  unfoldable pub logging : Middleware P V
  unfolding kind_text pty_text ended
  logging next f =
      let s = f.session in
      let kind = kind_text s.kind ++ pty_text s.pty in
      await next (λ exit f'. (log_line (ended s.user s.remote_addr exit) f', returned exit))
        (log_line (session_started s.user s.remote_addr kind) f)

  -- `guard`, and what `on_panic` makes of the message, the user and the address.
  guard :
      (Text → Text → SocketAddr → Frame P V → Frame P V)
      → Text
      → SocketAddr
      → Frame P V × Flow Exit
      → Frame P V × Flow Exit
  guard on_panic user remote (f, returned exit) = (f, returned exit)
  guard on_panic user remote (f, panicked p) =
      (on_panic (panic_message p) user remote f, returned (error (Error.panic (panic_message p))))

  catch : (Text → Text → SocketAddr → Frame P V → Frame P V) → Handler P V → Handler P V
  unfolding guard
  catch on_panic next f = guard on_panic f.session.user f.session.remote_addr (next f)

  pub recover : Middleware P V
  unfolding catch
  recover = catch (λ message user remote. log_line (handler_panicked user remote message))

  unfoldable pub recover_with : Middleware P V
  unfolding catch
  recover_with = catch (λ message user remote f.
      log_line (panic_report message user remote)
        (log_line (handler_panicked user remote message) f))
