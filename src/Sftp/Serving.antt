-- ===== src/Sftp/Serving.antt =====
-- src/middleware/builtins/sftp/core.rs: the middleware. The loop of russh_sftp, which serves the
-- channel that is taken, is a library's.
use shenron.Common.{ℕ, Bool, true, false, none, ◌≡◌, refl, ◌∙◌, text, ◌==◌, text_eq, arith}
use shenron.Exit.{code, exit_code}
use shenron.Session.{Session, SessionKind, shell, exec, subsystem, take_channel, finish}
use shenron.Task.{Handler, Frame, returned}
use shenron.Middleware.{Middleware}
use shenron.Server.Channels.{run_task}
use shenron.Server.Channels.Tasks.{run_task-session}

unfoldable pub is_sftp : SessionKind → Bool
is_sftp shell = false
is_sftp (exec command) = false
is_sftp (subsystem name) = name == text "sftp"

module _ {P V : Type 0} where
  -- Both branches of the match on the channel exit with code 0.
  unfoldable pub sftp_on : Bool → Middleware P V
  sftp_on true next f = (record f { session = (take_channel f.session).0 }, returned (code 0))
  sftp_on false next f = next f

  unfoldable pub sftp : Middleware P V
  sftp next f = sftp_on (is_sftp f.session.kind) next f

  finish-none : (n : ℕ) (s : Session P V) → s.channel ≡ none → (finish n s).0 ≡ s
  unfolding finish
  finish-none n s e = ground (arith, e)

  -- On a session of the `sftp` subsystem the middleware takes the channel and the rest of the
  -- chain never runs; the task that ran it sends nothing more on the channel, neither an exit
  -- status nor a close, and does not count the session as exited.
  pub run_task-sftp :
      (next : Handler P V) (f : Frame P V)
      → is_sftp f.session.kind ≡ true
      → (run_task (sftp next) f).session ≡ record f.session { channel = none }
  unfolding sftp sftp_on take_channel
  run_task-sftp next f e =
      let s : Session P V = record f.session { channel = none } in
      run_task-session (sftp next) f (record f { session = s }) (code 0) (rw (e, sftp) refl)
      ∙ finish-none (exit_code (code 0)) s refl
