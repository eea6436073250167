-- ===== src/Server/Channels/Tasks.antt =====
-- src/server/russh.rs: how a spawned task ends its channel.
use shenron.Common.{Bool-cases, inl, inr, if◌then◌else◌, some, ◌++◌, ◌≡◌, refl, ◌∙◌, ap}
use shenron.Error.{Error, Result, ok, err}
use shenron.Exit.{Exit, code, error, exit_code}
use shenron.Channel.{Channel}
use shenron.Session.{Session, finish}
use shenron.Session.Finish.{IsOpen, sent_on, closing, finish-down, finish-exited, close_down-IsOpen}
use shenron.Task.{Handler, Frame, returned}
use shenron.Server.Channels.{run_task, close_session, closed, ended, log_error}

module _ {P V : Type 0} where
  closed-session :
      (f : Frame P V) (out : Session P V × Result Error (Unit {0})) → (closed f out).session ≡ out.0
  unfolding closed
  closed-session f (s, ok _) = refl
  closed-session f (s, err e) = refl

  log_error-session : (exit : Exit) (f : Frame P V) → (log_error exit f).session ≡ f.session
  log_error-session (code n) f = refl
  log_error-session (error e) f = refl

  pub run_task-session :
      (handler : Handler P V) (f f' : Frame P V) (exit : Exit)
      → handler f ≡ (f', returned exit)
      → (run_task handler f).session ≡ (finish (exit_code exit) f'.session).0
  unfolding run_task ended close_session
  run_task-session handler f f' exit e =
      ap (λ out. (ended out).session) e
      ∙ (closed-session (log_error exit f') (finish (exit_code exit) (log_error exit f').session)
          ∙ ap (λ s. (finish (exit_code exit) s).0) (log_error-session exit f'))

  -- A task whose handler returns, on a channel that takes every message, sends the code of the
  -- handler's `Exit`, the end of the output and the close, unless the handler aborted before: then
  -- the exit status that it sent stays the only one.
  pub run_task-finish :
      (handler : Handler P V) (f f' : Frame P V) (exit : Exit) (ch : Channel)
      → handler f ≡ (f', returned exit)
      → f'.session.channel ≡ some ch
      → IsOpen ch
      → sent_on (run_task handler f).session.channel
        ≡ (if f'.session.exited then ch.sent else ch.sent ++ closing (exit_code exit))
  run_task-finish handler f f' exit ch e on takes =
      let ends = ap (λ s. sent_on s.channel) (run_task-session handler f f' exit e) in
      let n = exit_code exit in
      elim (Bool-cases f'.session.exited) [
        | inl done ↦
            ends
            ∙ ap (λ out. sent_on out.0.channel) (finish-exited n f'.session done)
            ∙ rw done (ap sent_on on)
        | inr fresh ↦
            ends
            ∙ ap (λ out. sent_on out.0.channel) (finish-down n f'.session ch fresh on)
            ∙ rw fresh (close_down-IsOpen n ch takes).0
      ]
