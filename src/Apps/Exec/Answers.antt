-- ===== src/Apps/Exec/Answers.antt =====
-- examples/exec.rs: what a client gets for a command.
use shenron.Common.{ℕ, ◌≡◌, refl, ◌∙◌, ap, Option, none, some, List, [], ◌∷◌, ◌++◌, Text}
use shenron.Error.{Error, Result, ok}
use shenron.Exit.{code, u32_exit, result_exit}
use shenron.Lines.{trim}
use shenron.Utf8.{as_bytes}
use shenron.Channel.{ChannelMsg, Outgoing, data_out, extended_data}
use shenron.Session.{Session, SessionKind, shell, exec, subsystem, write_stderr_str}
use shenron.Session.Conversation.{Talks, write_stderr_str-Wrote}
use shenron.Session.Finish.{sent_on, closing}
use shenron.Task.{Frame, Flow, returned, pure, continue, on_session}
use shenron.Middleware.{build_chain, terminal}
use shenron.Middleware.Chain.{nest, build_chain-nest}
use shenron.Server.Channels.{run_task}
use shenron.Apps.Saying.{says, says-Done, acts-Done, after_done, closed_after}
use shenron.Apps.Exec.{unknown, output_of, answered, on_kind, app, middleware}

-- What the client gets, and the exit status.
abbrev pub reply_to : Text → Option Text → List Outgoing × ℕ
reply_to command (some output) = (data_out (as_bytes output) ∷ [], 0)
reply_to command none = (extended_data 1 (as_bytes (unknown command)) ∷ [], 127)

module _ {P V : Type 0} where
  abbrev EndsWith :
      Text → List ChannelMsg → List Outgoing × ℕ → Frame P V × Flow (Result Error ℕ) → Type 0
  EndsWith user ms (sent, n) (f, flow) = (flow ≡ returned (ok n)) × Talks user ms sent f.session

  abbrev pub reply : Text → SessionKind → Session P V → List Outgoing × ℕ
  reply now shell s = ([], 0)
  reply now (exec command) s = reply_to (trim command) (output_of now s (trim command))
  reply now (subsystem name) s = ([], 0)

module _ {P V : Type 0} (now : Text) where
  answered-EndsWith :
      (command user : Text) (output : Option Text) (ms : List ChannelMsg) (f : Frame P V)
      → Talks user ms [] f.session
      → EndsWith user ms (reply_to command output) (answered now command output f)
  answered-EndsWith command user (some output) ms f talks =
      after_done (EndsWith user ms (data_out (as_bytes output) ∷ [], 0)) (says output) (pure (ok 0))
        user ms (data_out (as_bytes output) ∷ []) f (says-Done output user ms [] f talks)
        (λ f' talks'. (refl, talks'))
  answered-EndsWith command user none ms f talks =
      after_done (EndsWith user ms (extended_data 1 (as_bytes (unknown command)) ∷ [], 127))
        (on_session (write_stderr_str (unknown command))) (pure (ok 127)) user ms
        (extended_data 1 (as_bytes (unknown command)) ∷ []) f
        (acts-Done (write_stderr_str (unknown command)) user ms
          (extended_data 1 (as_bytes (unknown command)) ∷ []) f
          (write_stderr_str-Wrote user ms [] (unknown command) f.session talks))
        (λ f' talks'. (refl, talks'))

  on_kind-EndsWith :
      (kind : SessionKind) (user : Text) (ms : List ChannelMsg) (f : Frame P V)
      → Talks user ms [] f.session
      → EndsWith user ms (reply now kind f.session) (on_kind now kind f)
  on_kind-EndsWith shell user ms f talks = (refl, talks)
  on_kind-EndsWith (exec command) user ms f talks =
      answered-EndsWith (trim command) user (output_of now f.session (trim command)) ms f talks
  on_kind-EndsWith (subsystem name) user ms f talks = (refl, talks)

  nest-app :
      (n : ℕ) (f : Frame P V)
      → (app now f).1 ≡ returned (ok n)
      → nest (middleware now) f ≡ ((app now f).0, returned (code n))
  unfolding middleware terminal
  nest-app n f e =
      ap (λ flow. continue (λ a. pure (result_exit.into_exit a)) ((app now f).0, flow)) e

  -- A session, on a channel that takes every message: a known command, without the white space
  -- around it, gets its output and the exit status 0, an unknown one an error on the standard error
  -- stream and the exit status 127, and a session without a command nothing and the exit status 0;
  -- the end of the output and the close follow.
  pub run_task-exec :
      (user : Text) (ms : List ChannelMsg) (f : Frame P V)
      → Talks user ms [] f.session
      → sent_on (run_task (build_chain (middleware now)) f).session.channel
        ≡ (reply now f.session.kind f.session).0 ++ closing (reply now f.session.kind f.session).1
  unfolding app
  run_task-exec user ms f talks =
      let (sent, n) = reply now f.session.kind f.session in
      let (e, talks') = on_kind-EndsWith f.session.kind user ms f talks in
      closed_after (build_chain (middleware now)) f (app now f).0 n user ms sent
        (ap (λ chain. chain f) (build_chain-nest (middleware now)) ∙ nest-app n f e) talks'
