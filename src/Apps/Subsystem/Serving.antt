-- ===== src/Apps/Subsystem/Serving.antt =====
-- examples/subsystem.rs: the whole of a session.
use shenron.Common.{
  ℕ, zero, suc, ◌<◌, ◌≡◌, refl, sym, ◌∙◌, ap, subst, Bool, true, false, Option, none, some, List,
  [], ◌∷◌, ◌++◌, append-nil, append_assoc, length, Text, text, text_beq, arith,
}
use shenron.Error.{Error, Result, ok}
use shenron.Exit.{code, u32_exit, result_exit}
use shenron.Utf8.{as_bytes}
use shenron.Channel.{
  ChannelMsg, data_msg, window_change, signal_msg, eof_msg, protocol_message, Outgoing, data_out,
  extended_data,
}
use shenron.Session.{
  Session, SessionKind, shell, exec, subsystem, input_of, waiting, write_stderr_str,
}
use shenron.Session.Conversation.{Talks, enough_on, write_stderr_str-Wrote}
use shenron.Session.Inputs.{Read, input_of-Read}
use shenron.Session.Finish.{sent_on, closing}
use shenron.Task.{Frame, Flow, returned, pure, continue, on_session, ◌>>◌}
use shenron.Middleware.{build_chain, terminal}
use shenron.Middleware.Chain.{nest, build_chain-nest}
use shenron.Server.Channels.{run_task}
use shenron.Apps.Saying.{as_sent, says, says-Done, says_after, acts-Done, after_done, closed_after}
use shenron.Apps.Subsystem.{
  got, only_subsystems, try_echo, unknown_subsystem, no_exec, read_from, on_input, echo_inputs,
  serves, on_kind, app, middleware,
}

-- The answers to the packets of input, up to the end of the input.
abbrev pub answers : List ChannelMsg → List Text
answers [] = []
answers (data_msg d ∷ ms) = got d ∷ answers ms
answers (eof_msg ∷ ms) = []
answers (window_change w h pw ph ∷ ms) = answers ms
answers (signal_msg name ∷ ms) = answers ms
answers (protocol_message ∷ ms) = answers ms

abbrev pub served : Bool → Text → List ChannelMsg → List Outgoing × ℕ
served true name ms = (as_sent (answers ms), 0)
served false name ms = (extended_data 1 (as_bytes (unknown_subsystem name)) ∷ [], 1)

-- What the client gets, and the exit status.
abbrev pub reply : SessionKind → List ChannelMsg → List Outgoing × ℕ
reply (subsystem name) ms = served (text_beq name (text "echo")) name ms
reply shell ms = (as_sent (only_subsystems ∷ try_echo ∷ []), 0)
reply (exec command) ms = (extended_data 1 (as_bytes (no_exec command)) ∷ [], 1)

module _ {P V : Type 0} where
  abbrev Stops : Text → List Outgoing × ℕ → Frame P V × Flow (Result Error ℕ) → Type 0
  Stops user (sent, n) (f, flow) =
      (flow ≡ returned (ok n)) × ((left : List ChannelMsg) × Talks user left sent f.session)

  unsent :
      (user : Text) (ms : List ChannelMsg) (sent : List Outgoing) (s : Session P V)
      → Talks user ms sent s
      → (left : List ChannelMsg) × Talks user left (sent ++ []) s
  unsent user ms sent s talks = (ms, subst (λ xs. Talks user ms xs s) (sym (append-nil sent)) talks)

  warns-Stops :
      (t user : Text) (n : ℕ) (ms : List ChannelMsg) (f : Frame P V)
      → Talks user ms [] f.session
      → Stops user
          (extended_data 1 (as_bytes t) ∷ [], n)
          ((on_session (write_stderr_str t) >> pure (ok n)) f)
  warns-Stops t user n ms f talks =
      after_done (Stops user (extended_data 1 (as_bytes t) ∷ [], n))
        (on_session (write_stderr_str t)) (pure (ok n)) user ms (extended_data 1 (as_bytes t) ∷ [])
        f
        (acts-Done (write_stderr_str t) user ms (extended_data 1 (as_bytes t) ∷ []) f
          (write_stderr_str-Wrote user ms [] t f.session talks))
        (λ f' talks'. (refl, (ms, talks')))

-- What the turns that follow do, while there is fuel for them.
abbrev Goes : (P V : Type 0) → ℕ → Text → Type 0
Goes P V fuel user =
    (ms : List ChannelMsg) (sent : List Outgoing) (f : Frame P V)
    → length ms < fuel
    → Talks user ms sent f.session
    → Stops user (sent ++ as_sent (answers ms), 0) (echo_inputs fuel f)

module _ {P V : Type 0} where
  answered-Stops :
      (fuel : ℕ) (d : List ℕ) (user : Text) (ms : List ChannelMsg) (sent : List Outgoing)
      (f : Frame P V)
      → Goes P V fuel user
      → length ms < fuel
      → Talks user ms sent f.session
      → Stops user (sent ++ as_sent (got d ∷ answers ms), 0) ((says (got d) >> echo_inputs fuel) f)
  answered-Stops fuel d user ms sent f goes le talks =
      after_done (Stops user (sent ++ as_sent (got d ∷ answers ms), 0)) (says (got d))
        (echo_inputs fuel) user ms (sent ++ data_out (as_bytes (got d)) ∷ []) f
        (says-Done (got d) user ms sent f talks)
        (λ f' talks'.
          subst (λ xs. Stops user (xs, 0) (echo_inputs fuel f'))
            (append_assoc sent (data_out (as_bytes (got d)) ∷ []) (as_sent (answers ms)))
            (goes ms (sent ++ data_out (as_bytes (got d)) ∷ []) f' le talks'))

  reads-Stops :
      (fuel : ℕ) (user : Text) (ms : List ChannelMsg) (sent : List Outgoing) (f : Frame P V)
      (out : Option (Session P V × Option (List ℕ)))
      → Goes P V fuel user
      → length ms < suc fuel
      → Read user ms sent out
      → Stops user
          (sent ++ as_sent (answers ms), 0)
          (continue (on_input (echo_inputs fuel)) (read_from f out))
  reads-Stops fuel user ms sent f none goes le r = absurd r
  reads-Stops fuel user [] sent f (some (s, b)) goes le (talks, x) =
      subst
        (λ b. Stops user (sent ++ [], 0) (on_input (echo_inputs fuel) b (record f { session = s })))
        (sym x) (refl, unsent user [] sent s talks)
  reads-Stops fuel user (data_msg d ∷ ms) sent f (some (s, b)) goes le (talks, x) =
      subst
        (λ b.
          Stops user (sent ++ as_sent (got d ∷ answers ms), 0)
            (on_input (echo_inputs fuel) b (record f { session = s })))
        (sym x)
        (answered-Stops fuel d user ms sent (record f { session = s }) goes (omega (arith, le))
          talks)
  reads-Stops fuel user (eof_msg ∷ ms) sent f (some (s, b)) goes le (talks, x) =
      subst
        (λ b. Stops user (sent ++ [], 0) (on_input (echo_inputs fuel) b (record f { session = s })))
        (sym x) (refl, unsent user ms sent s talks)
  reads-Stops fuel user (window_change w h pw ph ∷ ms) sent f (some out) goes le r =
      reads-Stops fuel user ms sent f (some out) goes (omega (arith, le)) r
  reads-Stops fuel user (signal_msg name ∷ ms) sent f (some out) goes le r =
      reads-Stops fuel user ms sent f (some out) goes (omega (arith, le)) r
  reads-Stops fuel user (protocol_message ∷ ms) sent f (some out) goes le r =
      reads-Stops fuel user ms sent f (some out) goes (omega (arith, le)) r

  echo_inputs-Stops : (fuel : ℕ) (user : Text) → Goes P V fuel user
  unfolding echo_inputs
  echo_inputs-Stops zero user ms sent f le talks = absurd (omega (arith, le))
  echo_inputs-Stops (suc fuel) user ms sent f le talks =
      reads-Stops fuel user ms sent f (input_of f.session) (echo_inputs-Stops fuel user) le
        (input_of-Read user ms sent f.session talks)

  serves-Stops :
      (b : Bool) (name user : Text) (ms : List ChannelMsg) (f : Frame P V)
      → Talks user ms [] f.session
      → Stops user (served b name ms) (serves b name f)
  serves-Stops true name user ms f talks =
      echo_inputs-Stops (suc (waiting f.session)) user ms [] f
        (enough_on ms [] f.session.channel talks.0) talks
  serves-Stops false name user ms f talks = warns-Stops (unknown_subsystem name) user 1 ms f talks

  on_kind-Stops :
      (kind : SessionKind) (user : Text) (ms : List ChannelMsg) (f : Frame P V)
      → Talks user ms [] f.session
      → Stops user (reply kind ms) (on_kind kind f)
  on_kind-Stops (subsystem name) user ms f talks =
      serves-Stops (text_beq name (text "echo")) name user ms f talks
  on_kind-Stops shell user ms f talks =
      after_done (Stops user (as_sent (only_subsystems ∷ try_echo ∷ []), 0))
        (says only_subsystems >> says try_echo) (pure (ok 0)) user ms
        (as_sent (only_subsystems ∷ try_echo ∷ [])) f
        (says_after (says only_subsystems) try_echo user ms (as_sent (only_subsystems ∷ [])) f
          (says-Done only_subsystems user ms [] f talks))
        (λ f' talks'. (refl, (ms, talks')))
  on_kind-Stops (exec command) user ms f talks = warns-Stops (no_exec command) user 1 ms f talks

  nest-app :
      (n : ℕ) (f : Frame P V)
      → (app f).1 ≡ returned (ok n)
      → nest middleware f ≡ ((app f).0, returned (code n))
  unfolding middleware terminal
  nest-app n f e = ap (λ flow. continue (λ a. pure (result_exit.into_exit a)) ((app f).0, flow)) e

  -- A session, on a channel that takes every message: the subsystem echo answers every packet of
  -- input, in order, up to the end of the input, and ends with status 0; another subsystem and a
  -- command get an error on the standard error stream and status 1, and a shell gets a hint and
  -- status 0; the end of the output and the close follow.
  pub run_task-subsystem :
      (user : Text) (ms : List ChannelMsg) (f : Frame P V)
      → Talks user ms [] f.session
      → sent_on (run_task (build_chain middleware) f).session.channel
        ≡ (reply f.session.kind ms).0 ++ closing (reply f.session.kind ms).1
  unfolding app
  run_task-subsystem user ms f talks =
      let (sent, n) = reply f.session.kind ms in
      let (e, (left, talks')) = on_kind-Stops f.session.kind user ms f talks in
      closed_after (build_chain middleware) f (app f).0 n user left sent
        (ap (λ chain. chain f) (build_chain-nest middleware) ∙ nest-app n f e) talks'
