-- ===== src/Apps/Signal/Interrupted.antt =====
-- examples/signal.rs: the whole of a session.
use shenron.Common.{
  ℕ, suc, ◌≡◌, refl, sym, ◌∙◌, ap, Bool, true, false, List, [], ◌∷◌, ◌++◌, ◌||◌, any, nat_beq, map,
  if◌then◌else◌, Text, text, text_beq, text_beq_iff,
}
use shenron.Utf8.{as_bytes}
use shenron.Error.{ok}
use shenron.Exit.{code, unit_exit, result_exit}
use shenron.Channel.{
  ChannelMsg, data_msg, window_change, signal_msg, eof_msg, protocol_message, Outgoing, data_out,
}
use shenron.Session.{waiting}
use shenron.Session.Conversation.{Talks, enough_on}
use shenron.Session.Finish.{sent_on, closing}
use shenron.Task.{Frame, returned, pure, continue}
use shenron.Middleware.{build_chain, terminal}
use shenron.Middleware.Chain.{nest, build_chain-nest}
use shenron.Server.Channels.{run_task}
use shenron.Apps.Saying.{crlf, Ends, as_sent, says, says-Done, after_done, closed_after}
use shenron.Apps.Looping.{acted, writes, writes_and_breaks, transcript, event_loop, event_loop-Ends}
use shenron.Apps.Signal.{running, on_new_line, on_signal, react, app, middleware}

-- What the application answers to the messages of the client, in bytes.
abbrev pub replies : (Text → Text) → List ChannelMsg → List (List ℕ)
replies shown [] = []
replies shown (data_msg d ∷ ms) =
    if any (λ b. nat_beq b 3) d
    then as_bytes (13 ∷ 10 ∷ text "Ctrl+C received" ++ crlf) ∷ []
    else d ∷ replies shown ms
replies shown (signal_msg name ∷ ms) =
    if text_beq name (text "INT") || text_beq name (text "TERM")
    then as_bytes (13 ∷ 10 ∷ (text "SIG" ++ name) ++ (text " received" ++ crlf)) ∷ []
    else as_bytes (13 ∷ 10 ∷ text "Signal: " ++ (shown name ++ crlf)) ∷ replies shown ms
replies shown (window_change w h pw ph ∷ ms) = replies shown ms
replies shown (eof_msg ∷ ms) = []
replies shown (protocol_message ∷ ms) = replies shown ms

data-replies :
    (b : Bool) (bye d : List ℕ) (rest : List Outgoing) (more : List (List ℕ))
    → rest ≡ map data_out more
    → acted (if b then writes_and_breaks bye else writes d) rest
      ≡ map data_out (if b then bye ∷ [] else d ∷ more)
data-replies true bye d rest more e = refl
data-replies false bye d rest more e = ap (λ xs. data_out d ∷ xs) e

-- The two interrupts have answers of their own, which say their names.
interrupt-replies :
    (b c : Bool) (name shown : Text) (rest : List Outgoing) (more : List (List ℕ))
    → (b ≡ true → name ≡ text "INT")
    → (c ≡ true → name ≡ text "TERM")
    → rest ≡ map data_out more
    → acted
        (if b
          then writes_and_breaks (as_bytes (on_new_line (text "SIGINT received")))
          else if c
          then writes_and_breaks (as_bytes (on_new_line (text "SIGTERM received")))
          else writes (as_bytes (on_new_line (text "Signal: " ++ shown))))
        rest
      ≡ map data_out (
          if b || c
          then as_bytes (13 ∷ 10 ∷ (text "SIG" ++ name) ++ (text " received" ++ crlf)) ∷ []
          else as_bytes (13 ∷ 10 ∷ text "Signal: " ++ (shown ++ crlf)) ∷ more)
interrupt-replies true c name shown rest more int term e =
    ap (λ n. data_out (as_bytes (13 ∷ 10 ∷ (text "SIG" ++ n) ++ (text " received" ++ crlf))) ∷ [])
      (sym (int refl))
interrupt-replies false true name shown rest more int term e =
    ap (λ n. data_out (as_bytes (13 ∷ 10 ∷ (text "SIG" ++ n) ++ (text " received" ++ crlf))) ∷ [])
      (sym (term refl))
interrupt-replies false false name shown rest more int term e =
    ap (λ xs. data_out (as_bytes (13 ∷ 10 ∷ text "Signal: " ++ (shown ++ crlf))) ∷ xs) e

transcript-replies :
    (shown : Text → Text) (ms : List ChannelMsg)
    → transcript (react shown) ms ≡ map data_out (replies shown ms)
unfolding react on_signal
transcript-replies shown [] = refl
transcript-replies shown (data_msg d ∷ ms) =
    data-replies (any (λ b. nat_beq b 3) d) (as_bytes (on_new_line (text "Ctrl+C received"))) d
      (transcript (react shown) ms) (replies shown ms) (transcript-replies shown ms)
transcript-replies shown (signal_msg name ∷ ms) =
    interrupt-replies (text_beq name (text "INT")) (text_beq name (text "TERM")) name (shown name)
      (transcript (react shown) ms) (replies shown ms) (text_beq_iff name (text "INT")).0
      (text_beq_iff name (text "TERM")).0 (transcript-replies shown ms)
transcript-replies shown (window_change w h pw ph ∷ ms) = transcript-replies shown ms
transcript-replies shown (eof_msg ∷ ms) = refl
transcript-replies shown (protocol_message ∷ ms) = transcript-replies shown ms

module _ {P V : Type 0} (shown : Text → Text) where
  app-Ends :
      (user : Text) (ms : List ChannelMsg) (f : Frame P V)
      → Talks user ms [] f.session
      → Ends user (as_sent (running ∷ []) ++ transcript (react shown) ms) (app shown f)
  unfolding app
  app-Ends user ms f talks =
      after_done (Ends user (as_sent (running ∷ []) ++ transcript (react shown) ms)) (says running)
        (event_loop (react shown) (suc (waiting f.session))) user ms (as_sent (running ∷ [])) f
        (says-Done running user ms [] f talks)
        (λ f' talks'.
          event_loop-Ends (react shown) (suc (waiting f.session)) user ms (as_sent (running ∷ []))
            f' (enough_on ms [] f.session.channel talks.0) talks')

  nest-app :
      (f : Frame P V)
      → (app shown f).1 ≡ returned (ok tt)
      → nest (middleware shown) f ≡ ((app shown f).0, returned (code 0))
  unfolding middleware terminal
  nest-app f e =
      ap (λ flow. continue (λ a. pure (result_exit.into_exit a)) ((app shown f).0, flow)) e

  -- A session, on a channel that takes every message: after the first line every packet of input is
  -- sent back and every other signal is named, in order, up to the first of a packet with Ctrl+C,
  -- SIGINT and SIGTERM, which is told, or the end of the input; and then come the exit status 0, the
  -- end of the output and the close.
  pub run_task-signal :
      (user : Text) (ms : List ChannelMsg) (f : Frame P V)
      → Talks user ms [] f.session
      → sent_on (run_task (build_chain (middleware shown)) f).session.channel
        ≡ (as_sent (running ∷ []) ++ map data_out (replies shown ms)) ++ closing 0
  run_task-signal user ms f talks =
      let (e, (left, talks')) = app-Ends user ms f talks in
      closed_after (build_chain (middleware shown)) f (app shown f).0 0 user left
        (as_sent (running ∷ []) ++ transcript (react shown) ms)
        (ap (λ chain. chain f) (build_chain-nest (middleware shown)) ∙ nest-app f e) talks'
      ∙ ap (λ xs. (as_sent (running ∷ []) ++ xs) ++ closing 0) (transcript-replies shown ms)
