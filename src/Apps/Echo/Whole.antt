-- ===== src/Apps/Echo/Whole.antt =====
-- examples/echo.rs: the whole of a session, with the middleware and the close of the server.
use shenron.Common.{◌≡◌, ◌∙◌, ap, List, [], ◌++◌, Text, text}
use shenron.Error.{ok}
use shenron.Exit.{code, result_exit, unit_exit, exit_exit}
use shenron.Channel.{ChannelMsg}
use shenron.Session.Conversation.{Talks}
use shenron.Task.{Frame, returned, pure, continue, log_line, connected_from, app_line}
use shenron.Middleware.{build_chain, terminal}
use shenron.Middleware.Chain.{nest, build_chain-nest}
use shenron.Session.Finish.{sent_on, closing}
use shenron.Server.Channels.{run_task}
use shenron.Apps.Saying.{as_sent, closed_after}
use shenron.Apps.Echo.Transcript.{greeting, replies, echo-Ends}
use shenron.Apps.Echo.{echo, log, middleware}

module _ {P V : Type 0} where
  abbrev logged : Frame P V → Frame P V
  logged f = log_line (connected_from f.session.user f.session.remote_addr) f

  abbrev ended_line : Frame P V → Frame P V
  ended_line f = log_line (app_line (text "session ended")) f

  unfolded :
      (f : Frame P V)
      → (echo (logged f)).1 ≡ returned (ok tt)
      → nest middleware f ≡ (ended_line (echo (logged f)).0, returned (code 0))
  unfolding middleware log terminal
  unfolded f e =
      ap
        (λ flow.
          let out = continue (λ a. pure (result_exit.into_exit a)) ((echo (logged f)).0, flow) in
          continue (λ exit. pure exit) (continue (λ exit f. pure exit (ended_line f)) out))
        e

  chain-echo :
      (f : Frame P V)
      → (echo (logged f)).1 ≡ returned (ok tt)
      → build_chain middleware f ≡ (ended_line (echo (logged f)).0, returned (code 0))
  chain-echo f e = ap (λ chain. chain f) (build_chain-nest middleware) ∙ unfolded f e

  -- A session of the echo server, on a channel that takes every message: the greeting with the name
  -- of the user, one reply for each packet of input, up to the one with Ctrl+C or Ctrl+D, which gets
  -- the farewell, or up to the end of the input; and then the exit status 0, the end of the output
  -- and the close.
  pub run_task-echo :
      (user : Text) (ms : List ChannelMsg) (f : Frame P V)
      → Talks user ms [] f.session
      → sent_on (run_task (build_chain middleware) f).session.channel
        ≡ as_sent (greeting user ++ replies ms) ++ closing 0
  run_task-echo user ms f talks =
      let (e, (left, talks')) = echo-Ends user ms (logged f) talks in
      closed_after (build_chain middleware) f (ended_line (echo (logged f)).0) 0 user left
        (as_sent (greeting user ++ replies ms)) (chain-echo f e) talks'
