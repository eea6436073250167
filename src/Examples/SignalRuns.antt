-- ===== src/Examples/SignalRuns.antt =====
-- A session that is interrupted.
use shenron.Common.{◌≡◌, refl, List, [], ◌∷◌, ◌++◌, map, text, Text}
use shenron.Channel.{ChannelMsg, data_out, data_msg, signal_msg, window_change}
use shenron.Session.{shell}
use shenron.Session.Finish.{sent_on, closing}
use shenron.Middleware.{build_chain}
use shenron.Server.Channels.{run_task}
use shenron.Apps.Saying.{as_sent}
use shenron.Apps.Signal.{running, middleware}
use shenron.Apps.Signal.Interrupted.{replies, run_task-signal}
use shenron.Examples.Values.{frame_of, session_of}

-- A packet, a signal that is no interrupt, a resize, SIGTERM, and a packet that comes too late.
abbrev heard : List ChannelMsg
heard =
    data_msg (text "hi")
    ∷ signal_msg (text "HUP")
    ∷ window_change 80 24 0 0
    ∷ signal_msg (text "TERM")
    ∷ data_msg (text "late")
    ∷ []

abbrev shown : Text → Text
shown name = name

run_task-signal_example :
    sent_on
      (run_task
        (build_chain (middleware shown))
        (frame_of (session_of shell heard))).session.channel
    ≡ (as_sent (running ∷ []) ++ map data_out (replies shown heard)) ++ closing 0
run_task-signal_example =
    run_task-signal shown (text "goku") heard (frame_of (session_of shell heard))
      ((refl, refl, λ n. refl), refl, refl)
