-- ===== src/Examples/EchoRuns.antt =====
-- A session of the echo server.
use shenron.Common.{◌≡◌, refl, List, [], ◌∷◌, ◌++◌, text}
use shenron.Channel.{ChannelMsg, data_msg, signal_msg, protocol_message}
use shenron.Session.{shell}
use shenron.Session.Finish.{sent_on, closing}
use shenron.Middleware.{build_chain}
use shenron.Server.Channels.{run_task}
use shenron.Apps.Echo.{middleware, got, goodbye}
use shenron.Apps.Saying.{as_sent}
use shenron.Apps.Echo.Transcript.{greeting}
use shenron.Apps.Echo.Whole.{run_task-echo}
use shenron.Examples.Values.{frame_of, session_of}

-- A packet, a signal, Ctrl+C, and a packet that comes too late.
abbrev typed : List ChannelMsg
typed =
    data_msg (text "hi")
    ∷ protocol_message
    ∷ signal_msg (text "INT")
    ∷ data_msg (3 ∷ [])
    ∷ data_msg (text "late")
    ∷ []

run_task-echo_example :
    sent_on (run_task (build_chain middleware) (frame_of (session_of shell typed))).session.channel
    ≡ as_sent (greeting (text "goku") ++ (got (text "hi") ∷ goodbye ∷ [])) ++ closing 0
run_task-echo_example =
    run_task-echo (text "goku") typed (frame_of (session_of shell typed))
      ((refl, refl, λ n. refl), refl, refl)
