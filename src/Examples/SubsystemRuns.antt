-- ===== src/Examples/SubsystemRuns.antt =====
-- A client of the subsystem echo.
use shenron.Common.{◌≡◌, refl, List, [], ◌∷◌, ◌++◌, text}
use shenron.Channel.{ChannelMsg, data_msg, signal_msg, protocol_message, eof_msg}
use shenron.Session.{subsystem}
use shenron.Session.Finish.{sent_on, closing}
use shenron.Middleware.{build_chain}
use shenron.Server.Channels.{run_task}
use shenron.Apps.Subsystem.{middleware}
use shenron.Apps.Subsystem.Serving.{reply, run_task-subsystem}
use shenron.Examples.Values.{frame_of, session_of}

-- Two packets, other messages between them, and one after the end of the input.
abbrev asked : List ChannelMsg
asked =
    data_msg (text "hi")
    ∷ signal_msg (text "INT")
    ∷ protocol_message
    ∷ data_msg (text "ho")
    ∷ eof_msg
    ∷ data_msg (text "late")
    ∷ []

run_task-subsystem_example :
    sent_on
      (run_task
        (build_chain middleware)
        (frame_of (session_of (subsystem (text "echo")) asked))).session.channel
    ≡ (reply (subsystem (text "echo")) asked).0 ++ closing (reply (subsystem (text "echo")) asked).1
run_task-subsystem_example =
    run_task-subsystem (text "goku") asked (frame_of (session_of (subsystem (text "echo")) asked))
      ((refl, refl, λ n. refl), refl, refl)
