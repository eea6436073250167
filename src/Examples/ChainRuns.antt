-- ===== src/Examples/ChainRuns.antt =====
-- Chains of middleware, and the task that runs one.
use shenron.Common.{ℕ, ◌≡◌, refl, Option, some, List, [], ◌∷◌, ◌++◌, Text, text, inl, inr, arith}
use shenron.Exit.{Exit, code, exit_code, exit_exit}
use shenron.Session.{exec, command, raw_command}
use shenron.Session.Finish.{sent_on, closing}
use shenron.Task.{Handler, Frame, returned, panicked, str_payload}
use shenron.Middleware.{Middleware, build_chain}
use shenron.Middleware.Builtins.{AccessControl, access_control, recover, active_term}
use shenron.Middleware.Builtins.Guards.{
  IsListed, access_control-runs, access_control-refuses, recovered, recover-recovered,
}
use shenron.Middleware.Chain.{nest, build_chain-nest}
use shenron.Server.Channels.{run_task}
use shenron.Server.Channels.Tasks.{run_task-finish}
use shenron.Common.{text_eq, text_beq, none}
use shenron.Session.{subsystem, take_channel}
use shenron.Sftp.Serving.{is_sftp, sftp, sftp_on}
use shenron.Examples.Values.{session_of, frame_of, open_channel_of, exits}

-- A split at no space at all: a command is its own program.
abbrev whole : Text → Option (List Text)
whole t = some (t ∷ [])

abbrev only_git : AccessControl
only_git = record { allowed = text "git" ∷ [] }

abbrev panics : Handler ℕ ℕ
panics f = (f, panicked (str_payload (text "boom")))

abbrev git_frame : Frame ℕ ℕ
git_frame = frame_of (session_of (exec (text "git")) [])

abbrev rm_frame : Frame ℕ ℕ
rm_frame = frame_of (session_of (exec (text "rm")) [])

git_command : command whole git_frame.session ≡ some (text "git" ∷ [])
unfolding command
git_command = refl

rm_raw : raw_command rm_frame.session ≡ some (text "rm")
unfolding raw_command
rm_raw = refl

rm_unlisted :
    (program : Text) (args : List Text)
    → command whole rm_frame.session ≡ some (program ∷ args)
    → ¬ IsListed program only_git.allowed
unfolding command
rm_unlisted program args e l = ground arith

access_control-runs_example : access_control whole only_git (exits 5) git_frame ≡ exits 5 git_frame
access_control-runs_example =
    access_control-runs whole only_git (exits 5) git_frame
      (inr (text "git", [], git_command, inl refl))

access_control-refuses_example :
    (access_control whole only_git (exits 5) rm_frame
      ≡ access_control whole only_git panics rm_frame)
    × (exit : Exit) × ((access_control whole only_git (exits 5) rm_frame).1 ≡ returned exit)
    × (exit_code exit ≡ 1)
access_control-refuses_example =
    access_control-refuses whole only_git (exits 5) panics rm_frame (text "rm") rm_raw rm_unlisted

recover-recovered_example : recover panics git_frame ≡ recovered git_frame (panics git_frame)
recover-recovered_example = recover-recovered panics git_frame

abbrev two : List (Middleware ℕ ℕ)
two = recover ∷ active_term ∷ []

build_chain-nest_example : build_chain two ≡ nest two
build_chain-nest_example = build_chain-nest two

run_task-finish_example :
    sent_on (run_task (exits 5) git_frame).session.channel ≡ [] ++ closing (exit_code (code 5))
run_task-finish_example =
    run_task-finish (exits 5) git_frame git_frame (code 5) (open_channel_of []) refl refl
      (λ n. refl)

-- A session of the SFTP subsystem, with a comment around the middleware.
abbrev sftp_frame : Frame ℕ ℕ
sftp_frame = frame_of (session_of (subsystem (text "sftp")) [])

abbrev taken : Frame ℕ ℕ
taken = record sftp_frame { session = record sftp_frame.session { channel = none } }

sftp-taken : sftp (exits 5) sftp_frame ≡ (taken, returned (code 0))
unfolding sftp sftp_on is_sftp take_channel text_beq
sftp-taken = refl
