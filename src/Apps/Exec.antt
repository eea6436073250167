-- ===== src/Apps/Exec.antt =====
-- examples/exec.rs: an application that answers commands.
pub mod Answers
use shenron.Common.{ℕ, Option, none, some, List, [], ◌∷◌, ◌++◌, if◌then◌else◌, Text, text, text_beq}
use shenron.Error.{Error, Result, ok}
use shenron.Exit.{u32_exit, result_exit}
use shenron.HashMap.{HashMap}
use shenron.Lines.{trim}
use shenron.Session.{Session, SessionKind, shell, exec, subsystem, write_stderr_str}
use shenron.Middleware.{Middleware, terminal}
use shenron.Task.{Task, pure, on_session, ◌>>◌}
use shenron.Apps.Saying.{says}

-- `writeln!(acc, "{k}={v}")` for each variable.
unfoldable pub env_lines : HashMap Text Text → Text
env_lines [] = []
env_lines ((k, v) ∷ env) = k ++ (text "=" ++ (v ++ (10 ∷ env_lines env)))

unfoldable pub env_output : HashMap Text Text → Text
env_output [] = text "(no environment variables)\n"
env_output (entry ∷ env) = env_lines (entry ∷ env)

unfoldable pub unknown : Text → Text
unknown other = text "Unknown command: " ++ (other ++ 10 ∷ [])

module _ {P V : Type 0} (now : Text) where
  -- The `match` on the command; none for one that is not known. `now` is chrono's time.
  unfoldable pub output_of : Session P V → Text → Option Text
  output_of s command =
      if text_beq command (text "whoami")
      then some (s.user ++ 10 ∷ [])
      else if text_beq command (text "date")
      then some (now ++ 10 ∷ [])
      else if text_beq command (text "uptime")
      then some (text "up 0 days, mass hysteria\n")
      else if text_beq command (text "env")
      then some (env_output s.env)
      else if text_beq command (text "help")
      then some (text "Available commands: whoami, date, uptime, env, help\n")
      else none

  abbrev pub answered : Text → Option Text → Task P V (Result Error ℕ)
  answered command (some output) = says output >> pure (ok 0)
  answered command none = on_session (write_stderr_str (unknown command)) >> pure (ok 127)

  abbrev pub on_kind : SessionKind → Task P V (Result Error ℕ)
  on_kind shell = pure (ok 0)
  on_kind (exec command) = λ f. answered (trim command) (output_of f.session (trim command)) f
  on_kind (subsystem name) = pure (ok 0)

  unfoldable pub app : Task P V (Result Error ℕ)
  app f = on_kind f.session.kind f

  -- `Server::new().app(app)`
  unfoldable pub middleware : List (Middleware P V)
  middleware = terminal app ∷ []
