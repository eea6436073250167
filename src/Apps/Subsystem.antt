-- ===== src/Apps/Subsystem.antt =====
-- examples/subsystem.rs: an application that serves one subsystem.
pub mod Serving
use shenron.Common.{
  ℕ, zero, suc, Bool, true, false, Option, none, some, List, [], ◌∷◌, ◌++◌, Text, text, text_beq,
}
use shenron.Error.{Error, Result, ok}
use shenron.Exit.{u32_exit, result_exit}
use shenron.Utf8.{from_utf8_lossy}
use shenron.Session.{
  Session, SessionKind, shell, exec, subsystem, input_of, waiting, write_stderr_str,
}
use shenron.Middleware.{Middleware, terminal}
use shenron.Task.{
  Task, Frame, Flow, other_payload, panicked, returned, pure, await, on_session, ◌>>◌,
}
use shenron.Apps.Saying.{crlf, says}

abbrev pub got : List ℕ → Text
got bytes = text "Got: " ++ (from_utf8_lossy bytes ++ crlf)

abbrev pub only_subsystems : Text
only_subsystems = text "This server only supports subsystems." ++ crlf

abbrev pub try_echo : Text
try_echo = text "Try: ssh -s echo" ++ crlf

abbrev pub unknown_subsystem : Text → Text
unknown_subsystem name = text "Unknown subsystem: " ++ (name ++ 10 ∷ [])

abbrev pub no_exec : Text → Text
no_exec command = text "Exec not supported: " ++ (command ++ 10 ∷ [])

module _ {P V : Type 0} where
  abbrev pub read_from :
      Frame P V → Option (Session P V × Option (List ℕ)) → Frame P V × Flow (Option (List ℕ))
  read_from f none = (f, panicked other_payload)
  read_from f (some (s, bytes)) = (record f { session = s }, returned bytes)

  -- `session.input()`, whose fuel is enough.
  abbrev pub reads : Task P V (Option (List ℕ))
  reads f = read_from f (input_of f.session)

  abbrev pub on_input : Task P V (Result Error ℕ) → Option (List ℕ) → Task P V (Result Error ℕ)
  on_input again none = pure (ok 0)
  on_input again (some bytes) = says (got bytes) >> again

  -- `while let Some(data) = session.input().await`, on fuel; it would panic where the fuel runs out.
  unfoldable pub echo_inputs : ℕ → Task P V (Result Error ℕ)
  echo_inputs zero f = (f, panicked other_payload)
  echo_inputs (suc fuel) f = await reads (on_input (echo_inputs fuel)) f

  abbrev pub serves : Bool → Text → Task P V (Result Error ℕ)
  serves true name = λ f. echo_inputs (suc (waiting f.session)) f
  serves false name = on_session (write_stderr_str (unknown_subsystem name)) >> pure (ok 1)

  abbrev pub on_kind : SessionKind → Task P V (Result Error ℕ)
  on_kind (subsystem name) = serves (text_beq name (text "echo")) name
  on_kind shell = says only_subsystems >> says try_echo >> pure (ok 0)
  on_kind (exec command) = on_session (write_stderr_str (no_exec command)) >> pure (ok 1)

  unfoldable pub app : Task P V (Result Error ℕ)
  app f = on_kind f.session.kind f

  -- `Server::new().app(app)`
  unfoldable pub middleware : List (Middleware P V)
  middleware = terminal app ∷ []
