-- ===== src/Apps/Echo.antt =====
-- examples/echo.rs: an application that echoes what the client types, behind a middleware that logs.
pub mod Transcript
pub mod Whole
use shenron.Common.{
  ℕ, zero, suc, Bool, true, false, Option, none, some, List, [], ◌∷◌, ◌++◌, ◌||◌, any, nat_beq,
  if◌then◌else◌, Text, text,
}
use shenron.Error.{Error, Result, ok, err}
use shenron.Exit.{Exit, unit_exit, result_exit, exit_exit}
use shenron.Session
use shenron.Session.{Session, Event, input, resize, signal, eof, waiting, write_str}
use shenron.Utf8.{as_bytes, from_utf8_lossy}
use shenron.Middleware.{Middleware, terminal}
use shenron.Apps.Looping.{Action, goes_on, breaks, writes, writes_and_breaks, event_loop}
use shenron.Apps.Saying.{crlf, says}
use shenron.Task.{
  Task, Handler, Frame, Payload, other_payload, panicked, pure, await, on_session, log_line, erase,
  ◌>>=◌, ◌>>◌, connected_from, app_line,
}

abbrev pub welcome : Text
welcome = text "Welcome to Shenron!" ++ crlf

abbrev pub hello : Text → Text
hello user = text "Hello, " ++ (user ++ (text "!" ++ crlf))

abbrev pub type_anything : Text
type_anything = text "Type anything and it will be echoed back." ++ crlf

abbrev pub how_to_exit : Text
how_to_exit = text "Press Ctrl+C or Ctrl+D to exit." ++ (crlf ++ crlf)

abbrev pub goodbye : Text
goodbye = crlf ++ (text "Goodbye!" ++ crlf)

abbrev pub got : List ℕ → Text
got bytes = text "Got: " ++ (from_utf8_lossy bytes ++ crlf)

-- `data.contains(&3) || data.contains(&4)`
abbrev pub ends_input : List ℕ → Bool
ends_input bytes = any (λ b. nat_beq b 3) bytes || any (λ b. nat_beq b 4) bytes

-- The body of the loop.
unfoldable pub react : Event → Action
react (input bytes) =
    if ends_input bytes then writes_and_breaks (as_bytes goodbye) else writes (as_bytes (got bytes))
react (resize size) = goes_on
react eof = breaks
react (signal name) = goes_on

module _ {P V : Type 0} where
  pub echo : Task P V (Result Error (Unit {0}))
  echo f =
      (says welcome
          >> says (hello f.session.user)
          >> says type_anything
          >> says how_to_exit
          >> event_loop react (suc (waiting f.session)))
        f

  -- The middleware `log`.
  pub log : Handler P V → Task P V Exit
  log next f =
      await next (λ exit f. pure exit (log_line (app_line (text "session ended")) f))
        (log_line (connected_from f.session.user f.session.remote_addr) f)

  -- `Server::new().with(log).app(echo)`
  pub middleware : List (Middleware P V)
  unfolding log echo
  middleware = (λ next. erase (log next)) ∷ terminal echo ∷ []
