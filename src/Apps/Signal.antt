-- ===== src/Apps/Signal.antt =====
-- examples/signal.rs: an application that repeats what the client types until it is interrupted.
pub mod Interrupted
use shenron.Common.{ℕ, suc, List, [], ◌∷◌, ◌++◌, any, nat_beq, if◌then◌else◌, Text, text, text_beq}
use shenron.Error.{Error, Result, ok}
use shenron.Exit.{unit_exit, result_exit}
use shenron.Utf8.{as_bytes}
use shenron.Session.{Event, input, resize, signal, eof, waiting}
use shenron.Middleware.{Middleware, terminal}
use shenron.Task.{Task, ◌>>◌}
use shenron.Apps.Saying.{crlf, says}
use shenron.Apps.Looping.{Action, goes_on, breaks, writes, writes_and_breaks, event_loop}

abbrev pub running : Text
running = text "Running... (send SIGINT to stop)" ++ crlf

-- A line on its own, after whatever stands on the screen.
abbrev pub on_new_line : Text → Text
on_new_line t = crlf ++ (t ++ crlf)

-- A signal is its name; `shown` is what its `Debug` prints.
unfoldable pub on_signal : (Text → Text) → Text → Action
on_signal shown name =
    if text_beq name (text "INT")
    then writes_and_breaks (as_bytes (on_new_line (text "SIGINT received")))
    else if text_beq name (text "TERM")
    then writes_and_breaks (as_bytes (on_new_line (text "SIGTERM received")))
    else writes (as_bytes (on_new_line (text "Signal: " ++ shown name)))

-- The body of the loop.
unfoldable pub react : (Text → Text) → Event → Action
react shown (input bytes) =
    if any (λ b. nat_beq b 3) bytes
    then writes_and_breaks (as_bytes (on_new_line (text "Ctrl+C received")))
    else writes bytes
react shown (signal name) = on_signal shown name
react shown eof = breaks
react shown (resize size) = goes_on

module _ {P V : Type 0} (shown : Text → Text) where
  -- `signal`
  unfoldable pub app : Task P V (Result Error (Unit {0}))
  app f = (says running >> event_loop (react shown) (suc (waiting f.session))) f

  -- `Server::new().app(signal)`
  unfoldable pub middleware : List (Middleware P V)
  middleware = terminal app ∷ []
