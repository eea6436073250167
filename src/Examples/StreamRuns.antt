-- ===== src/Examples/StreamRuns.antt =====
-- A stream of events with messages pushed into it, and a display.
use shenron.Common.{
  nat_beq, ℕ, suc, ◌+◌, ◌≡◌, refl, true, false, some, List, [], ◌∷◌, ◌++◌, text, arith,
}
use shenron.Error.{other, IoError, Result, ok, err}
use shenron.Channel.{data_msg, signal_msg, protocol_message}
use shenron.Session
use shenron.Session.{Session, shell}
use shenron.Events.{input, signal, app, from_session}
use shenron.Events.Merging
use shenron.Events.Merging.{Events, Turn, pushes, awaits, push, next, run, messages, client_events}
use shenron.Events.Merging.Order.{Balances, due_events, run-Balances}
use shenron.Events.Merging.Ending.{loop, GaveAll, loop-GaveAll}
use shenron.Files.{io_error}
use shenron.Tui.Drawing.{
  Rect, empty_writer, to_u16, rect_of, Tui, Render, new, close, enter_alt_screen, leave_alt_screen,
  show_cursor,
}
use shenron.Tui.Drawing.Output.{shown, total}
use shenron.Tui.Drawing.Restoring.{draw_all, start, draw_all-close}
use shenron.Examples.Values.{session_of}

abbrev client : Session ℕ ℕ
client = session_of shell (data_msg (1 ∷ []) ∷ protocol_message ∷ signal_msg (text "INT") ∷ [])

abbrev stream : Events ℕ ℕ ℕ
stream = record { session = client; receiver = 5 ∷ []; turns = 0; client_first = λ n. nat_beq n 1 }

abbrev turns : List (Turn ℕ)
turns = awaits ∷ pushes 6 ∷ awaits ∷ awaits ∷ awaits ∷ []

events-run : (run turns stream).1 ≡ app 5 ∷ input (1 ∷ []) ∷ app 6 ∷ signal (text "INT") ∷ []
unfolding run push next Session.next from_session
events-run = refl

run-Balances_example : Balances (due_events stream) (5 ∷ 6 ∷ []) (run turns stream)
run-Balances_example = run-Balances turns stream

loop-GaveAll_example : GaveAll (due_events stream) (5 ∷ []) (loop 4 stream)
loop-GaveAll_example = loop-GaveAll 4 stream (omega arith)

abbrev screen_session : Session ℕ ℕ
screen_session = record client {
  pty = some (text "xterm", record { width = 80; height = 24; pixel_width = 0; pixel_height = 0 });
}

-- A terminal that counts its frames.
abbrev opens : Rect → Result IoError ℕ
opens area = ok 0

abbrev frame : Render ℕ
frame n = (suc n, ((65 + n) ∷ [], ok tt))

abbrev broken : Render ℕ
broken n = (suc n, ((65 + n) ∷ [], err (io_error other)))

abbrev display : Tui ℕ ℕ ℕ ℕ
display = record {
  events = record { session = screen_session; receiver = []; turns = 0; client_first = λ n. true };
  terminal = 0;
  writer = record { buffer = [] };
  pending = [];
  alt_screen = false;
  entered = false;
}

display-new : new (λ n. true) [] opens screen_session ≡ ok display
unfolding new Session.pty_size rect_of to_u16 Merging.new empty_writer
display-new = refl

draw_all-close_example :
    (total (draw_all (broken ∷ frame ∷ broken ∷ []) (start true display))
      ≡ (enter_alt_screen ++ (65 ∷ 66 ∷ 67 ∷ [])))
    × (shown (close (draw_all (broken ∷ frame ∷ broken ∷ []) (start true display))).0
        ≡ shown (draw_all (broken ∷ frame ∷ broken ∷ []) (start true display)).events.session
          ++ (show_cursor ++ leave_alt_screen))
draw_all-close_example =
    draw_all-close (λ n. true) [] opens screen_session display true (broken ∷ frame ∷ broken ∷ [])
      (λ n. refl) display-new
