-- ===== src/Examples/ReadingRuns.antt =====
-- A display that reads the keys, the resizes and the messages of a stream.
use shenron.Common.{ℕ, suc, ◌≡◌, refl, true, false, some, List, [], ◌∷◌, text, arith, length}
use shenron.Channel.{data_msg, signal_msg, window_change, eof_msg}
use shenron.Session
use shenron.Session.{Session, shell}
use shenron.Events
use shenron.Events.{from_session}
use shenron.Events.Merging
use shenron.Events.Merging.{Events}
use shenron.Events.Merging.Ending.{loop}
use shenron.Tui.Drawing.{Rect, Tui}
use shenron.Tui.Reading.Delivered.{due, drain, drain-due_of_stream}
use shenron.Examples.Values.{session_of}
use shenron.Examples.KeyRuns.{knows_plain, hi, small}

abbrev keyboard : Events ℕ ℕ ℕ
keyboard = record {
  session =
      session_of shell
        (data_msg hi ∷ window_change 80 24 0 0 ∷ signal_msg (text "INT") ∷ eof_msg ∷ []);
  receiver = 5 ∷ [];
  turns = 0;
  client_first = λ n. true;
}

abbrev given : List (Events.Event ℕ)
given = Events.input hi ∷ Events.resize small ∷ Events.signal (text "INT") ∷ Events.eof ∷ []

-- The terminal is its width.
abbrev to_width : Rect → ℕ → ℕ
to_width area t = area.width

abbrev reader : Tui ℕ ℕ ℕ ℕ
reader = record {
  events = keyboard;
  terminal = 0;
  writer = record { buffer = [] };
  pending = [];
  alt_screen = false;
  entered = false;
}

keyboard-given : loop 9 keyboard ≡ some given
unfolding loop Merging.next Session.next from_session
keyboard-given = refl

abbrev room : ℕ
room = length (due knows_plain [] to_width [] given)

drain-due_of_stream_example :
    drain knows_plain [] to_width (suc room) 5 reader ≡ some (due knows_plain [] to_width [] given)
drain-due_of_stream_example =
    drain-due_of_stream knows_plain [] to_width (suc room) 5 9 reader given keyboard-given
      (omega arith) (omega arith)
