-- ===== src/Tui/Reading.antt =====
-- src/tui/core.rs: `Tui::next`, on the stream of src/events/core.rs.
pub mod Merged
pub mod Delivered
use shenron.Common.{ℕ, zero, suc, Option, none, some, List, [], ◌∷◌, Text}
use shenron.Error.{Error, Result, ok, err}
use shenron.Events
use shenron.Events.Merging
use shenron.Events.Merging.{Events}
use shenron.Tui.Codes.{Input}
use shenron.Tui.Key.{Parse}
use shenron.Tui.Loop.{Event, resize, app, eof, from_input, inputs_of}
use shenron.Tui.Drawing.{Rect, rect_of, Tui}

-- `if let Ok(rect) = size.try_into() { let _ = self.terminal.resize(rect); }`
abbrev pub resized_to : {T : Type 0} → (Rect → T → T) → Result Error Rect → T → T
resized_to resize_terminal (ok rect) t = resize_terminal rect t
resized_to resize_terminal (err e) t = t

-- The next turns of the loop.
abbrev pub Again : (P V M T : Type 0) → Type 0
Again P V M T = Tui P V M T → Option (Tui P V M T × Option (Event M))

-- `resize_terminal` is ratatui's, whose failure is ignored; `message` is what `TryFromIntError` prints.
module _ {P V M T : Type 0} (parse_from : Parse) (message : Text)
    (resize_terminal : Rect → T → T) where
  abbrev pub handled : Again P V M T → Events.Event M → Again P V M T
  handled again (Events.input bytes) tui =
      again (record tui { pending = inputs_of parse_from bytes })
  handled again (Events.resize size) tui = some (
    record tui { terminal = resized_to resize_terminal (rect_of message size) tui.terminal },
    some (resize size),
  )
  handled again (Events.signal name) tui = again tui
  handled again (Events.app m) tui = some (tui, some (app m))
  handled again Events.eof tui = some (tui, some eof)

  abbrev pub received :
      Again P V M T
      → Tui P V M T
      → Events P V M × Option (Events.Event M)
      → Option (Tui P V M T × Option (Event M))
  received again tui (events, none) = some (record tui { events = events }, none)
  received again tui (events, some e) = handled again e (record tui { events = events })

  -- A turn of the loop, on the pending inputs.
  abbrev pub turn : Again P V M T → List Input → Again P V M T
  turn again [] tui = received again tui (Merging.next tui.events)
  turn again (i ∷ is) tui = some (record tui { pending = is }, some (from_input i))

  -- The loop, on fuel; none where the fuel runs out.
  unfoldable pub next_on : ℕ → Tui P V M T → Option (Tui P V M T × Option (Event M))
  next_on zero tui = none
  next_on (suc fuel) tui = turn (next_on fuel) tui.pending tui
