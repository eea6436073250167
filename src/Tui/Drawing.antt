-- ===== src/Tui/Drawing.antt =====
-- src/tui/core.rs and src/tui/writer.rs, as far as they draw, and the size in src/session/pty.rs.
-- `T` is ratatui's terminal, without the writer at its end; what it does is a parameter.
pub mod Output
pub mod Restoring
use shenron.Common.{
  ℕ, ◌^◌, Bool, true, false, Option, none, some, List, [], ◌∷◌, ◌++◌, ◌&&◌, not, if◌then◌else◌,
  Text, text, ltb, length,
}
use shenron.Error.{IoError, Error, protocol, int, io, Result, ok, err, ◌>>=◌}
use shenron.Channel.{PtySize}
use shenron.Session.{Session, pty_size}
use shenron.Events.Merging
use shenron.Events.Merging.{Events}
use shenron.Tui.Codes.{Input}

-- src/tui/writer.rs
pub record SessionWriter : Type 0 where
  pub buffer : List ℕ

unfoldable pub empty_writer : SessionWriter
empty_writer = record { buffer = [] }

unfoldable pub take_buffer : SessionWriter → SessionWriter × List ℕ
unfolding empty_writer
take_buffer w = (empty_writer, w.buffer)

unfoldable pub write_buffer : List ℕ → SessionWriter → SessionWriter × Result IoError ℕ
write_buffer bytes w = (record w { buffer = w.buffer ++ bytes }, ok (length bytes))

pub flush : SessionWriter → SessionWriter × Result IoError (Unit {0})
flush w = (w, ok tt)

-- `Rect`, from ratatui.
pub record Rect : Type 0 where
  pub x : ℕ
  pub y : ℕ
  pub width : ℕ
  pub height : ℕ

-- `u16::try_from`; `message` is what `TryFromIntError` prints.
unfoldable pub to_u16 : Text → ℕ → Result Error ℕ
to_u16 message n = if ltb n (2 ^ 16) then ok n else err (int message)

-- `TryFrom<PtySize> for Rect`
unfoldable pub rect_of : Text → PtySize → Result Error Rect
rect_of message size = to_u16 message size.width >>= λ width.
    to_u16 message size.height >>= λ height.
    ok (record { x = 0; y = 0; width = width; height = height })

abbrev pub enter_alt_screen : List ℕ
enter_alt_screen = 0x1b ∷ text "[?1049h"

abbrev pub leave_alt_screen : List ℕ
leave_alt_screen = 0x1b ∷ text "[?1049l"

abbrev pub show_cursor : List ℕ
show_cursor = 0x1b ∷ text "[?25h"

abbrev pub new_line : List ℕ
new_line = b'\r' ∷ b'\n' ∷ []

pub record Tui (P V M T : Type 0) : Type 0 where
  pub events : Events P V M
  pub terminal : T
  pub writer : SessionWriter
  pub pending : List Input
  pub alt_screen : Bool
  pub entered : Bool

-- One rendering of ratatui: the terminal, the bytes that it writes, and its result.
abbrev pub Render : Type 0 → Type 0
Render T = T → T × (List ℕ × Result IoError (Unit {0}))

module _ {P V M T : Type 0} where
  abbrev pub opened : (ℕ → Bool) → Session P V → Result IoError T → Result Error (Tui P V M T)
  opened client_first session (err e) = err (io e)
  opened client_first session (ok terminal) = ok (record {
    events = Merging.new client_first session;
    terminal = terminal;
    writer = empty_writer;
    pending = [];
    alt_screen = false;
    entered = false;
  })

  abbrev pub sized :
      (ℕ → Bool)
      → Text
      → (Rect → Result IoError T)
      → Session P V
      → Option PtySize
      → Result Error (Tui P V M T)
  sized client_first message with_options session none = err (protocol (text "tui requires a pty"))
  sized client_first message with_options session (some size) =
      rect_of message size >>= λ area. opened client_first session (with_options area)

  -- `Tui::new`; `with_options` is ratatui's, with a fixed viewport.
  unfoldable pub new :
      (ℕ → Bool) → Text → (Rect → Result IoError T) → Session P V → Result Error (Tui P V M T)
  new client_first message with_options session =
      sized client_first message with_options session (pty_size session)

  -- `Tui::alt_screen`
  unfoldable pub on_alt_screen : Tui P V M T → Tui P V M T
  on_alt_screen tui = record tui { alt_screen = true }

  unfoldable pub push : M → Tui P V M T → Tui P V M T
  push m tui = record tui { events = Merging.push m tui.events }

  abbrev with_events :
      Tui P V M T → Events P V M × Result Error (Unit {0}) → Tui P V M T × Result Error (Unit {0})
  with_events tui (events, r) = (record tui { events = events }, r)

  unfoldable pub write : List ℕ → Tui P V M T → Tui P V M T × Result Error (Unit {0})
  write bytes tui = with_events tui (Merging.write bytes tui.events)

  pub write_str : Text → Tui P V M T → Tui P V M T × Result Error (Unit {0})
  write_str t tui = with_events tui (Merging.write_str t tui.events)

  abbrev pub enters : Bool → Tui P V M T → Tui P V M T
  enters true tui = record tui {
    writer = (write_buffer enter_alt_screen tui.writer).0;
    entered = true;
  }
  enters false tui = tui

  -- The first frame on the alternate screen enters it.
  unfoldable pub entering : Tui P V M T → Tui P V M T
  entering tui = enters (tui.alt_screen && not tui.entered) tui

  -- The frame goes to the writer, and the writer to the client.
  abbrev sends_frame : Tui P V M T → SessionWriter × List ℕ → Tui P V M T × Result Error (Unit {0})
  sends_frame tui (writer, bytes) = write bytes (record tui { writer = writer })

  abbrev after_frame :
      Tui P V M T → T × (List ℕ × Result IoError (Unit {0})) → Tui P V M T × Result Error (Unit {0})
  after_frame tui (terminal, (bytes, err e)) =
      (record tui { terminal = terminal; writer = (write_buffer bytes tui.writer).0 }, err (io e))
  after_frame tui (terminal, (bytes, ok _)) =
      sends_frame (record tui { terminal = terminal })
        (take_buffer (write_buffer bytes tui.writer).0)

  abbrev pub draw_on : Render T → Tui P V M T → Tui P V M T × Result Error (Unit {0})
  draw_on render tui = after_frame tui (render tui.terminal)

  unfoldable pub draw : Render T → Tui P V M T → Tui P V M T × Result Error (Unit {0})
  draw render tui = draw_on render (entering tui)

  -- What `close` sends.
  unfoldable pub restore : Tui P V M T → List ℕ
  restore tui =
      show_cursor ++ (if tui.alt_screen && tui.entered then leave_alt_screen else new_line)

  -- `close` gives the session back.
  unfoldable pub close : Tui P V M T → Session P V × Result Error (Unit {0})
  close tui = let (events, r) = Merging.write (restore tui) tui.events in (events.session, r)
