-- ===== src/Tui/Loop.antt =====
-- src/tui/core.rs and src/tui/event.rs: the loop of `Tui::next`, over the events that
-- `Events::next` is still to give. `T` is ratatui's terminal, of which a resize is a parameter.
pub mod Delivery
use shenron.Common.{ℕ, Option, none, some, List, [], ◌∷◌, Text, unwrap_or}
use shenron.Channel.{PtySize}
use shenron.Events
use shenron.Tui.Key.{Parse, parse_input}
use shenron.Tui.Codes.{Input, KeyEvent}

pub data Event (M : Type 0) : Type 0 where
  key : KeyEvent → Event M
  paste : Text → Event M
  resize : PtySize → Event M
  app : M → Event M
  eof : Event M

pub record Tui (M T : Type 0) : Type 0 where
  pub events : List (Events.Event M)
  pub pending : List Input
  pub terminal : T

unfoldable pub from_input : {M : Type 0} → Input → Event M
from_input (Input.key k) = key k
from_input (Input.paste t) = paste t

-- The inputs of a packet; `parse_input` always gives some.
unfoldable pub inputs_of : Parse → List ℕ → List Input
inputs_of parse_from bytes = unwrap_or (parse_input parse_from bytes) []

module _ {M T : Type 0} (parse_from : Parse) (resize_terminal : PtySize → T → T) where
  -- The loop, on what is pending and on the events to come.
  unfoldable pub next_from : List (Events.Event M) → List Input → T → Tui M T × Option (Event M)
  next_from [] [] t = (record { events = []; pending = []; terminal = t }, none)
  next_from [] (i ∷ is) t =
      (record { events = []; pending = is; terminal = t }, some (from_input i))
  next_from (e ∷ es) (i ∷ is) t =
      (record { events = e ∷ es; pending = is; terminal = t }, some (from_input i))
  next_from (Events.input bytes ∷ es) [] t = next_from es (inputs_of parse_from bytes) t
  next_from (Events.resize size ∷ es) [] t =
      (record { events = es; pending = []; terminal = resize_terminal size t }, some (resize size))
  next_from (Events.signal name ∷ es) [] t = next_from es [] t
  next_from (Events.app m ∷ es) [] t =
      (record { events = es; pending = []; terminal = t }, some (app m))
  next_from (Events.eof ∷ es) [] t = (record { events = es; pending = []; terminal = t }, some eof)

  unfoldable pub next : Tui M T → Tui M T × Option (Event M)
  unfolding next_from
  next tui = next_from tui.events tui.pending tui.terminal
