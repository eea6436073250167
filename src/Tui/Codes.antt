-- ===== src/Tui/Codes.antt =====
-- src/tui/key.rs: the events of terminput and crossterm, in the parts that the source reads or makes,
-- and the conversion between them.
use shenron.Common.{ℕ, Bool, true, false, Option, none, some, not, if◌then◌else◌, Text}

-- `KeyModifiers`, of terminput and of crossterm: a set of six.
pub record Modifiers : Type 0 where
  pub shift : Bool
  pub ctrl : Bool
  pub alt : Bool
  pub super_key : Bool
  pub hyper : Bool
  pub meta : Bool

-- `terminput::KeyCode`; `other_code` stands for the codes that the source drops.
pub data TermCode : Type 0 where
  tab backspace enter left right up down home end page_up page_down delete insert esc : TermCode
  function : ℕ → TermCode
  char : ℕ → TermCode
  other_code : TermCode

pub data Kind : Type 0 where
  press repeat release : Kind

pub record TermKey : Type 0 where
  pub code : TermCode
  pub modifiers : Modifiers
  pub kind : Kind

-- `terminput::Event`
pub data TermEvent : Type 0 where
  key_event : TermKey → TermEvent
  paste_event : Text → TermEvent
  other_event : TermEvent

-- `ratatui::crossterm::event::KeyCode` is `TermCode` with `BackTab`.
pub data KeyCode : Type 0 where
  back_tab : KeyCode
  same_code : TermCode → KeyCode

pub record KeyEvent : Type 0 where
  pub code : KeyCode
  pub modifiers : Modifiers

pub data Input : Type 0 where
  key : KeyEvent → Input
  paste : Text → Input

abbrev pub no_modifiers : Modifiers
no_modifiers = record {
  shift = false;
  ctrl = false;
  alt = false;
  super_key = false;
  hyper = false;
  meta = false;
}

-- `convert_modifiers` maps each of the six to its namesake.
unfoldable pub convert_modifiers : Modifiers → Modifiers
convert_modifiers m = record {
  shift = m.shift;
  ctrl = m.ctrl;
  alt = m.alt;
  super_key = m.super_key;
  hyper = m.hyper;
  meta = m.meta;
}

unfoldable pub convert_code : Bool → TermCode → Option KeyCode
convert_code shift other_code = none
convert_code true tab = some back_tab
convert_code shift code = some (same_code code)

unfoldable pub convert_key : TermKey → Option Input
convert_key k = elim (convert_code k.modifiers.shift k.code) [
  | none ↦ none
  | some code ↦ some (key (record { code = code; modifiers = convert_modifiers k.modifiers }))
]

abbrev is_release : Kind → Bool
is_release release = true
is_release _ = false

unfoldable pub convert : TermEvent → Option Input
convert (key_event k) = if not (is_release k.kind) then convert_key k else none
convert (paste_event t) = some (paste t)
convert other_event = none

abbrev pub esc_key : Input
esc_key = key (record { code = same_code esc; modifiers = no_modifiers })
