-- ===== src/Session.antt =====
-- src/session/core.rs, src/session/kind.rs and src/session/event.rs. `P` is russh's `PublicKey`
-- and `V` the type of the values in `Extensions`.
pub mod Attached
pub mod Statuses
pub mod Input
pub mod Inputs
pub mod Stream
pub mod Conversation
pub mod Finish
use shenron.Common.{
  ℕ, suc, Bool, true, false, Option, none, some, List, [], ◌∷◌, if◌then◌else◌, Text, text, is_some,
  ◌||◌, length,
}
use shenron.Error.{Error, protocol, Result, ok, err}
use shenron.HashMap.{HashMap}
use shenron.Extensions
use shenron.Extensions.{Extensions}
use shenron.Channel.{
  PtySize, ChannelMsg, data_msg, window_change, signal_msg, eof_msg, protocol_message, Outgoing,
  data_out, extended_data, exit_status, eof_out, close_out, Channel, send,
}
use shenron.Utf8.{as_bytes}

pub data SessionKind : Type 0 where
  shell : SessionKind
  exec : Text → SessionKind
  subsystem : Text → SessionKind

pub data Event : Type 0 where
  input : List ℕ → Event
  resize : PtySize → Event
  signal : Text → Event
  eof : Event

pub data IpAddr : Type 0 where
  v4 v6 : ℕ → IpAddr

pub record SocketAddr : Type 0 where
  pub ip : IpAddr
  pub port : ℕ

pub record Session (P V : Type 0) : Type 0 where
  pub channel : Option Channel
  pub kind : SessionKind
  pub pty : Option (Text × PtySize)
  pub user : Text
  pub public_key : Option P
  pub env : HashMap Text Text
  pub extensions : Extensions V
  pub remote_addr : SocketAddr
  pub exited : Bool

unfoldable pub channel_unavailable : Text
channel_unavailable = text "channel unavailable"

-- `if let Some((_, ref mut size)) = self.pty { *size = new_size }`
abbrev set_size : PtySize → Option (Text × PtySize) → Option (Text × PtySize)
set_size size none = none
set_size size (some (term, _)) = some (term, size)

abbrev is_shell : SessionKind → Bool
is_shell shell = true
is_shell _ = false

-- `exit_status`, `eof` and `close` in turn, up to the first that fails.
pub close_down : ℕ → Channel → Channel × Result Error (Unit {0})
close_down n ch =
    let (ch₁, r₁) = send (exit_status n) ch in
    elim r₁ [
      | err e ↦ (ch₁, err e)
      | ok _ ↦
          let (ch₂, r₂) = send eof_out ch₁ in
          elim r₂ [ err e ↦ (ch₂, err e) | ok _ ↦ send close_out ch₂ ]
    ]

-- The messages that are still to come, on a channel that a session may have lost.
abbrev pub incoming_on : Option Channel → List ChannelMsg
incoming_on none = []
incoming_on (some ch) = ch.incoming

module _ {P V : Type 0} where
  -- `Session::new`
  unfoldable pub new :
      Channel
      → SessionKind
      → Option (Text × PtySize)
      → Text
      → Option P
      → HashMap Text Text
      → Extensions V
      → SocketAddr
      → Session P V
  new channel kind pty user public_key env extensions remote_addr = record {
    channel = some channel;
    kind = kind;
    pty = pty;
    user = user;
    public_key = public_key;
    env = env;
    extensions = extensions;
    remote_addr = remote_addr;
    exited = false;
  }

  -- The loop of `next`, over the messages that are still to come.
  next_from : Session P V → Channel → List ChannelMsg → Session P V × Option Event
  next_from s ch [] = (record s { channel = some (record ch { incoming = [] }) }, none)
  next_from s ch (data_msg d ∷ rest) =
      (record s { channel = some (record ch { incoming = rest }) }, some (input d))
  next_from s ch (window_change w h pw ph ∷ rest) =
      let size : PtySize = record { width = w; height = h; pixel_width = pw; pixel_height = ph } in
      (
        record s { channel = some (record ch { incoming = rest }); pty = set_size size s.pty },
        some (resize size),
      )
  next_from s ch (signal_msg n ∷ rest) =
      (record s { channel = some (record ch { incoming = rest }) }, some (signal n))
  next_from s ch (eof_msg ∷ rest) =
      (record s { channel = some (record ch { incoming = rest }) }, some eof)
  next_from s ch (protocol_message ∷ rest) = next_from s ch rest

  unfoldable pub next : Session P V → Session P V × Option Event
  unfolding next_from
  next s = elim s.channel [ none ↦ (s, none) | some ch ↦ next_from s ch ch.incoming ]

  -- The number of messages that are still to come.
  abbrev pub waiting : Session P V → ℕ
  waiting s = length (incoming_on s.channel)

  -- What the loop of `input` does with an event.
  pub input_after :
      (Session P V → Option (Session P V × Option (List ℕ)))
      → Session P V × Option Event
      → Option (Session P V × Option (List ℕ))
  input_after again (s, none) = some (s, none)
  input_after again (s, some (input d)) = some (s, some d)
  input_after again (s, some eof) = some (s, none)
  input_after again (s, some (resize size)) = again s
  input_after again (s, some (signal name)) = again s

  -- The loop of `input`, on fuel; none where the fuel runs out.
  pub input_loop : ℕ → Session P V → Option (Session P V × Option (List ℕ))
  unfolding input_after
  input_loop ℕ.zero s = none
  input_loop (suc fuel) s = input_after (input_loop fuel) (next s)

  pub input_of : Session P V → Option (Session P V × Option (List ℕ))
  input_of s = input_loop (suc (waiting s)) s

  -- `Session::pty_size`, `Session::term`, `Session::is_interactive`
  unfoldable pub pty_size : Session P V → Option PtySize
  pty_size s = elim s.pty [ none ↦ none | some (term, size) ↦ some size ]

  unfoldable pub term : Session P V → Option Text
  term s = elim s.pty [ none ↦ none | some (t, size) ↦ some t ]

  unfoldable pub is_interactive : Session P V → Bool
  is_interactive s = is_some s.pty || is_shell s.kind

  unfoldable pub raw_command : Session P V → Option Text
  raw_command s = elim s.kind [ exec c ↦ some c | _ ↦ none ]

  unfoldable pub subsystem_name : Session P V → Option Text
  subsystem_name s = elim s.kind [ subsystem n ↦ some n | _ ↦ none ]

  -- `Session::command`; `split` is `shell_words::split(...).ok()`.
  unfoldable pub command : (Text → Option (List Text)) → Session P V → Option (List Text)
  command split s = elim s.kind [ exec c ↦ split c | _ ↦ none ]

  -- One message on the session's channel, which a session may have lost.
  unfoldable pub send_on : Outgoing → Session P V → Session P V × Result Error (Unit {0})
  send_on m s = elim s.channel [
    | none ↦ (s, err (protocol channel_unavailable))
    | some ch ↦ let (ch', r) = send m ch in (record s { channel = some ch' }, r)
  ]

  unfoldable pub write : List ℕ → Session P V → Session P V × Result Error (Unit {0})
  write bytes s = send_on (data_out bytes) s

  unfoldable pub write_str : Text → Session P V → Session P V × Result Error (Unit {0})
  write_str t s = write (as_bytes t) s

  pub write_stderr : List ℕ → Session P V → Session P V × Result Error (Unit {0})
  write_stderr bytes s = send_on (extended_data 1 bytes) s

  unfoldable pub write_stderr_str : Text → Session P V → Session P V × Result Error (Unit {0})
  write_stderr_str t s = write_stderr (as_bytes t) s

  unfoldable pub take_channel : Session P V → Session P V × Option Channel
  take_channel s = (record s { channel = none }, s.channel)

  unfoldable pub finish : ℕ → Session P V → Session P V × Result Error (Unit {0})
  unfolding close_down
  finish n s = if s.exited then (s, ok tt) else elim s.channel [
    | none ↦ (s, ok tt)
    | some ch ↦
        let (ch', r) = close_down n ch in (record s { exited = true; channel = some ch' }, r)
  ]

  pub abort : ℕ → Session P V → Session P V × Result Error (Unit {0})
  abort n s = finish n s
