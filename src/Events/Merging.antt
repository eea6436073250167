-- ===== src/Events/Merging.antt =====
-- src/events/core.rs: the events of a session and the messages of an application, in one stream.
pub mod Order
pub mod Ending
use shenron.Common.{
  ℕ, suc, ◌≡◌, refl, sym, ◌∙◌, ap, Bool, true, false, Option, none, some, List, [], ◌∷◌, ◌++◌,
  append-nil, append_assoc, map, Text,
}
use shenron.Error.{Error, Result}
use shenron.Channel.{
  Channel, ChannelMsg, data_msg, window_change, signal_msg, eof_msg, protocol_message,
}
use shenron.Session
use shenron.Session.{Session, incoming_on}
use shenron.Events.{Event, app, input, resize, signal, eof, from_session}

-- The messages pushed through any of the senders wait in the order they were pushed. `turns` counts
-- the calls of `next`, and `client_first n` says whether the client is ready first in the n-th.
pub record Events (P V M : Type 0) : Type 0 where
  pub session : Session P V
  pub receiver : List M
  pub turns : ℕ
  pub client_first : ℕ → Bool

module _ {M : Type 0} where
  abbrev converted : Option Session.Event → Option (Event M)
  converted none = none
  converted (some event) = some (from_session event)

module _ {P V M : Type 0} where
  -- `Session::events`
  unfoldable pub new : (ℕ → Bool) → Session P V → Events P V M
  new client_first session = record {
    session = session;
    receiver = [];
    turns = 0;
    client_first = client_first;
  }

  -- `UnboundedSender::send`, on the sender that `Events::sender` gives.
  unfoldable pub push : M → Events P V M → Events P V M
  push m events = record events { receiver = events.receiver ++ m ∷ [] }

  abbrev from_client :
      Events P V M → Session P V × Option Session.Event → Events P V M × Option (Event M)
  from_client events (session, event) = (record events { session = session }, converted event)

  -- The two branches of `select!`, by the branch that is ready first. No message is waiting where
  -- the second one never is; a sender is held, so the channel does not close.
  abbrev selected : Bool → List M → Events P V M → Events P V M × Option (Event M)
  selected true receiver events = from_client events (Session.next events.session)
  selected false [] events = from_client events (Session.next events.session)
  selected false (m ∷ ms) events = (record events { receiver = ms }, some (app m))

  unfoldable pub next : Events P V M → Events P V M × Option (Event M)
  next events =
      selected (events.client_first events.turns) events.receiver
        (record events { turns = suc events.turns })

  abbrev pub written :
      Events P V M → Session P V × Result Error (Unit {0}) → Events P V M × Result Error (Unit {0})
  written events (session, r) = (record events { session = session }, r)

  unfoldable pub write : List ℕ → Events P V M → Events P V M × Result Error (Unit {0})
  write bytes events = written events (Session.write bytes events.session)

  pub write_str : Text → Events P V M → Events P V M × Result Error (Unit {0})
  write_str t events = written events (Session.write_str t events.session)

-- What may happen to a stream: a message is pushed, or the next event is awaited.
pub data Turn (M : Type 0) : Type 0 where
  pushes : M → Turn M
  awaits : Turn M

module _ {M : Type 0} where
  abbrev pub pushed : List (Turn M) → List M
  pushed [] = []
  pushed (pushes m ∷ turns) = m ∷ pushed turns
  pushed (awaits ∷ turns) = pushed turns

  -- The messages among the events, and the events among them that came from the client.
  abbrev pub messages : List (Event M) → List M
  messages [] = []
  messages (app m ∷ es) = m ∷ messages es
  messages (input d ∷ es) = messages es
  messages (resize size ∷ es) = messages es
  messages (signal name ∷ es) = messages es
  messages (eof ∷ es) = messages es

  abbrev pub client_events : List (Event M) → List (Event M)
  client_events [] = []
  client_events (app m ∷ es) = client_events es
  client_events (input d ∷ es) = input d ∷ client_events es
  client_events (resize size ∷ es) = resize size ∷ client_events es
  client_events (signal name ∷ es) = signal name ∷ client_events es
  client_events (eof ∷ es) = eof ∷ client_events es

  abbrev one : Option (Event M) → List (Event M) → List (Event M)
  one none es = es
  one (some e) es = e ∷ es

module _ {P V M : Type 0} where
  abbrev after_event :
      (Events P V M → Events P V M × List (Event M))
      → Events P V M × Option (Event M)
      → Events P V M × List (Event M)
  after_event rest (events, e) = let (last, es) = rest events in (last, one e es)

  -- The events that a loop gets over a sequence of turns.
  unfoldable pub run : List (Turn M) → Events P V M → Events P V M × List (Event M)
  unfolding push next
  run [] events = (events, [])
  run (pushes m ∷ turns) events = run turns (push m events)
  run (awaits ∷ turns) events = after_event (run turns) (next events)
