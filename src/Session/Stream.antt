-- ===== src/Session/Stream.antt =====
-- src/session/core.rs: the events that `Session::next` gives, one after the other.
use shenron.Common.{◌≡◌, refl, Option, none, some, List, [], ◌∷◌}
use shenron.Channel.{
  Channel, ChannelMsg, data_msg, window_change, signal_msg, eof_msg, protocol_message,
}
use shenron.Session.{Session, Event, input, resize, signal, eof, incoming_on, next_from, next}

-- What the client's messages are as events; the others are the protocol's.
abbrev pub due_from : List ChannelMsg → List Event
due_from [] = []
due_from (data_msg d ∷ ms) = input d ∷ due_from ms
due_from (window_change w h pw ph ∷ ms) =
    resize (record { width = w; height = h; pixel_width = pw; pixel_height = ph }) ∷ due_from ms
due_from (signal_msg name ∷ ms) = signal name ∷ due_from ms
due_from (eof_msg ∷ ms) = eof ∷ due_from ms
due_from (protocol_message ∷ ms) = due_from ms

module _ {P V : Type 0} where
  abbrev pub due_of : Session P V → List Event
  due_of s = due_from (incoming_on s.channel)

  abbrev pub Gives : List Event → Session P V × Option Event → Type 0
  Gives before (s, none) = (before ≡ []) × (due_of s ≡ [])
  Gives before (s, some e) = before ≡ e ∷ due_of s

  next_from-Gives :
      (s : Session P V) (ch : Channel) (ms : List ChannelMsg)
      → Gives (due_from ms) (next_from s ch ms)
  unfolding next_from
  next_from-Gives s ch [] = (refl, refl)
  next_from-Gives s ch (data_msg d ∷ ms) = refl
  next_from-Gives s ch (window_change w h pw ph ∷ ms) = refl
  next_from-Gives s ch (signal_msg name ∷ ms) = refl
  next_from-Gives s ch (eof_msg ∷ ms) = refl
  next_from-Gives s ch (protocol_message ∷ ms) = next_from-Gives s ch ms

  next_on-Gives : (s : Session P V) (o : Option Channel) → s.channel ≡ o → Gives (due_of s) (next s)
  unfolding next
  next_on-Gives s none e = rw e (refl, refl)
  next_on-Gives s (some ch) e = rw e (next_from-Gives s ch ch.incoming)

  -- One `next` takes the first event that is due; it gives none only where none is due.
  pub next-Gives : (s : Session P V) → Gives (due_of s) (next s)
  next-Gives s = next_on-Gives s s.channel refl
