-- ===== src/Session/Conversation.antt =====
-- src/session/core.rs on a channel that takes every message, as the loop of an application uses it.
use shenron.Common.{
  ℕ, suc, ◌<◌, length, arith, ◌≡◌, refl, sym, ap, subst, false, Option, none, some, List, [], ◌∷◌,
  ◌++◌, Text,
}
use shenron.Error.{Error, Result, ok}
use shenron.Channel.{
  Channel, ChannelMsg, data_msg, window_change, signal_msg, eof_msg, protocol_message, Outgoing,
  data_out, extended_data, send,
}
use shenron.Session
use shenron.Session.{incoming_on, next_from, next, Session, Event, input, resize, signal, eof}
use shenron.Utf8.{as_bytes}

-- A channel with these messages to come and these sent, that takes every message.
abbrev pub StandsOn : List ChannelMsg → List Outgoing → Option Channel → Type 0
StandsOn ms sent none = ⊥
StandsOn ms sent (some ch) =
    (ch.incoming ≡ ms) × (ch.sent ≡ sent) × ((n : ℕ) → ch.refuses n ≡ false)

-- One turn more than there are messages to come is enough for a loop over them.
pub enough_on :
    (ms : List ChannelMsg) (sent : List Outgoing) (o : Option Channel)
    → StandsOn ms sent o
    → length ms < suc (length (incoming_on o))
enough_on ms sent none h = absurd h
enough_on ms sent (some ch) (f, g, h) = omega (arith, ap length f)

module _ {P V : Type 0} where
  abbrev pub Talks : Text → List ChannelMsg → List Outgoing → Session P V → Type 0
  Talks user ms sent s = StandsOn ms sent s.channel × (s.exited ≡ false) × (s.user ≡ user)

  abbrev pub Wrote :
      Text → List ChannelMsg → List Outgoing → Session P V × Result Error (Unit {0}) → Type 0
  Wrote user ms sent (s, r) = Talks user ms sent s × (r ≡ ok tt)

  send_on-Wrote :
      (user : Text) (ms : List ChannelMsg) (sent : List Outgoing) (m : Outgoing) (s : Session P V)
      (o : Option Channel)
      → s.channel ≡ o
      → StandsOn ms sent o
      → s.exited ≡ false
      → s.user ≡ user
      → Wrote user ms (sent ++ m ∷ []) (Session.send_on m s)
  unfolding Session.send_on send
  send_on-Wrote user ms sent m s none e h x u = absurd h
  send_on-Wrote user ms sent m s (some ch) e (f, g, h) x u =
      rw e (rw (h ch.attempts) (((f, ap (λ xs. xs ++ m ∷ []) g, h), x, u), refl))

  pub write-Wrote :
      (user : Text) (ms : List ChannelMsg) (sent : List Outgoing) (bytes : List ℕ) (s : Session P V)
      → Talks user ms sent s
      → Wrote user ms (sent ++ data_out bytes ∷ []) (Session.write bytes s)
  unfolding Session.write
  write-Wrote user ms sent bytes s (h, x, u) =
      send_on-Wrote user ms sent (data_out bytes) s s.channel refl h x u

  pub write_str-Wrote :
      (user : Text) (ms : List ChannelMsg) (sent : List Outgoing) (t : Text) (s : Session P V)
      → Talks user ms sent s
      → Wrote user ms (sent ++ data_out (as_bytes t) ∷ []) (Session.write_str t s)
  unfolding Session.write_str
  write_str-Wrote user ms sent t s talks = write-Wrote user ms sent (as_bytes t) s talks

  pub write_stderr_str-Wrote :
      (user : Text) (ms : List ChannelMsg) (sent : List Outgoing) (t : Text) (s : Session P V)
      → Talks user ms sent s
      → Wrote user ms (sent ++ extended_data 1 (as_bytes t) ∷ []) (Session.write_stderr_str t s)
  unfolding Session.write_stderr_str Session.write_stderr
  write_stderr_str-Wrote user ms sent t s (h, x, u) =
      send_on-Wrote user ms sent (extended_data 1 (as_bytes t)) s s.channel refl h x u

  -- What one `next` takes of the messages.
  abbrev pub Taken : Text → List ChannelMsg → List Outgoing → Session P V × Option Event → Type 0
  Taken user [] sent (s, e) = Talks user [] sent s × (e ≡ none)
  Taken user (data_msg d ∷ ms) sent (s, e) = Talks user ms sent s × (e ≡ some (input d))
  Taken user (window_change w h pw ph ∷ ms) sent (s, e) =
      Talks user ms sent s
      × (e ≡ some (resize (record { width = w; height = h; pixel_width = pw; pixel_height = ph })))
  Taken user (signal_msg name ∷ ms) sent (s, e) = Talks user ms sent s × (e ≡ some (signal name))
  Taken user (eof_msg ∷ ms) sent (s, e) = Talks user ms sent s × (e ≡ some eof)
  Taken user (protocol_message ∷ ms) sent out = Taken user ms sent out

  next_from-Taken :
      (user : Text) (ms : List ChannelMsg) (sent : List Outgoing) (s : Session P V) (ch : Channel)
      → ch.sent ≡ sent
      → ((n : ℕ) → ch.refuses n ≡ false)
      → s.exited ≡ false
      → s.user ≡ user
      → Taken user ms sent (next_from s ch ms)
  unfolding next_from
  next_from-Taken user [] sent s ch g h x u = (((refl, g, h), x, u), refl)
  next_from-Taken user (data_msg d ∷ ms) sent s ch g h x u = (((refl, g, h), x, u), refl)
  next_from-Taken user (window_change w v pw pv ∷ ms) sent s ch g h x u =
      (((refl, g, h), x, u), refl)
  next_from-Taken user (signal_msg name ∷ ms) sent s ch g h x u = (((refl, g, h), x, u), refl)
  next_from-Taken user (eof_msg ∷ ms) sent s ch g h x u = (((refl, g, h), x, u), refl)
  next_from-Taken user (protocol_message ∷ ms) sent s ch g h x u =
      next_from-Taken user ms sent s ch g h x u

  next_on-Taken :
      (user : Text) (ms : List ChannelMsg) (sent : List Outgoing) (s : Session P V)
      (o : Option Channel)
      → s.channel ≡ o
      → StandsOn ms sent o
      → s.exited ≡ false
      → s.user ≡ user
      → Taken user ms sent (next s)
  unfolding next
  next_on-Taken user ms sent s none e h x u = absurd h
  next_on-Taken user ms sent s (some ch) e (f, g, h) x u = rw e (
      subst (λ l. Taken user ms sent (next_from s ch l)) (sym f)
        (next_from-Taken user ms sent s ch g h x u))

  pub next-Taken :
      (user : Text) (ms : List ChannelMsg) (sent : List Outgoing) (s : Session P V)
      → Talks user ms sent s
      → Taken user ms sent (next s)
  next-Taken user ms sent s (h, x, u) = next_on-Taken user ms sent s s.channel refl h x u
