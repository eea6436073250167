-- ===== src/Session/Inputs.antt =====
-- src/session/core.rs: `input` on a channel that takes every message.
use shenron.Common.{
  ℕ, zero, suc, ◌<◌, ◌≡◌, refl, sym, subst, Option, none, some, List, [], ◌∷◌, length, Text, arith,
}
use shenron.Channel.{
  ChannelMsg, data_msg, window_change, signal_msg, eof_msg, protocol_message, Outgoing,
}
use shenron.Session.{Session, Event, next, input_of, input_loop, input_after, waiting}
use shenron.Session.Conversation.{Talks, Taken, enough_on, next-Taken}

module _ {P V : Type 0} where
  -- What one `input` takes of the messages.
  abbrev pub Read :
      Text → List ChannelMsg → List Outgoing → Option (Session P V × Option (List ℕ)) → Type 0
  Read user ms sent none = ⊥
  Read user [] sent (some (s, d)) = Talks user [] sent s × (d ≡ none)
  Read user (data_msg d ∷ ms) sent (some (s, e)) = Talks user ms sent s × (e ≡ some d)
  Read user (eof_msg ∷ ms) sent (some (s, d)) = Talks user ms sent s × (d ≡ none)
  Read user (window_change w h pw ph ∷ ms) sent (some out) = Read user ms sent (some out)
  Read user (signal_msg name ∷ ms) sent (some out) = Read user ms sent (some out)
  Read user (protocol_message ∷ ms) sent (some out) = Read user ms sent (some out)

  skips-resize :
      (w h pw ph : ℕ) (user : Text) (ms : List ChannelMsg) (sent : List Outgoing)
      (out : Option (Session P V × Option (List ℕ)))
      → Read user ms sent out
      → Read user (window_change w h pw ph ∷ ms) sent out
  skips-resize w h pw ph user ms sent none r = absurd r
  skips-resize w h pw ph user ms sent (some out) r = r

  skips-signal :
      (name : Text) (user : Text) (ms : List ChannelMsg) (sent : List Outgoing)
      (out : Option (Session P V × Option (List ℕ)))
      → Read user ms sent out
      → Read user (signal_msg name ∷ ms) sent out
  skips-signal name user ms sent none r = absurd r
  skips-signal name user ms sent (some out) r = r

  skips-protocol :
      (user : Text) (ms : List ChannelMsg) (sent : List Outgoing)
      (out : Option (Session P V × Option (List ℕ)))
      → Read user ms sent out
      → Read user (protocol_message ∷ ms) sent out
  skips-protocol user ms sent none r = absurd r
  skips-protocol user ms sent (some out) r = r

  input_after-Read :
      (fuel : ℕ) (user : Text) (ms : List ChannelMsg) (sent : List Outgoing)
      (out : Session P V × Option Event)
      → length ms < suc fuel
      → Taken user ms sent out
      → ((rest : List ChannelMsg) (s : Session P V)
          → length rest < fuel
          → Talks user rest sent s
          → Read user rest sent (input_loop fuel s))
      → Read user ms sent (input_after (input_loop fuel) out)
  unfolding input_after
  input_after-Read fuel user [] sent (s, e) le (talks, x) ih =
      subst (λ e. Read user [] sent (input_after (input_loop fuel) (s, e))) (sym x) (talks, refl)
  input_after-Read fuel user (data_msg d ∷ ms) sent (s, e) le (talks, x) ih =
      subst (λ e. Read user (data_msg d ∷ ms) sent (input_after (input_loop fuel) (s, e))) (sym x)
        (talks, refl)
  input_after-Read fuel user (eof_msg ∷ ms) sent (s, e) le (talks, x) ih =
      subst (λ e. Read user (eof_msg ∷ ms) sent (input_after (input_loop fuel) (s, e))) (sym x)
        (talks, refl)
  input_after-Read fuel user (window_change w h pw ph ∷ ms) sent (s, e) le (talks, x) ih =
      subst
        (λ e. Read user (window_change w h pw ph ∷ ms) sent (input_after (input_loop fuel) (s, e)))
        (sym x)
        (skips-resize w h pw ph user ms sent (input_loop fuel s)
          (ih ms s (omega (arith, le)) talks))
  input_after-Read fuel user (signal_msg name ∷ ms) sent (s, e) le (talks, x) ih =
      subst (λ e. Read user (signal_msg name ∷ ms) sent (input_after (input_loop fuel) (s, e)))
        (sym x)
        (skips-signal name user ms sent (input_loop fuel s) (ih ms s (omega (arith, le)) talks))
  input_after-Read fuel user (protocol_message ∷ ms) sent out le taken ih =
      skips-protocol user ms sent (input_after (input_loop fuel) out)
        (input_after-Read fuel user ms sent out (omega (arith, le)) taken ih)

  input_loop-Read :
      (fuel : ℕ) (user : Text) (ms : List ChannelMsg) (sent : List Outgoing) (s : Session P V)
      → length ms < fuel
      → Talks user ms sent s
      → Read user ms sent (input_loop fuel s)
  unfolding input_loop
  input_loop-Read zero user ms sent s le talks = absurd (omega (arith, le))
  input_loop-Read (suc fuel) user ms sent s le talks =
      input_after-Read fuel user ms sent (next s) le (next-Taken user ms sent s talks)
        (λ rest s' lt talks'. input_loop-Read fuel user rest sent s' lt talks')

  pub input_of-Read :
      (user : Text) (ms : List ChannelMsg) (sent : List Outgoing) (s : Session P V)
      → Talks user ms sent s
      → Read user ms sent (input_of s)
  unfolding input_of
  input_of-Read user ms sent s talks =
      input_loop-Read (suc (waiting s)) user ms sent s (enough_on ms sent s.channel talks.0) talks
