-- ===== src/Session/Input.antt =====
-- src/session/core.rs: `input` and `next` against the messages of the channel.
use shenron.Common.{
  ℕ, zero, suc, ◌<◌, Option, none, some, List, [], ◌∷◌, ◌≡◌, refl, arith, length, ap, ◌∙◌, sym,
  Option-cases, inl, inr,
}
use shenron.Channel.{
  Channel, ChannelMsg, data_msg, window_change, signal_msg, eof_msg, protocol_message,
}
use shenron.Session.{
  Session, Event, input, resize, signal, eof, next, next_from, input_of, input_loop, input_after,
  incoming_on, waiting,
}

-- The data of the first message that is data, unless the end of the input comes first.
abbrev pub first_data : List ChannelMsg → Option (List ℕ)
first_data [] = none
first_data (data_msg d ∷ ms) = some d
first_data (eof_msg ∷ ms) = none
first_data (window_change w v pw pv ∷ ms) = first_data ms
first_data (signal_msg n ∷ ms) = first_data ms
first_data (protocol_message ∷ ms) = first_data ms

-- What the event of `next` says of the messages before and after it.
abbrev Explains : Option Event → List ChannelMsg → List ChannelMsg → Type 0
Explains none before after = first_data before ≡ none
Explains (some (input d)) before after = first_data before ≡ some d
Explains (some eof) before after = first_data before ≡ none
Explains (some (resize size)) before after =
    (first_data before ≡ first_data after) × (length after < length before)
Explains (some (signal n)) before after =
    (first_data before ≡ first_data after) × (length after < length before)

Explains-weaken :
    (e : Option Event) (ms after : List ChannelMsg)
    → Explains e ms after
    → Explains e (protocol_message ∷ ms) after
Explains-weaken none ms after h = h
Explains-weaken (some (input d)) ms after h = h
Explains-weaken (some eof) ms after h = h
Explains-weaken (some (resize size)) ms after h = (h.0, omega (arith, h.1))
Explains-weaken (some (signal n)) ms after h = (h.0, omega (arith, h.1))

module _ {P V : Type 0} where
  next_from-Explains :
      (s : Session P V) (ch : Channel) (ms : List ChannelMsg)
      → Explains (next_from s ch ms).1 ms (incoming_on (next_from s ch ms).0.channel)
  unfolding next_from
  next_from-Explains s ch [] = refl
  next_from-Explains s ch (data_msg d ∷ ms) = refl
  next_from-Explains s ch (window_change w v pw pv ∷ ms) = (refl, omega arith)
  next_from-Explains s ch (signal_msg n ∷ ms) = (refl, omega arith)
  next_from-Explains s ch (eof_msg ∷ ms) = refl
  next_from-Explains s ch (protocol_message ∷ ms) =
      Explains-weaken (next_from s ch ms).1 ms (incoming_on (next_from s ch ms).0.channel)
        (next_from-Explains s ch ms)

  next-Explains :
      (s : Session P V)
      → Explains (next s).1 (incoming_on s.channel) (incoming_on (next s).0.channel)
  unfolding next
  next-Explains s = elim (Option-cases s.channel) [
    | inl e ↦ rw (e, next) refl
    | inr (ch, e) ↦ rw (e, next) (rw e (next_from-Explains s ch ch.incoming))
  ]

  -- The loop of `input`, after `next`.
  input_after-first :
      (fuel : ℕ) (before : List ChannelMsg) (out : Session P V × Option Event)
      → Explains out.1 before (incoming_on out.0.channel)
      → length before < suc fuel
      → ((s : Session P V)
          → waiting s < fuel
          → (s' : Session P V) × (input_loop fuel s
              ≡ some (s', first_data (incoming_on s.channel))))
      → (s' : Session P V) × (input_after (input_loop fuel) out ≡ some (s', first_data before))
  unfolding input_after
  input_after-first fuel before (s, none) h le ih = (s, ap (λ d. some (s, d)) (sym h))
  input_after-first fuel before (s, some (input d)) h le ih = (s, ap (λ d. some (s, d)) (sym h))
  input_after-first fuel before (s, some eof) h le ih = (s, ap (λ d. some (s, d)) (sym h))
  input_after-first fuel before (s, some (resize size)) h le ih =
      let (s', e) = ih s (omega (arith, h.1)) in (s', e ∙ ap (λ d. some (s', d)) (sym h.0))
  input_after-first fuel before (s, some (signal n)) h le ih =
      let (s', e) = ih s (omega (arith, h.1)) in (s', e ∙ ap (λ d. some (s', d)) (sym h.0))

  input_loop-first :
      (fuel : ℕ) (s : Session P V)
      → waiting s < fuel
      → (s' : Session P V) × (input_loop fuel s ≡ some (s', first_data (incoming_on s.channel)))
  unfolding input_loop
  input_loop-first zero s h = absurd (omega arith)
  input_loop-first (suc fuel) s h =
      input_after-first fuel (incoming_on s.channel) (next s) (next-Explains s) h
        (input_loop-first fuel)

  -- `input` returns on every session, with the data of the first message that is data, or with
  -- none where the end of the input, or of the channel, comes first.
  pub input_of-first_data :
      (s : Session P V)
      → (s' : Session P V) × (input_of s ≡ some (s', first_data (incoming_on s.channel)))
  unfolding input_of
  input_of-first_data s = input_loop-first (suc (waiting s)) s (omega arith)
