-- ===== src/Tui/Reading/Delivered.antt =====
-- src/tui/core.rs: what a loop over `Tui::next` on a stream gets.
use shenron.Common.{
  ℕ, zero, suc, ◌<◌, ◌≤◌, ◌≡◌, sym, ◌∙◌, ap, subst, Option, none, some, List, [], ◌∷◌, ◌++◌, map,
  length, arith, Text,
}
use shenron.Channel.{PtySize}
use shenron.Events
use shenron.Events.Merging.Ending.{loop}
use shenron.Tui.Codes.{Input}
use shenron.Tui.Key.{Parse}
use shenron.Tui.Loop
use shenron.Tui.Loop.{Event, from_input, inputs_of, next_from}
use shenron.Tui.Loop.Delivery.{due_events, Takes, next_from-Takes}
use shenron.Tui.Drawing.{Rect, Tui}
use shenron.Tui.Reading.{next_on}
use shenron.Tui.Reading.Merged.{resizes, Agrees, next_on-Agrees}

module _ {M T : Type 0} (parse_from : Parse) (resize_terminal : PtySize → T → T) where
  -- `next` only takes events from the front.
  abbrev pub Shrinks : List (Events.Event M) → Loop.Tui M T × Option (Event M) → Type 0
  Shrinks es (l, e) = length l.events ≤ length es

  pub next_from-Shrinks :
      (es : List (Events.Event M)) (is : List Input) (t : T)
      → Shrinks es (next_from parse_from resize_terminal es is t)
  unfolding next_from
  next_from-Shrinks [] [] t = omega arith
  next_from-Shrinks [] (i ∷ is) t = omega arith
  next_from-Shrinks (e ∷ es) (i ∷ is) t = omega arith
  next_from-Shrinks (Events.input bytes ∷ es) [] t =
      omega (arith, next_from-Shrinks es (inputs_of parse_from bytes) t)
  next_from-Shrinks (Events.resize size ∷ es) [] t = omega arith
  next_from-Shrinks (Events.signal name ∷ es) [] t = omega (arith, next_from-Shrinks es [] t)
  next_from-Shrinks (Events.app m ∷ es) [] t = omega arith
  next_from-Shrinks (Events.eof ∷ es) [] t = omega arith

module _ {M T : Type 0} (parse_from : Parse) (message : Text) (resize_terminal : Rect → T → T) where
  -- What is to be delivered where the stream gives these events.
  abbrev pub due : List Input → List (Events.Event M) → List (Event M)
  due is es = map from_input is ++ due_events parse_from (resizes message resize_terminal) es

module _ {P V M T : Type 0} (parse_from : Parse) (message : Text)
    (resize_terminal : Rect → T → T) where
  abbrev delivered :
      (Tui P V M T → Option (List (Event M)))
      → Option (Tui P V M T × Option (Event M))
      → Option (List (Event M))
  delivered rest none = none
  delivered rest (some (tui, none)) = some []
  delivered rest (some (tui, some e)) = elim (rest tui) [ none ↦ none | some es ↦ some (e ∷ es) ]

  -- `while let Some(event) = tui.next().await`, with fuel for the turns and for each `next`.
  pub drain : ℕ → ℕ → Tui P V M T → Option (List (Event M))
  drain zero fuel tui = none
  drain (suc n) fuel tui =
      delivered (drain n fuel) (next_on parse_from message resize_terminal fuel tui)

  delivered-due :
      (n fuel : ℕ) (es : List (Events.Event M)) (before : List (Event M))
      (step : Loop.Tui M T × Option (Event M)) (out : Option (Tui P V M T × Option (Event M)))
      → Takes parse_from (resizes message resize_terminal) before step
      → Agrees step out
      → Shrinks parse_from (resizes message resize_terminal) es step
      → length es < fuel
      → length before < suc n
      → ((next : Tui P V M T) (m : ℕ) (rest : List (Events.Event M))
          → loop m next.events ≡ some rest
          → length rest < fuel
          → length (due parse_from message resize_terminal next.pending rest) < n
          → drain n fuel next ≡ some (due parse_from message resize_terminal next.pending rest))
      → delivered (drain n fuel) out ≡ some before
  delivered-due n fuel es before (l, e) none h a s le lt ih = absurd a
  delivered-due n fuel es before (l, none) (some (tui, none)) h a s le lt ih = ap some (sym h)
  delivered-due n fuel es before (l, none) (some (tui, some y)) h (e, a) s le lt ih =
      absurd (ground (arith, e))
  delivered-due n fuel es before (l, some x) (some (tui, none)) h (e, a) s le lt ih =
      absurd (ground (arith, e))
  delivered-due n fuel es before (l, some x) (some (tui, some y)) h (e, (p, (t, (m, k)))) s le lt
        ih =
      let taken =
        subst (λ is. before ≡ x ∷ due parse_from message resize_terminal is l.events) p h in
      ap (λ r. elim r as (λ x. Option (List (Event M))) [ none ↦ none | some es ↦ some (y ∷ es) ])
        (ih tui m l.events k (omega (arith, s, le)) (omega (arith, ap length taken, lt)))
      ∙ ap
          (λ o. elim o as (λ x. Option (List (Event M))) [
            | none ↦ some []
            | some z ↦ some (z ∷ due parse_from message resize_terminal tui.pending l.events)
          ])
          (sym e)
      ∙ ap some (sym taken)

  -- A loop over `next` on a stream gets every key and paste that was pending, and then those of
  -- every packet that the stream gives, once and in order, with the resizes, the messages of the
  -- application and the end of the input between them, and then ends. One turn more than there are
  -- events to deliver is enough, and in each `next` one more than the stream gives.
  pub drain-due_of_stream :
      (n fuel k : ℕ) (tui : Tui P V M T) (es : List (Events.Event M))
      → loop k tui.events ≡ some es
      → length es < fuel
      → length (due parse_from message resize_terminal tui.pending es) < n
      → drain n fuel tui ≡ some (due parse_from message resize_terminal tui.pending es)
  unfolding drain
  drain-due_of_stream zero fuel k tui es h le lt = absurd (omega arith)
  drain-due_of_stream (suc n) fuel k tui es h le lt =
      delivered-due n fuel es (due parse_from message resize_terminal tui.pending es)
        (next_from parse_from (resizes message resize_terminal) es tui.pending tui.terminal)
        (next_on parse_from message resize_terminal fuel tui)
        (next_from-Takes parse_from (resizes message resize_terminal) es tui.pending tui.terminal)
        (next_on-Agrees parse_from message resize_terminal fuel k tui es h le)
        (next_from-Shrinks parse_from (resizes message resize_terminal) es tui.pending tui.terminal)
        le lt (λ next m rest e lf ld. drain-due_of_stream n fuel m next rest e lf ld)
