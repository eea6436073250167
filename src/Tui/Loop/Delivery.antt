-- ===== src/Tui/Loop/Delivery.antt =====
-- src/tui/core.rs: what a loop over `Tui::next` gets.
use shenron.Common.{
  ℕ, zero, suc, ◌<◌, ◌≡◌, refl, sym, ◌∙◌, ap, Option, none, some, List, [], ◌∷◌, ◌++◌, map, length,
  arith,
}
use shenron.Channel.{PtySize}
use shenron.Events
use shenron.Tui.Key.{Parse}
use shenron.Tui.Codes.{Input}
use shenron.Tui.Loop.{Event, resize, app, eof, Tui, from_input, inputs_of, next_from, next}

module _ {M T : Type 0} (parse_from : Parse) (resize_terminal : PtySize → T → T) where
  -- What is to be delivered: every input of every packet, in order, and the other events between
  -- them; signals are left out.
  abbrev pub due_events : List (Events.Event M) → List (Event M)
  due_events [] = []
  due_events (Events.input bytes ∷ es) =
      map from_input (inputs_of parse_from bytes) ++ due_events es
  due_events (Events.resize size ∷ es) = resize size ∷ due_events es
  due_events (Events.signal name ∷ es) = due_events es
  due_events (Events.app m ∷ es) = app m ∷ due_events es
  due_events (Events.eof ∷ es) = eof ∷ due_events es

  abbrev pub due : Tui M T → List (Event M)
  due tui = map from_input tui.pending ++ due_events tui.events

  -- A loop over `next` up to its end, on fuel.
  abbrev delivered :
      (Tui M T → Option (List (Event M))) → Tui M T × Option (Event M) → Option (List (Event M))
  delivered rest (tui, none) = some []
  delivered rest (tui, some e) = elim (rest tui) [ none ↦ none | some es ↦ some (e ∷ es) ]

  pub drain : ℕ → Tui M T → Option (List (Event M))
  drain zero tui = none
  drain (suc fuel) tui = delivered (drain fuel) (next parse_from resize_terminal tui)

  -- What one `next` takes of it.
  abbrev pub Takes : List (Event M) → Tui M T × Option (Event M) → Type 0
  Takes before (tui, none) = before ≡ []
  Takes before (tui, some e) = before ≡ e ∷ due tui

  pub next_from-Takes :
      (es : List (Events.Event M)) (is : List Input) (t : T)
      → Takes (map from_input is ++ due_events es) (next_from parse_from resize_terminal es is t)
  unfolding next_from
  next_from-Takes [] [] t = refl
  next_from-Takes [] (i ∷ is) t = refl
  next_from-Takes (e ∷ es) (i ∷ is) t = refl
  next_from-Takes (Events.input bytes ∷ es) [] t = next_from-Takes es (inputs_of parse_from bytes) t
  next_from-Takes (Events.resize size ∷ es) [] t = refl
  next_from-Takes (Events.signal name ∷ es) [] t = next_from-Takes es [] t
  next_from-Takes (Events.app m ∷ es) [] t = refl
  next_from-Takes (Events.eof ∷ es) [] t = refl

  delivered-due :
      (fuel : ℕ) (before : List (Event M)) (out : Tui M T × Option (Event M))
      → Takes before out
      → length before < suc fuel
      → ((tui : Tui M T) → length (due tui) < fuel → drain fuel tui ≡ some (due tui))
      → delivered (drain fuel) out ≡ some before
  delivered-due fuel before (tui, none) h le ih = ap some (sym h)
  delivered-due fuel before (tui, some e) h le ih =
      ap (λ r. elim r as (λ x. Option (List (Event M))) [ none ↦ none | some es ↦ some (e ∷ es) ])
        (ih tui (omega (arith, ap length h, le)))
      ∙ ap some (sym h)

  -- A loop over `next` gets every key and paste of every packet, once and in order, with the
  -- resizes, the messages of the application and the end of the input between them, and then
  -- ends; one turn more than there are events is enough.
  pub drain-due :
      (fuel : ℕ) (tui : Tui M T) → length (due tui) < fuel → drain fuel tui ≡ some (due tui)
  unfolding drain next
  drain-due zero tui h = absurd (omega arith)
  drain-due (suc fuel) tui h =
      delivered-due fuel (due tui) (next parse_from resize_terminal tui)
        (next_from-Takes tui.events tui.pending tui.terminal) h (drain-due fuel)
