-- ===== src/Tui/Reading/Merged.antt =====
-- src/tui/core.rs: the loop over `Tui::next` on a stream is the one on the list of its events.
use shenron.Common.{
  ℕ, zero, suc, ◌<◌, ◌≡◌, refl, sym, ap, subst, Option, none, some, List, [], ◌∷◌, length, arith,
  Text,
}
use shenron.Channel.{PtySize}
use shenron.Events
use shenron.Events.Merging
use shenron.Events.Merging.{Events}
use shenron.Events.Merging.Ending.{loop, collected}
use shenron.Tui.Codes.{Input}
use shenron.Tui.Key.{Parse}
use shenron.Tui.Loop
use shenron.Tui.Loop.{Event, resize, app, eof, from_input, inputs_of, next_from}
use shenron.Tui.Drawing.{Rect, rect_of, Tui}
use shenron.Tui.Reading.{resized_to, handled, received, turn, next_on}

abbrev list_or : {A : Type 0} → List A → Option (List A) → List A
list_or es none = es
list_or es (some x) = x

module _ {P V M : Type 0} where
  -- What a step of the loop over the stream says of the events that it gives.
  abbrev Steps : ℕ → List (Events.Event M) → Events P V M × Option (Events.Event M) → Type 0
  Steps n es (events, none) = es ≡ []
  Steps n es (events, some e) =
      (rest : List (Events.Event M)) × ((es ≡ e ∷ rest) × (loop n events ≡ some rest))

  more-Steps :
      (n : ℕ) (es : List (Events.Event M)) (events : Events P V M) (e : Events.Event M)
      (rest : Option (List (Events.Event M)))
      → loop n events ≡ rest
      → (elim rest as (λ x. Option (List (Events.Event M))) [ none ↦ none | some l ↦ some (e ∷ l) ])
        ≡ some es
      → Steps n es (events, some e)
  more-Steps n es events e none h k = absurd (ground (arith, k))
  more-Steps n es events e (some rest) h k = (rest, (sym (ap (list_or es) k), h))

  collected-Steps :
      (n : ℕ) (es : List (Events.Event M)) (out : Events P V M × Option (Events.Event M))
      → collected (loop n) out ≡ some es
      → Steps n es out
  collected-Steps n es (events, none) h = sym (ap (list_or es) h)
  collected-Steps n es (events, some e) h = more-Steps n es events e (loop n events) refl h

  loop-Steps :
      (n : ℕ) (es : List (Events.Event M)) (events : Events P V M)
      → loop n events ≡ some es
      → (m : ℕ) × Steps m es (Merging.next events)
  unfolding loop
  loop-Steps zero es events h = absurd (ground (arith, h))
  loop-Steps (suc n) es events h = (n, collected-Steps n es (Merging.next events) h)

-- The resize of the terminal, on the size that the client sends.
abbrev pub resizes : {T : Type 0} → Text → (Rect → T → T) → PtySize → T → T
resizes message resize_terminal size t = resized_to resize_terminal (rect_of message size) t

module _ {P V M : Type 0} where
  -- The list has what the stream is still to give; after the end nothing is left.
  abbrev pub Gives : List (Events.Event M) → Events P V M → Option (Event M) → Type 0
  Gives es events none = es ≡ []
  Gives es events (some e) = (n : ℕ) × (loop n events ≡ some es)

module _ {P V M T : Type 0} where
  -- The two loops give the same event and are left in the same state.
  abbrev pub Agrees :
      Loop.Tui M T × Option (Event M) → Option (Tui P V M T × Option (Event M)) → Type 0
  Agrees (l, e) none = ⊥
  Agrees (l, e) (some (tui, e')) =
      (e ≡ e')
      × ((l.pending ≡ tui.pending) × ((l.terminal ≡ tui.terminal) × Gives l.events tui.events e'))

module _ {P V M T : Type 0} (parse_from : Parse) (message : Text)
    (resize_terminal : Rect → T → T) where
  abbrev on_list : List (Events.Event M) → Tui P V M T → Loop.Tui M T × Option (Event M)
  on_list es tui =
      next_from parse_from (resizes message resize_terminal) es tui.pending tui.terminal

  abbrev after : ℕ → Tui P V M T → Option (Tui P V M T × Option (Event M))
  after fuel tui = next_on parse_from message resize_terminal fuel tui

  handled-Agrees :
      (fuel n : ℕ) (e : Events.Event M) (rest : List (Events.Event M)) (tui : Tui P V M T)
      → tui.pending ≡ []
      → loop n tui.events ≡ some rest
      → ((next : Tui P V M T)
          → loop n next.events ≡ some rest
          → Agrees (on_list rest next) (after fuel next))
      → Agrees
          (next_from parse_from (resizes message resize_terminal) (e ∷ rest) [] tui.terminal)
          (handled parse_from message resize_terminal (after fuel) e tui)
  unfolding next_from
  handled-Agrees fuel n (Events.input bytes) rest tui p h ih =
      ih (record tui { pending = inputs_of parse_from bytes }) h
  handled-Agrees fuel n (Events.resize size) rest tui p h ih = (refl, (sym p, (refl, (n, h))))
  handled-Agrees fuel n (Events.signal name) rest tui p h ih =
      subst
        (λ is.
          Agrees (next_from parse_from (resizes message resize_terminal) rest is tui.terminal)
            (after fuel tui))
        p (ih tui h)
  handled-Agrees fuel n (Events.app m) rest tui p h ih = (refl, (sym p, (refl, (n, h))))
  handled-Agrees fuel n Events.eof rest tui p h ih = (refl, (sym p, (refl, (n, h))))

  received-Agrees :
      (fuel n : ℕ) (es : List (Events.Event M)) (tui : Tui P V M T)
      (out : Events P V M × Option (Events.Event M))
      → tui.pending ≡ []
      → Steps n es out
      → length es < suc fuel
      → ((next : Tui P V M T) (m : ℕ) (rest : List (Events.Event M))
          → loop m next.events ≡ some rest
          → length rest < fuel
          → Agrees (on_list rest next) (after fuel next))
      → Agrees
          (next_from parse_from (resizes message resize_terminal) es [] tui.terminal)
          (received parse_from message resize_terminal (after fuel) tui out)
  unfolding next_from
  received-Agrees fuel n es tui (events, none) p h le ih =
      subst
        (λ l.
          Agrees (next_from parse_from (resizes message resize_terminal) l [] tui.terminal)
            (some (record tui { events = events }, none)))
        (sym h) (refl, (sym p, (refl, refl)))
  received-Agrees fuel n es tui (events, some e) p (rest, (h, k)) le ih =
      subst
        (λ l. Agrees (next_from parse_from (resizes message resize_terminal) l [] tui.terminal) (
          handled parse_from message resize_terminal (after fuel) e
            (record tui { events = events })))
        (sym h)
        (handled-Agrees fuel n e rest (record tui { events = events }) p k
          (λ next f. ih next n rest f (omega (arith, ap length h, le))))

  turn-Agrees :
      (fuel n : ℕ) (es : List (Events.Event M)) (is : List Input) (tui : Tui P V M T)
      → tui.pending ≡ is
      → loop n tui.events ≡ some es
      → length es < suc fuel
      → ((next : Tui P V M T) (m : ℕ) (rest : List (Events.Event M))
          → loop m next.events ≡ some rest
          → length rest < fuel
          → Agrees (on_list rest next) (after fuel next))
      → Agrees
          (next_from parse_from (resizes message resize_terminal) es is tui.terminal)
          (turn parse_from message resize_terminal (after fuel) is tui)
  unfolding next_from
  turn-Agrees fuel n es [] tui p h le ih =
      let (m, k) = loop-Steps n es tui.events h in
      received-Agrees fuel m es tui (Merging.next tui.events) p k le ih
  turn-Agrees fuel n [] (i ∷ is) tui p h le ih = (refl, (refl, (refl, (n, h))))
  turn-Agrees fuel n (e ∷ es) (i ∷ is) tui p h le ih = (refl, (refl, (refl, (n, h))))

  -- `next` on the stream is `next` on the list of the events that a loop over the stream gets: it
  -- gives the same event and leaves the same inputs, terminal and events; one turn more than there
  -- are events is enough.
  pub next_on-Agrees :
      (fuel n : ℕ) (tui : Tui P V M T) (es : List (Events.Event M))
      → loop n tui.events ≡ some es
      → length es < fuel
      → Agrees (on_list es tui) (next_on parse_from message resize_terminal fuel tui)
  unfolding next_on
  next_on-Agrees zero n tui es h le = absurd (omega arith)
  next_on-Agrees (suc fuel) n tui es h le =
      turn-Agrees fuel n es tui.pending tui refl h le
        (λ next m rest k lt. next_on-Agrees fuel m next rest k lt)
