-- ===== src/Events/Merging/Ending.antt =====
-- src/events/core.rs: how a loop over `Events::next` ends.
use shenron.Common.{
  ℕ, zero, suc, ◌+◌, ◌<◌, ◌≡◌, refl, sym, ◌∙◌, ap, Bool, true, false, Option, none, some, List, [],
  ◌∷◌, ◌++◌, append_assoc, map, length, length-append, arith,
}
use shenron.Session
use shenron.Session.{Session}
use shenron.Session.Stream.{due_of, Gives, next-Gives}
use shenron.Events.{Event, app, input, resize, signal, eof, from_session}
use shenron.Events.Merging.{Events, next, selected, from_client, messages, client_events}
use shenron.Events.Merging.Order.{due_events, Takes, next-Takes, client_events-cons, messages-cons}

module _ {M : Type 0} where
  length_of_one : (e : Event M) → length (client_events (e ∷ [])) + length (messages (e ∷ [])) ≡ 1
  length_of_one (app m) = refl
  length_of_one (input d) = refl
  length_of_one (resize size) = refl
  length_of_one (signal name) = refl
  length_of_one eof = refl

  -- What a loop gave: every event of the client, and the first of the messages.
  abbrev pub GaveAll : List (Event M) → List M → Option (List (Event M)) → Type 0
  GaveAll due waiting none = ⊥
  GaveAll due waiting (some es) =
      (client_events es ≡ due) × ((left : List M) × (messages es ++ left ≡ waiting))

  cons-GaveAll :
      (e : Event M) (due due' : List (Event M)) (waiting waiting' : List M)
      (rest : Option (List (Event M)))
      → client_events (e ∷ []) ++ due' ≡ due
      → messages (e ∷ []) ++ waiting' ≡ waiting
      → GaveAll due' waiting' rest
      → GaveAll due waiting (elim rest [ none ↦ none | some es ↦ some (e ∷ es) ])
  cons-GaveAll e due due' waiting waiting' none h k g = g
  cons-GaveAll e due due' waiting waiting' (some es) h k (g, (left, f)) = (
    client_events-cons e es ∙ ap (λ xs. client_events (e ∷ []) ++ xs) g ∙ h,
    (
      left,
      ap (λ xs. xs ++ left) (messages-cons e es)
          ∙ append_assoc (messages (e ∷ [])) (messages es) left
          ∙ ap (λ xs. messages (e ∷ []) ++ xs) f
          ∙ k,
    ),
  )

  fewer_due :
      (e : Event M) (due due' : List (Event M)) (waiting waiting' : List M) (fuel : ℕ)
      → client_events (e ∷ []) ++ due' ≡ due
      → messages (e ∷ []) ++ waiting' ≡ waiting
      → length due + length waiting < suc fuel
      → length due' + length waiting' < fuel
  fewer_due e due due' waiting waiting' fuel h k le = omega (
    arith,
    length_of_one e,
    ap length h,
    ap length k,
    le,
    length-append (client_events (e ∷ [])) due',
    length-append (messages (e ∷ [])) waiting',
  )

module _ {P V M : Type 0} where
  abbrev pub collected :
      (Events P V M → Option (List (Event M)))
      → Events P V M × Option (Event M)
      → Option (List (Event M))
  collected rest (events, none) = some []
  collected rest (events, some e) = elim (rest events) [ none ↦ none | some es ↦ some (e ∷ es) ]

  -- `while let Some(event) = events.next().await`, on fuel.
  unfoldable pub loop : ℕ → Events P V M → Option (List (Event M))
  loop zero events = none
  loop (suc fuel) events = collected (loop fuel) (next events)

  abbrev pub due_count : Events P V M → ℕ
  due_count events = length (due_events events) + length events.receiver

  -- The end comes only where the client has nothing more.
  abbrev IsDry : Events P V M × Option (Event M) → Type 0
  IsDry (events, none) = due_events events ≡ []
  IsDry (events, some e) = Unit

  from_client-IsDry :
      (events : Events P V M) (before : List Session.Event)
      (out : Session P V × Option Session.Event)
      → Gives before out
      → IsDry (from_client events out)
  from_client-IsDry events before (s, none) (e, f) = ap (map from_session) f
  from_client-IsDry events before (s, some e) h = tt

  selected-IsDry :
      (b : Bool) (receiver : List M) (events : Events P V M) → IsDry (selected b receiver events)
  selected-IsDry true receiver events =
      from_client-IsDry events (due_of events.session) (Session.next events.session)
        (next-Gives events.session)
  selected-IsDry false [] events =
      from_client-IsDry events (due_of events.session) (Session.next events.session)
        (next-Gives events.session)
  selected-IsDry false (m ∷ ms) events = tt

  collected-GaveAll :
      (fuel : ℕ) (due : List (Event M)) (waiting : List M) (out : Events P V M × Option (Event M))
      → Takes due waiting out
      → IsDry out
      → length due + length waiting < suc fuel
      → ((events : Events P V M)
          → due_count events < fuel
          → GaveAll (due_events events) events.receiver (loop fuel events))
      → GaveAll due waiting (collected (loop fuel) out)
  collected-GaveAll fuel due waiting (events, none) (e, f) dry le ih =
      (sym dry ∙ e, (waiting, refl))
  collected-GaveAll fuel due waiting (events, some x) (e, f) dry le ih =
      cons-GaveAll x due (due_events events) waiting events.receiver (loop fuel events) e f
        (ih events (fewer_due x due (due_events events) waiting events.receiver fuel e f le))

  -- A loop over `next` ends, whichever source comes first in each turn, and by then it got every
  -- event of the client, in order, and messages from the front of those that were waiting; one turn
  -- more than there are events and messages is enough.
  pub loop-GaveAll :
      (fuel : ℕ) (events : Events P V M)
      → due_count events < fuel
      → GaveAll (due_events events) events.receiver (loop fuel events)
  unfolding loop next
  loop-GaveAll zero events le = absurd (omega arith)
  loop-GaveAll (suc fuel) events le =
      collected-GaveAll fuel (due_events events) events.receiver (next events) (next-Takes events)
        (selected-IsDry (events.client_first events.turns) events.receiver
          (record events { turns = suc events.turns }))
        le (loop-GaveAll fuel)
