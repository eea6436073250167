-- ===== src/Events/Merging/Order.antt =====
-- src/events/core.rs: the order in which the events and messages of a loop arrive.
use shenron.Common.{
  suc, ◌≡◌, refl, sym, ◌∙◌, ap, subst, Bool, true, false, Option, none, some, List, [], ◌∷◌, ◌++◌,
  append-nil, append_assoc, map,
}
use shenron.Session
use shenron.Session.{Session}
use shenron.Session.Stream.{due_of, Gives, next-Gives}
use shenron.Events.{Event, app, input, resize, signal, eof, from_session}
use shenron.Events.Merging.{
  Events, push, next, selected, from_client, one, Turn, pushes, awaits, pushed, messages,
  client_events, after_event, run,
}

module _ {M : Type 0} where
  messages-from_session :
      (e : Session.Event) (es : List (Event M)) → messages (from_session e ∷ es) ≡ messages es
  unfolding from_session
  messages-from_session (Session.input d) es = refl
  messages-from_session (Session.resize size) es = refl
  messages-from_session (Session.signal name) es = refl
  messages-from_session Session.eof es = refl

  client_events-from_session :
      (e : Session.Event) (es : List (Event M))
      → client_events (from_session e ∷ es) ≡ from_session e ∷ client_events es
  unfolding from_session
  client_events-from_session (Session.input d) es = refl
  client_events-from_session (Session.resize size) es = refl
  client_events-from_session (Session.signal name) es = refl
  client_events-from_session Session.eof es = refl

  pub client_events-cons :
      (e : Event M) (es : List (Event M))
      → client_events (e ∷ es) ≡ client_events (e ∷ []) ++ client_events es
  client_events-cons (app m) es = refl
  client_events-cons (input d) es = refl
  client_events-cons (resize size) es = refl
  client_events-cons (signal name) es = refl
  client_events-cons eof es = refl

  pub messages-cons :
      (e : Event M) (es : List (Event M)) → messages (e ∷ es) ≡ messages (e ∷ []) ++ messages es
  messages-cons (app m) es = refl
  messages-cons (input d) es = refl
  messages-cons (resize size) es = refl
  messages-cons (signal name) es = refl
  messages-cons eof es = refl

module _ {P V M : Type 0} where
  abbrev pub due_events : Events P V M → List (Event M)
  due_events events = map from_session (due_of events.session)

  -- The events that were taken and those that are left are the ones there were, and so it is for
  -- the messages, where `more` come in.
  abbrev pub Balances : List (Event M) → List M → Events P V M × List (Event M) → Type 0
  Balances due waiting (last, es) =
      (client_events es ++ due_events last ≡ due) × (messages es ++ last.receiver ≡ waiting)

  abbrev pub Takes : List (Event M) → List M → Events P V M × Option (Event M) → Type 0
  Takes due waiting (last, e) = Balances due waiting (last, one e [])

  from_client-Takes :
      (events : Events P V M) (before : List Session.Event)
      (out : Session P V × Option Session.Event)
      → Gives before out
      → Takes (map from_session before) events.receiver (from_client events out)
  from_client-Takes events before (s, none) (e, f) = (ap (map from_session) (f ∙ sym e), refl)
  from_client-Takes events before (s, some e) h = (
    ap (λ es. es ++ map from_session (due_of s)) (client_events-from_session e [])
        ∙ ap (map from_session) (sym h),
    ap (λ ms. ms ++ events.receiver) (messages-from_session e []),
  )

  selected-Takes :
      (b : Bool) (receiver : List M) (events : Events P V M)
      → events.receiver ≡ receiver
      → Takes (due_events events) receiver (selected b receiver events)
  selected-Takes true receiver events e =
      subst (λ ms. Takes (due_events events) ms (from_client events (Session.next events.session)))
        e
        (from_client-Takes events (due_of events.session) (Session.next events.session)
          (next-Gives events.session))
  selected-Takes false [] events e =
      subst (λ ms. Takes (due_events events) ms (from_client events (Session.next events.session)))
        e
        (from_client-Takes events (due_of events.session) (Session.next events.session)
          (next-Gives events.session))
  selected-Takes false (m ∷ ms) events e = (refl, refl)

  pub next-Takes : (events : Events P V M) → Takes (due_events events) events.receiver (next events)
  unfolding next
  next-Takes events =
      selected-Takes (events.client_first events.turns) events.receiver
        (record events { turns = suc events.turns }) refl

  after-Balances :
      (turns : List (Turn M)) (due : List (Event M)) (waiting more : List M)
      (out : Events P V M × Option (Event M))
      → Takes due waiting out
      → Balances (due_events out.0) (out.0.receiver ++ more) (run turns out.0)
      → Balances due (waiting ++ more) (after_event (run turns) out)
  after-Balances turns due waiting more (events, none) (e, f) (g, h) =
      (g ∙ e, h ∙ ap (λ ms. ms ++ more) f)
  after-Balances turns due waiting more (events, some x) (e, f) (g, h) =
      let (last, es) = run turns events in
      (
        ap (λ xs. xs ++ due_events last) (client_events-cons x es)
            ∙ append_assoc (client_events (x ∷ [])) (client_events es) (due_events last)
            ∙ ap (λ xs. client_events (x ∷ []) ++ xs) g
            ∙ e,
        ap (λ xs. xs ++ last.receiver) (messages-cons x es)
            ∙ append_assoc (messages (x ∷ [])) (messages es) last.receiver
            ∙ ap (λ xs. messages (x ∷ []) ++ xs) h
            ∙ sym (append_assoc (messages (x ∷ [])) events.receiver more)
            ∙ ap (λ ms. ms ++ more) f,
      )

  -- However the turns fall, a loop over `next` gets the events of the client in their order and the
  -- pushed messages in theirs: what it got and what is left of each are what there was, with the
  -- messages that were pushed on the way. Nothing is lost or given twice.
  pub run-Balances :
      (turns : List (Turn M)) (events : Events P V M)
      → Balances (due_events events) (events.receiver ++ pushed turns) (run turns events)
  unfolding run push
  run-Balances [] events = (refl, sym (append-nil events.receiver))
  run-Balances (pushes m ∷ turns) events =
      subst (λ ms. Balances (due_events events) ms (run turns (push m events)))
        (append_assoc events.receiver (m ∷ []) (pushed turns)) (run-Balances turns (push m events))
  run-Balances (awaits ∷ turns) events =
      after-Balances turns (due_events events) events.receiver (pushed turns) (next events)
        (next-Takes events) (run-Balances turns (next events).0)
