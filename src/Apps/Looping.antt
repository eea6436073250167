-- ===== src/Apps/Looping.antt =====
-- A loop over the events of a session, `while let Some(event) = session.next().await`, whose body
-- writes at most once, and what it sends on a channel that takes every message.
use shenron.Common.{
  ℕ, zero, suc, ◌<◌, ◌≡◌, refl, sym, subst, Option, none, some, List, [], ◌∷◌, ◌++◌, append-nil,
  append_assoc, length, Text, arith,
}
use shenron.Error.{Error, Result, ok}
use shenron.Channel.{
  ChannelMsg, data_msg, window_change, signal_msg, eof_msg, protocol_message, Outgoing, data_out,
}
use shenron.Session
use shenron.Session.{Session, Event, input, resize, signal, eof, waiting, incoming_on, write}
use shenron.Session.Conversation.{Talks, Taken, write-Wrote, next-Taken}
use shenron.Task.{Task, Frame, other_payload, panicked, pure, await, on_session, ◌>>◌}
use shenron.Apps.Saying.{Ends, acts-Done, after_done}

-- What the body of the loop does with an event.
pub data Action : Type 0 where
  goes_on breaks : Action
  writes writes_and_breaks : List ℕ → Action

-- What a loop with this body sends, on the messages of the client.
abbrev pub acted : Action → List Outgoing → List Outgoing
acted goes_on rest = rest
acted breaks rest = []
acted (writes bytes) rest = data_out bytes ∷ rest
acted (writes_and_breaks bytes) rest = data_out bytes ∷ []

abbrev pub transcript : (Event → Action) → List ChannelMsg → List Outgoing
transcript body [] = []
transcript body (data_msg d ∷ ms) = acted (body (input d)) (transcript body ms)
transcript body (window_change w h pw ph ∷ ms) =
    acted (body (resize (record { width = w; height = h; pixel_width = pw; pixel_height = ph })))
      (transcript body ms)
transcript body (signal_msg name ∷ ms) = acted (body (signal name)) (transcript body ms)
transcript body (eof_msg ∷ ms) = acted (body eof) (transcript body ms)
transcript body (protocol_message ∷ ms) = transcript body ms

module _ {P V : Type 0} where
  abbrev pub acts : Task P V (Result Error (Unit {0})) → Action → Task P V (Result Error (Unit {0}))
  acts again goes_on = again
  acts again breaks = pure (ok tt)
  acts again (writes bytes) = on_session (write bytes) >> again
  acts again (writes_and_breaks bytes) = on_session (write bytes) >> pure (ok tt)

  abbrev pub on_event :
      (Event → Action)
      → Task P V (Result Error (Unit {0}))
      → Option Event
      → Task P V (Result Error (Unit {0}))
  on_event body again none = pure (ok tt)
  on_event body again (some event) = acts again (body event)

  -- The loop, on fuel; it would panic where the fuel runs out.
  unfoldable pub event_loop : (Event → Action) → ℕ → Task P V (Result Error (Unit {0}))
  event_loop body zero f = (f, panicked other_payload)
  event_loop body (suc fuel) f =
      await (on_session Session.next) (on_event body (event_loop body fuel)) f

  acts-Ends :
      (a : Action) (k : Task P V (Result Error (Unit {0}))) (user : Text) (ms : List ChannelMsg)
      (sent rest : List Outgoing) (f : Frame P V)
      → Talks user ms sent f.session
      → ((f' : Frame P V) (sent' : List Outgoing)
          → Talks user ms sent' f'.session
          → Ends user (sent' ++ rest) (k f'))
      → Ends user (sent ++ acted a rest) (acts k a f)
  acts-Ends goes_on k user ms sent rest f talks go = go f sent talks
  acts-Ends breaks k user ms sent rest f talks go =
      (refl, (ms, subst (λ xs. Talks user ms xs f.session) (sym (append-nil sent)) talks))
  acts-Ends (writes bytes) k user ms sent rest f talks go =
      after_done (Ends user (sent ++ data_out bytes ∷ rest)) (on_session (write bytes)) k user ms
        (sent ++ data_out bytes ∷ []) f
        (acts-Done (write bytes) user ms (sent ++ data_out bytes ∷ []) f
          (write-Wrote user ms sent bytes f.session talks))
        (λ f' talks'.
          subst (λ xs. Ends user xs (k f')) (append_assoc sent (data_out bytes ∷ []) rest)
            (go f' (sent ++ data_out bytes ∷ []) talks'))
  acts-Ends (writes_and_breaks bytes) k user ms sent rest f talks go =
      after_done (Ends user (sent ++ data_out bytes ∷ [])) (on_session (write bytes)) (pure (ok tt))
        user ms (sent ++ data_out bytes ∷ []) f
        (acts-Done (write bytes) user ms (sent ++ data_out bytes ∷ []) f
          (write-Wrote user ms sent bytes f.session talks))
        (λ f' talks'. (refl, (ms, talks')))

-- What the turns that follow do, while there is fuel for them.
abbrev Goes : (P V : Type 0) → (Event → Action) → ℕ → Text → Type 0
Goes P V body fuel user =
    (ms : List ChannelMsg) (sent : List Outgoing) (f : Frame P V)
    → length ms < fuel
    → Talks user ms sent f.session
    → Ends user (sent ++ transcript body ms) (event_loop body fuel f)

module _ {P V : Type 0} (body : Event → Action) where
  event-Ends :
      (fuel : ℕ) (user : Text) (ms : List ChannelMsg) (sent : List Outgoing) (f : Frame P V)
      (event : Event) (e : Option Event)
      → Goes P V body fuel user
      → length ms < fuel
      → Talks user ms sent f.session
      → e ≡ some event
      → Ends user
          (sent ++ acted (body event) (transcript body ms))
          (on_event body (event_loop body fuel) e f)
  event-Ends fuel user ms sent f event e goes le talks x =
      subst
        (λ e.
          Ends user (sent ++ acted (body event) (transcript body ms))
            (on_event body (event_loop body fuel) e f))
        (sym x)
        (acts-Ends (body event) (event_loop body fuel) user ms sent (transcript body ms) f talks
          (λ f' sent' talks'. goes ms sent' f' le talks'))

  on_event-Ends :
      (fuel : ℕ) (user : Text) (ms : List ChannelMsg) (sent : List Outgoing) (f : Frame P V)
      (e : Option Event)
      → Goes P V body fuel user
      → length ms < suc fuel
      → Taken user ms sent (f.session, e)
      → Ends user (sent ++ transcript body ms) (on_event body (event_loop body fuel) e f)
  on_event-Ends fuel user [] sent f e goes le (talks, x) =
      subst (λ e. Ends user (sent ++ []) (on_event body (event_loop body fuel) e f)) (sym x)
        (refl, ([], subst (λ xs. Talks user [] xs f.session) (sym (append-nil sent)) talks))
  on_event-Ends fuel user (data_msg d ∷ ms) sent f e goes le (talks, x) =
      event-Ends fuel user ms sent f (input d) e goes (omega (arith, le)) talks x
  on_event-Ends fuel user (window_change w h pw ph ∷ ms) sent f e goes le (talks, x) =
      event-Ends fuel user ms sent f
        (resize (record { width = w; height = h; pixel_width = pw; pixel_height = ph })) e goes
        (omega (arith, le)) talks x
  on_event-Ends fuel user (signal_msg name ∷ ms) sent f e goes le (talks, x) =
      event-Ends fuel user ms sent f (signal name) e goes (omega (arith, le)) talks x
  on_event-Ends fuel user (eof_msg ∷ ms) sent f e goes le (talks, x) =
      event-Ends fuel user ms sent f eof e goes (omega (arith, le)) talks x
  on_event-Ends fuel user (protocol_message ∷ ms) sent f e goes le taken =
      on_event-Ends fuel user ms sent f e goes (omega (arith, le)) taken

  -- With one turn more than there are messages, the loop returns, and sent what its body says.
  pub event_loop-Ends : (fuel : ℕ) (user : Text) → Goes P V body fuel user
  unfolding event_loop
  event_loop-Ends zero user ms sent f le talks = absurd (omega (arith, le))
  event_loop-Ends (suc fuel) user ms sent f le talks =
      on_event-Ends fuel user ms sent (record f { session = (Session.next f.session).0 })
        (Session.next f.session).1 (event_loop-Ends fuel user) le
        (next-Taken user ms sent f.session talks)
