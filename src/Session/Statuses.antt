-- ===== src/Session/Statuses.antt =====
-- src/session/core.rs: how often a session reports its exit status.
use shenron.Common.{
  ℕ, suc, ◌+◌, ◌≤◌, Bool, true, false, Option, none, some, List, [], ◌∷◌, ◌++◌, ◌≡◌, refl, arith,
  Option-cases, inl, inr,
}
use shenron.Channel.{
  Channel, ChannelMsg, data_msg, window_change, signal_msg, eof_msg, protocol_message, Outgoing,
  data_out, extended_data, exit_status, eof_out, close_out, send,
}
use shenron.Session.{
  Session, next, next_from, write, write_stderr, send_on, take_channel, finish, abort, close_down,
}

-- What a handler, and the server after it, may do with a session.
pub data Use : Type 0 where
  reads : Use
  writes writes_stderr : List ℕ → Use
  takes_channel : Use
  aborts finishes : ℕ → Use

module _ {P V : Type 0} where
  pub use_session : Use → Session P V → Session P V
  use_session reads s = (next s).0
  use_session (writes bytes) s = (write bytes s).0
  use_session (writes_stderr bytes) s = (write_stderr bytes s).0
  use_session takes_channel s = (take_channel s).0
  use_session (aborts n) s = (abort n s).0
  use_session (finishes n) s = (finish n s).0

  pub use_all : List Use → Session P V → Session P V
  use_all [] s = s
  use_all (u ∷ uses) s = use_all uses (use_session u s)

abbrev pub statuses : List Outgoing → ℕ
statuses [] = 0
statuses (exit_status n ∷ ms) = suc (statuses ms)
statuses (data_out b ∷ ms) = statuses ms
statuses (extended_data k b ∷ ms) = statuses ms
statuses (eof_out ∷ ms) = statuses ms
statuses (close_out ∷ ms) = statuses ms

statuses-append : (xs ys : List Outgoing) → statuses (xs ++ ys) ≡ statuses xs + statuses ys
statuses-append [] ys = omega arith
statuses-append (exit_status n ∷ ms) ys = omega (arith, statuses-append ms ys)
statuses-append (data_out b ∷ ms) ys = statuses-append ms ys
statuses-append (extended_data k b ∷ ms) ys = statuses-append ms ys
statuses-append (eof_out ∷ ms) ys = statuses-append ms ys
statuses-append (close_out ∷ ms) ys = statuses-append ms ys

abbrev budget : Bool → ℕ
budget true = 1
budget false = 0

abbrev pub statuses_on : Option Channel → ℕ
statuses_on none = 0
statuses_on (some ch) = statuses ch.sent

send-statuses :
    (m : Outgoing) (ch : Channel)
    → statuses (send m ch).0.sent ≤ statuses ch.sent + statuses (m ∷ [])
unfolding send
send-statuses m ch = ground (arith, statuses-append ch.sent (m ∷ []))

close_down-statuses :
    (n : ℕ) (ch : Channel) → statuses (close_down n ch).0.sent ≤ statuses ch.sent + 1
unfolding close_down
close_down-statuses n ch = ground (
  arith,
  send-statuses (exit_status n) ch,
  send-statuses eof_out (send (exit_status n) ch).0,
  send-statuses close_out (send eof_out (send (exit_status n) ch).0).0,
)

module _ {P V : Type 0} where
  abbrev pub IsSingle : Session P V → Type 0
  IsSingle s = statuses_on s.channel ≤ budget s.exited

  next_from-IsSingle :
      (s : Session P V) (ch : Channel) (ms : List ChannelMsg)
      → statuses ch.sent ≤ budget s.exited
      → IsSingle (next_from s ch ms).0
  unfolding next_from
  next_from-IsSingle s ch [] h = h
  next_from-IsSingle s ch (data_msg d ∷ ms) h = h
  next_from-IsSingle s ch (window_change w v pw pv ∷ ms) h = h
  next_from-IsSingle s ch (signal_msg n ∷ ms) h = h
  next_from-IsSingle s ch (eof_msg ∷ ms) h = h
  next_from-IsSingle s ch (protocol_message ∷ ms) h = next_from-IsSingle s ch ms h

  next-IsSingle : (s : Session P V) → IsSingle s → IsSingle (next s).0
  unfolding next
  next-IsSingle s h = elim (Option-cases s.channel) [
    | inl e ↦ ground arith
    | inr (ch, e) ↦ ground (arith, next_from-IsSingle s ch ch.incoming)
  ]

  send_on-IsSingle :
      (m : Outgoing) (s : Session P V)
      → statuses (m ∷ []) ≡ 0
      → IsSingle s
      → IsSingle (send_on m s).0
  unfolding send_on
  send_on-IsSingle m s z h = elim (Option-cases s.channel) [
    | inl e ↦ ground arith
    | inr (ch, e) ↦ ground (arith, send-statuses m ch)
  ]

  finish-IsSingle : (n : ℕ) (s : Session P V) → IsSingle s → IsSingle (finish n s).0
  unfolding finish
  finish-IsSingle n s h = elim (Option-cases s.channel) [
    | inl e ↦ ground arith
    | inr (ch, e) ↦ ground (arith, close_down-statuses n ch)
  ]

  use_session-IsSingle : (u : Use) (s : Session P V) → IsSingle s → IsSingle (use_session u s)
  unfolding use_session write write_stderr take_channel abort
  use_session-IsSingle reads s h = next-IsSingle s h
  use_session-IsSingle (writes b) s h = send_on-IsSingle (data_out b) s refl h
  use_session-IsSingle (writes_stderr b) s h = send_on-IsSingle (extended_data 1 b) s refl h
  use_session-IsSingle takes_channel s h = omega arith
  use_session-IsSingle (aborts n) s h = finish-IsSingle n s h
  use_session-IsSingle (finishes n) s h = finish-IsSingle n s h

  use_all-IsSingle : (uses : List Use) (s : Session P V) → IsSingle s → IsSingle (use_all uses s)
  unfolding use_all
  use_all-IsSingle [] s h = h
  use_all-IsSingle (u ∷ uses) s h =
      use_all-IsSingle uses (use_session u s) (use_session-IsSingle u s h)

  -- A session whose channel carries no exit status yet sends at most one, whatever its handler
  -- reads, writes, aborts and takes, and however often it is finished.
  pub statuses-use_all :
      (uses : List Use) (s : Session P V)
      → statuses_on s.channel ≡ 0
      → statuses_on (use_all uses s).channel ≤ 1
  statuses-use_all uses s h = ground (arith, use_all-IsSingle uses s (omega arith))
