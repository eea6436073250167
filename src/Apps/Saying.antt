-- ===== src/Apps/Saying.antt =====
-- What the applications share: text for the client, and the close after they return.
use shenron.Common.{
  ℕ, ◌≡◌, refl, sym, ◌∙◌, ap, subst, false, Option, none, some, List, [], ◌∷◌, ◌++◌, map, Text,
}
use shenron.Error.{Error, Result, ok}
use shenron.Exit.{code, exit_code}
use shenron.Utf8.{as_bytes}
use shenron.Channel.{Channel, ChannelMsg, Outgoing, data_out}
use shenron.Session.{Session, write_str}
use shenron.Session.Conversation.{StandsOn, Talks, Wrote, write_str-Wrote}
use shenron.Session.Finish.{sent_on, closing}
use shenron.Task.{Task, Handler, Frame, Flow, returned, ◌>>◌, on_session, or_return, continue}
use shenron.Server.Channels.{run_task}
use shenron.Server.Channels.Tasks.{run_task-finish}

abbrev pub crlf : Text
crlf = 13 ∷ 10 ∷ []

abbrev pub as_sent : List Text → List Outgoing
as_sent = map (λ t. data_out (as_bytes t))

module _ {P V : Type 0} where
  -- `session.write_str(…)`
  abbrev pub says : Text → Task P V (Result Error (Unit {0}))
  says t = on_session (write_str t)

  -- A step that wrote what it had to.
  abbrev pub Done :
      Text → List ChannelMsg → List Outgoing → Frame P V × Flow (Result Error (Unit {0})) → Type 0
  Done user ms sent (f, flow) = (flow ≡ returned (ok tt)) × Talks user ms sent f.session

  pub after_done :
      {A : Type 0} (Q : Frame P V × Flow (Result Error A) → Type 0)
      (m : Task P V (Result Error (Unit {0}))) (k : Task P V (Result Error A)) (user : Text)
      (ms : List ChannelMsg) (sent : List Outgoing) (f : Frame P V)
      → Done user ms sent (m f)
      → ((f' : Frame P V) → Talks user ms sent f'.session → Q (k f'))
      → Q ((m >> k) f)
  after_done Q m k user ms sent f (e, talks) rest =
      subst (λ flow. Q (continue (or_return (λ _. k)) ((m f).0, flow))) (sym e) (rest (m f).0 talks)

  pub acts-Done :
      (act : Session P V → Session P V × Result Error (Unit {0})) (user : Text)
      (ms : List ChannelMsg) (sent : List Outgoing) (f : Frame P V)
      → Wrote user ms sent (act f.session)
      → Done user ms sent (on_session act f)
  acts-Done act user ms sent f (talks, r) = (ap returned r, talks)

  pub says-Done :
      (t : Text) (user : Text) (ms : List ChannelMsg) (sent : List Outgoing) (f : Frame P V)
      → Talks user ms sent f.session
      → Done user ms (sent ++ data_out (as_bytes t) ∷ []) (says t f)
  says-Done t user ms sent f talks =
      acts-Done (write_str t) user ms (sent ++ data_out (as_bytes t) ∷ []) f
        (write_str-Wrote user ms sent t f.session talks)

  -- The task returned, and the channel has sent this.
  abbrev pub Ends : Text → List Outgoing → Frame P V × Flow (Result Error (Unit {0})) → Type 0
  Ends user sent (f, flow) =
      (flow ≡ returned (ok tt)) × ((left : List ChannelMsg) × Talks user left sent f.session)

  pub says_after :
      (m : Task P V (Result Error (Unit {0}))) (t user : Text) (ms : List ChannelMsg)
      (sent : List Outgoing) (f : Frame P V)
      → Done user ms sent (m f)
      → Done user ms (sent ++ data_out (as_bytes t) ∷ []) ((m >> says t) f)
  says_after m t user ms sent f done =
      after_done (Done user ms (sent ++ data_out (as_bytes t) ∷ [])) m (says t) user ms sent f done
        (λ f' talks. says-Done t user ms sent f' talks)

  closed_on :
      (chain : Handler P V) (f f' : Frame P V) (n : ℕ) (left : List ChannelMsg)
      (sent : List Outgoing) (o : Option Channel)
      → chain f ≡ (f', returned (code n))
      → f'.session.channel ≡ o
      → StandsOn left sent o
      → f'.session.exited ≡ false
      → sent_on (run_task chain f).session.channel ≡ sent ++ closing n
  unfolding exit_code
  closed_on chain f f' n left sent none e o h x = absurd h
  closed_on chain f f' n left sent (some ch) e o (l, g, h) x =
      run_task-finish chain f f' (code n) ch e o h ∙ rw x (ap (λ xs. xs ++ closing n) g)

  -- After a chain that returned, the exit status, the end of the output and the close follow.
  pub closed_after :
      (chain : Handler P V) (f f' : Frame P V) (n : ℕ) (user : Text) (left : List ChannelMsg)
      (sent : List Outgoing)
      → chain f ≡ (f', returned (code n))
      → Talks user left sent f'.session
      → sent_on (run_task chain f).session.channel ≡ sent ++ closing n
  closed_after chain f f' n user left sent e (h, x, u) =
      closed_on chain f f' n left sent f'.session.channel e refl h x
