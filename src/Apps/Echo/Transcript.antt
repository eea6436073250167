-- ===== src/Apps/Echo/Transcript.antt =====
-- examples/echo.rs: what the application sends in a whole session.
use shenron.Common.{
  suc, ◌≡◌, refl, ap, subst, Bool, true, false, List, [], ◌∷◌, ◌++◌, if◌then◌else◌, Text,
}
use shenron.Utf8.{as_bytes}
use shenron.Channel.{
  ChannelMsg, data_msg, window_change, signal_msg, eof_msg, protocol_message, Outgoing, data_out,
}
use shenron.Session.{waiting}
use shenron.Session.Conversation.{Talks, enough_on}
use shenron.Task.{Frame, ◌>>◌}
use shenron.Apps.Saying.{Ends, as_sent, says, after_done, says-Done, says_after}
use shenron.Apps.Looping.{acted, writes, writes_and_breaks, transcript, event_loop, event_loop-Ends}
use shenron.Apps.Echo.{
  welcome, hello, type_anything, how_to_exit, goodbye, got, ends_input, react, echo,
}

-- What the application answers to the messages of the client.
abbrev pub replies : List ChannelMsg → List Text
replies [] = []
replies (data_msg d ∷ ms) = if ends_input d then goodbye ∷ [] else got d ∷ replies ms
replies (window_change w h pw ph ∷ ms) = replies ms
replies (signal_msg name ∷ ms) = replies ms
replies (eof_msg ∷ ms) = []
replies (protocol_message ∷ ms) = replies ms

abbrev pub greeting : Text → List Text
greeting user = welcome ∷ hello user ∷ type_anything ∷ how_to_exit ∷ []

data-replies :
    (b : Bool) (bye more : Text) (rest : List Outgoing) (texts : List Text)
    → rest ≡ as_sent texts
    → acted (if b then writes_and_breaks (as_bytes bye) else writes (as_bytes more)) rest
      ≡ as_sent (if b then bye ∷ [] else more ∷ texts)
data-replies true bye more rest texts e = refl
data-replies false bye more rest texts e = ap (λ xs. data_out (as_bytes more) ∷ xs) e

transcript-replies : (ms : List ChannelMsg) → transcript react ms ≡ as_sent (replies ms)
unfolding react
transcript-replies [] = refl
transcript-replies (data_msg d ∷ ms) =
    data-replies (ends_input d) goodbye (got d) (transcript react ms) (replies ms)
      (transcript-replies ms)
transcript-replies (window_change w h pw ph ∷ ms) = transcript-replies ms
transcript-replies (signal_msg name ∷ ms) = transcript-replies ms
transcript-replies (eof_msg ∷ ms) = refl
transcript-replies (protocol_message ∷ ms) = transcript-replies ms

module _ {P V : Type 0} where
  echo_as-Ends :
      (ms : List ChannelMsg) (f : Frame P V)
      → Talks f.session.user ms [] f.session
      → Ends f.session.user (as_sent (greeting f.session.user) ++ transcript react ms) (echo f)
  unfolding echo
  echo_as-Ends ms f talks =
      let user = f.session.user in
      let two =
        says_after (says welcome) (hello user) user ms (as_sent (welcome ∷ [])) f
          (says-Done welcome user ms [] f talks) in
      let three =
        says_after (says welcome >> says (hello user)) type_anything user ms
          (as_sent (welcome ∷ hello user ∷ [])) f two in
      let four =
        says_after (says welcome >> says (hello user) >> says type_anything) how_to_exit user ms
          (as_sent (welcome ∷ hello user ∷ type_anything ∷ [])) f three in
      after_done (Ends user (as_sent (greeting user) ++ transcript react ms))
        (says welcome >> says (hello user) >> says type_anything >> says how_to_exit)
        (event_loop react (suc (waiting f.session))) user ms (as_sent (greeting user)) f four
        (λ f' talks'.
          event_loop-Ends react (suc (waiting f.session)) user ms (as_sent (greeting user)) f'
            (enough_on ms [] f.session.channel talks.0) talks')

  pub echo-Ends :
      (user : Text) (ms : List ChannelMsg) (f : Frame P V)
      → Talks user ms [] f.session
      → Ends user (as_sent (greeting user ++ replies ms)) (echo f)
  echo-Ends user ms f (h, x, u) =
      subst (λ xs. Ends user (as_sent (greeting user) ++ xs) (echo f)) (transcript-replies ms)
        (subst (λ user. Ends user (as_sent (greeting user) ++ transcript react ms) (echo f)) u
          (echo_as-Ends ms f (h, x, refl)))
