-- ===== src/Apps/Context/Greeting.antt =====
-- examples/context.rs: what a session is told.
use shenron.Common.{ℕ, ◌≡◌, refl, sym, ◌∙◌, ap, subst, some, List, [], ◌∷◌, ◌++◌, Text, nat_eq}
use shenron.Error.{ok}
use shenron.Exit.{code, unit_exit, result_exit, exit_exit}
use shenron.Extensions.Laws.{get-insert}
use shenron.Channel.{ChannelMsg}
use shenron.Session.Attached
use shenron.Session.Conversation.{Talks}
use shenron.Session.Finish.{sent_on, closing}
use shenron.Task.{Frame, returned, pure, continue, ◌>>◌}
use shenron.Middleware.{Middleware, build_chain, terminal}
use shenron.Middleware.Chain.{nest, build_chain-nest}
use shenron.Server.Channels.{run_task}
use shenron.Apps.Saying.{says, as_sent, Done, says-Done, after_done, closed_after}
use shenron.Apps.Context.{
  Attachment, request, account_type, request_type, as_account, as_request, numbered, account_line,
  request_line, tagged, request_id, says_request, account_of, request_of, app,
}

module _ {P : Type 0} where
  abbrev pub middleware : ℕ → List (Middleware P Attachment)
  middleware n = (request_id n).1 ∷ terminal app ∷ []

  -- The session, with its number.
  abbrev numbered_as : ℕ → Frame P Attachment → Frame P Attachment
  numbered_as n f = record f {
    session = Attached.insert request_type (request (numbered n)) f.session;
  }

  account-kept :
      (n : ℕ) (f : Frame P Attachment) → account_of (numbered_as n f).session ≡ account_of f.session
  unfolding Attached.get Attached.insert
  account-kept n f =
      ap as_account
        (get-insert request_type account_type (request (numbered n)) f.session.extensions)

  request-found :
      (n : ℕ) (f : Frame P Attachment) → request_of (numbered_as n f).session ≡ some (numbered n)
  unfolding Attached.get Attached.insert
  request-found n f =
      ap as_request
        (get-insert request_type request_type (request (numbered n)) f.session.extensions)

  app-Done :
      (user r : Text) (ms : List ChannelMsg) (f : Frame P Attachment)
      → Talks user ms [] f.session
      → request_of f.session ≡ some r
      → Done user ms (as_sent (account_line (account_of f.session) ∷ request_line r ∷ [])) (app f)
  unfolding app
  app-Done user r ms f talks e =
      let sent = as_sent (account_line (account_of f.session) ∷ request_line r ∷ []) in
      let first = says-Done (account_line (account_of f.session)) user ms [] f talks in
      subst
        (λ o.
          Done user ms sent
            ((says (account_line (account_of f.session)) >> says_request o >> pure (ok tt)) f))
        (sym e)
        (after_done (Done user ms sent)
          (says (account_line (account_of f.session)) >> says (request_line r)) (pure (ok tt)) user
          ms sent f
          (after_done (Done user ms sent) (says (account_line (account_of f.session)))
            (says (request_line r)) user ms (as_sent (account_line (account_of f.session) ∷ [])) f
            first
            (λ f' talks'.
              says-Done (request_line r) user ms
                (as_sent (account_line (account_of f.session) ∷ [])) f' talks'))
          (λ f' talks'. (refl, talks')))

  nest-app :
      (n : ℕ) (f : Frame P Attachment)
      → (app (numbered_as n f)).1 ≡ returned (ok tt)
      → nest (middleware n) f ≡ ((app (numbered_as n f)).0, returned (code 0))
  unfolding request_id tagged terminal
  nest-app n f e =
      ap
        (λ flow.
          continue (λ exit. pure exit)
            (continue (λ a. pure (result_exit.into_exit a)) ((app (numbered_as n f)).0, flow)))
        e

  -- A session of this server, on a channel that takes every message, is told the account that is
  -- attached to it, or that there is none, and then its number, and is closed with exit status 0.
  pub run_task-context :
      (n : ℕ) (user : Text) (ms : List ChannelMsg) (f : Frame P Attachment)
      → Talks user ms [] f.session
      → sent_on (run_task (build_chain (middleware n)) f).session.channel
        ≡ as_sent (account_line (account_of f.session) ∷ request_line (numbered n) ∷ [])
          ++ closing 0
  unfolding Attached.insert
  run_task-context n user ms f talks =
      let (e, talks') = app-Done user (numbered n) ms (numbered_as n f) talks (request-found n f) in
      closed_after (build_chain (middleware n)) f (app (numbered_as n f)).0 0 user ms
        (as_sent
          (account_line (account_of (numbered_as n f).session) ∷ request_line (numbered n) ∷ []))
        (ap (λ chain. chain f) (build_chain-nest (middleware n)) ∙ nest-app n f e) talks'
      ∙ ap (λ a. as_sent (account_line a ∷ request_line (numbered n) ∷ []) ++ closing 0)
          (account-kept n f)
