-- ===== src/Apps/Context/Login.antt =====
-- examples/context.rs: from the calls of `main` and the login of a user to what a session is told.
use shenron.Common.{
  ℕ, ◌≤◌, ◌≡◌, refl, sym, ◌∙◌, ap, subst, true, false, none, some, List, [], ◌∷◌, ◌++◌, Text, arith,
  length,
}
use shenron.Error.{Error, Result, ok, err}
use shenron.HashMap.{or_else}
use shenron.Extensions
use shenron.Extensions.{Extensions}
use shenron.Extensions.Laws.{IsTyped, insert-IsTyped, get-insert}
use shenron.HashMap
use shenron.Channel.{Channel}
use shenron.Session.{Session, SessionKind, SocketAddr}
use shenron.Session.Attached
use shenron.Session.Conversation.{Talks}
use shenron.Session.Finish.{sent_on, closing}
use shenron.Task.{LogLine}
use shenron.Middleware.{build_chain}
use shenron.Auth.{accept, attach}
use shenron.Server.{
  ShenronServer, ShenronHandler, new_client, auth_publickey, consult, finish_auth, max_env_vars,
}
use shenron.Server.Builder.{
  Config, Listening, new, set, prepare, with_key, host_key_read, host_key, with_middleware,
  listen_with, listen_on, default_host_key_path,
}
use shenron.Server.Builder.Prepared.{set_all}
use shenron.Server.Channels.{RusshSession, channel_open_session, start_request, run_task}
use shenron.Server.Channels.Setups.{Setup, set_up_all}
use shenron.Server.Connection.{by_key, is_accept, attempt}
use shenron.Server.Connection.Arrival.{Arrives, session-Arrives}
use shenron.Apps.Saying.{as_sent}
use shenron.Apps.Context.{
  Attachment, account, account_type, as_account, role_of, accepts, numbered, account_line,
  request_line, account_of, calls,
}
use shenron.Apps.Context.Greeting.{middleware, run_task-context}

module _ {P C : Type 0} where
  -- What `main` serves.
  abbrev pub served : ℕ → ShenronServer P C Attachment
  served n = record {
    handler = build_chain (middleware n);
    auth = record {
      password = none;
      pubkey = some accepts;
      cert = none;
      keyboard_interactive = none;
    };
    banner = none;
  }

module _ {K P C : Type 0} where
  abbrev server_or :
      ShenronServer P C Attachment
      → Result Error (Listening K P C Attachment)
      → ShenronServer P C Attachment
  server_or other (ok l) = l.server
  server_or other (err e) = other

  loaded-served :
      (default : Config K) (n : ℕ) (l : Listening K P C Attachment) (r : Result Error K)
      → listen_with default (host_key_read r (set_all (calls n) new)) ≡ ok l
      → served n ≡ l.server
  unfolding listen_with host_key_read host_key listen_on set_all set new calls with_middleware
  loaded-served default n l (err e) h = absurd (ground (arith, h))
  loaded-served default n l (ok k) h = ap (server_or (served n)) h

  prepare-served :
      (load : Text → Result Error K) (default : Config K) (n : ℕ) (l : Listening K P C Attachment)
      → prepare load default (set_all (calls n) new) ≡ ok l
      → served n ≡ l.server
  unfolding prepare with_key set_all set new calls with_middleware
  prepare-served load default n l h = loaded-served default n l (load default_host_key_path) h

module _ {P : Type 0} where
  typed : (user : Text) (key : P) → IsTyped (accepts user key).extensions
  unfolding accepts attach accept HashMap.get
  typed user key =
      insert-IsTyped account_type (account (record { id = 7; role = role_of user })) []
        (λ t b e. absurd (ground (arith, e)))

  attached_account :
      (user : Text) (key : P)
      → Extensions.get account_type (accepts user key).extensions
        ≡ some (account (record { id = 7; role = role_of user }))
  unfolding accepts attach accept
  attached_account user key =
      get-insert account_type account_type (account (record { id = 7; role = role_of user })) []

  arrived-account :
      (channel : Channel) (kind : SessionKind) (setups : List Setup) (user : Text) (key : P)
      (session : Session P Attachment)
      → Arrives channel kind setups user (some key) (accepts user key).extensions [] session
      → account_of session ≡ some (record { id = 7; role = role_of user })
  unfolding Attached.get
  arrived-account channel kind setups user key session arrives = ap as_account (
      arrives.with_attached account_type
      ∙ ap (λ o. or_else o (Extensions.get account_type [])) (attached_account user key))

  arrived-Talks :
      (channel : Channel) (kind : SessionKind) (setups : List Setup) (user : Text) (key : P)
      (session : Session P Attachment)
      → channel.sent ≡ []
      → ((k : ℕ) → channel.refuses k ≡ false)
      → Arrives channel kind setups user (some key) (accepts user key).extensions [] session
      → Talks user channel.incoming [] session
  arrived-Talks channel kind setups user key session empty takes arrives =
      rw arrives.on_channel ((refl, empty, takes), arrives.still_open, arrives.as_user)

module _ {P C : Type 0} where
  abbrev client : ℕ → SocketAddr → ShenronHandler P C Attachment
  client n addr = new_client (served n) (some addr)

  key-accepted :
      (inner_key : C → P) (n : ℕ) (addr : SocketAddr) (user : Text) (key : P)
      → is_accept (attempt inner_key user (by_key key) (client n addr)).1 ≡ true
  unfolding attempt auth_publickey finish_auth consult new_client accepts attach accept
  key-accepted inner_key n addr user key = refl

  served-Greets :
      (inner_key : C → P) (n : ℕ) (addr : SocketAddr) (user : Text) (key : P)
      (h₁ h₂ : ShenronHandler P C Attachment) (channel : Channel) (setups : List Setup)
      (s s₂ : RusshSession) (kind : SessionKind) (session : Session P Attachment)
      (log : List LogLine)
      → channel_open_session channel (attempt inner_key user (by_key key) (client n addr)).0
        ≡ (h₁, true)
      → length setups ≤ max_env_vars
      → start_request channel.id kind (set_up_all setups h₁ s).0 (set_up_all setups h₁ s).1
        ≡ (h₂, s₂, ok session)
      → channel.sent ≡ []
      → ((k : ℕ) → channel.refuses k ≡ false)
      → sent_on
          (run_task
            (build_chain (middleware n))
            (record { session = session; log = log })).session.channel
        ≡ as_sent (
            account_line (some (record { id = 7; role = role_of user }))
            ∷ request_line (numbered n)
            ∷ [])
          ++ closing 0
  unfolding new_client consult
  served-Greets inner_key n addr user key h₁ h₂ channel setups s s₂ kind session log opens room
        started empty takes =
      let arrives =
        session-Arrives inner_key user (by_key key) (client n addr) h₁ h₂ channel setups s s₂ kind
          session tt refl (key-accepted inner_key n addr user key) (typed user key) opens room
          started in
      run_task-context n user channel.incoming (record { session = session; log = log })
        (arrived-Talks channel kind setups user key session empty takes arrives)
      ∙ ap (λ a. as_sent (account_line a ∷ request_line (numbered n) ∷ []) ++ closing 0)
          (arrived-account channel kind setups user key session arrives)

-- On the server that `main` starts, whoever logs in by a key, sends requests on channels, no more of
-- them than variables are kept, and starts a session on a channel that takes every message, is told
-- the account that the handler derived from the name of the user, and then the number of the
-- session; after that come the exit status 0, the end of the output and the close.
pub main-Greets :
    {K P C : Type 0} (load : Text → Result Error K) (default : Config K) (inner_key : C → P) (n : ℕ)
    (l : Listening K P C Attachment) (addr : SocketAddr) (user : Text) (key : P)
    (h₁ h₂ : ShenronHandler P C Attachment) (channel : Channel) (setups : List Setup)
    (s s₂ : RusshSession) (kind : SessionKind) (session : Session P Attachment) (log : List LogLine)
    → prepare load default (set_all (calls n) new) ≡ ok l
    → channel_open_session channel
        (attempt inner_key user (by_key key) (new_client l.server (some addr))).0
      ≡ (h₁, true)
    → length setups ≤ max_env_vars
    → start_request channel.id kind (set_up_all setups h₁ s).0 (set_up_all setups h₁ s).1
      ≡ (h₂, s₂, ok session)
    → channel.sent ≡ []
    → ((k : ℕ) → channel.refuses k ≡ false)
    → sent_on (run_task l.server.handler (record { session = session; log = log })).session.channel
      ≡ as_sent (
          account_line (some (record { id = 7; role = role_of user }))
          ∷ request_line (numbered n)
          ∷ [])
        ++ closing 0
main-Greets load default inner_key n l addr user key h₁ h₂ channel setups s s₂ kind session log
      ready opens room started empty takes =
    let same = prepare-served load default n l ready in
    ap
      (λ srv.
        sent_on (run_task srv.handler (record { session = session; log = log })).session.channel)
      (sym same)
    ∙ served-Greets inner_key n addr user key h₁ h₂ channel setups s s₂ kind session log
        (subst
          (λ srv.
            channel_open_session channel
              (attempt inner_key user (by_key key) (new_client srv (some addr))).0
            ≡ (h₁, true))
          (sym same) opens)
        room started empty takes
