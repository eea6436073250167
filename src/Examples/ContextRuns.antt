-- ===== src/Examples/ContextRuns.antt =====
-- The server that attaches an account: an administrator logs in and starts a shell.
use shenron.Common.{
  ℕ, ◌≡◌, refl, true, false, none, some, List, [], ◌∷◌, ◌++◌, text, text_beq, nat_eq, text_eq,
  arith, Text,
}
use shenron.Error.{Result, Error, ok}
use shenron.HashMap
use shenron.Extensions
use shenron.Channel.{Channel}
use shenron.Session
use shenron.Session.{Session, shell}
use shenron.Session.Finish.{sent_on, closing}
use shenron.Auth.{accept, attach, methods}
use shenron.Server.{ShenronHandler, new_client, auth_publickey, finish_auth, consult}
use shenron.Server.Builder.{
  Config, Listening, new, set, prepare, with_key, host_key_read, host_key, with_middleware,
  listen_with, listen_on, config_of,
}
use shenron.Server.Builder.Prepared.{set_all}
use shenron.Server.Channels.{
  RusshSession, channel_open_session, env_request, start_request, run_task,
}
use shenron.Server.Channels.Setups.{Setup, variable, set_up, set_up_all}
use shenron.Server.Connection.{by_key, attempt}
use shenron.Apps.Saying.{as_sent}
use shenron.Apps.Context.{
  Attachment, account, account_type, role_of, accepts, numbered, account_line, request_line, calls,
}
use shenron.Apps.Context.Login.{served, main-Greets}
use shenron.Examples.Values.{peer, open_channel_of}

abbrev russh_default : Config ℕ
russh_default = record {
  keys = [];
  methods = [];
  auth_rejection_time = 1;
  auth_rejection_time_initial = none;
  inactivity_timeout = none;
  keepalive_interval = none;
  keepalive_max = 3;
}

abbrev loads : Text → Result Error ℕ
loads path = ok 4

abbrev listening : Listening ℕ ℕ ℕ Attachment
listening = record {
  config = record russh_default {
    keys = 4 ∷ [];
    methods = methods (served {P = ℕ} {C = ℕ} 3).auth;
  };
  addr = text "0.0.0.0:2222";
  server = served 3;
}

main-listens : prepare loads russh_default (set_all (calls 3) new) ≡ ok listening
unfolding prepare with_key set_all set new calls with_middleware listen_with host_key_read host_key
    listen_on config_of
main-listens = refl

abbrev channel : Channel
channel = open_channel_of []

abbrev logged_in : ShenronHandler ℕ ℕ Attachment
logged_in = record (new_client (served 3) (some peer)) {
  user = some (text "admin");
  public_key = some 9;
  extensions =
      (
        account_type,
        record { type_id = account_type; value = account (record { id = 7; role = text "admin" }) },
      )
      ∷ [];
}

abbrev waiting : ShenronHandler ℕ ℕ Attachment
waiting = record logged_in {
  pending = (7, record { channel = channel; env = []; pty = none }) ∷ [];
}

channel-opened :
    channel_open_session channel
      (attempt (λ c. 0) (text "admin") (by_key 9) (new_client listening.server (some peer))).0
    ≡ (waiting, true)
unfolding attempt auth_publickey finish_auth consult channel_open_session HashMap.insert
    HashMap.extend Extensions.merge Extensions.insert new_client accepts accept attach role_of
    text_beq
channel-opened = refl

abbrev quiet : RusshSession
quiet = record { replies = []; closed = false }

abbrev setups : List Setup
setups = variable 7 (text "LANG") (text "C") ∷ []

abbrev session : Session ℕ Attachment
session = record {
  channel = some channel;
  kind = shell;
  pty = none;
  user = text "admin";
  public_key = some 9;
  env = (text "LANG", text "C") ∷ [];
  extensions = logged_in.extensions;
  remote_addr = peer;
  exited = false;
}

session-started :
    start_request 7 shell (set_up_all setups waiting quiet).0 (set_up_all setups waiting quiet).1
    ≡ (record logged_in { running = 1 }, record quiet { replies = (7, true) ∷ [] }, ok session)
unfolding set_up_all set_up env_request start_request HashMap.get HashMap.insert HashMap.remove
    Session.new text_beq new_client
session-started = refl

main-Greets_example :
    sent_on
      (run_task listening.server.handler (record { session = session; log = [] })).session.channel
    ≡ as_sent (
        account_line (some (record { id = 7; role = role_of (text "admin") }))
        ∷ request_line (numbered 3)
        ∷ [])
      ++ closing 0
main-Greets_example =
    main-Greets loads russh_default (λ c. 0) 3 listening peer (text "admin") 9 waiting
      (record logged_in { running = 1 }) channel setups quiet
      (record quiet { replies = (7, true) ∷ [] }) shell session [] main-listens channel-opened
      (omega arith) session-started refl (λ k. refl)
