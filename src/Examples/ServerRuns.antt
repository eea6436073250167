-- ===== src/Examples/ServerRuns.antt =====
-- A connection that authenticates by password, opens a channel and runs a command.
use shenron.Common.{
  ◌↔◌, ◌∷◌, List, ℕ, ◌≡◌, refl, true, false, none, some, [], Text, text, text_eq, nat_eq, is_some,
  text_beq,
}
use shenron.Auth.{from_bool}
use shenron.Server.{ShenronServer, auth_password, finish_auth, consult, new_client}
use shenron.Server.Channels.{RusshSession}
use shenron.Server.Connection.{
  is_accept, Attempt, by_password, open_channel, exec, Connection, attempt, request, connect,
  after_attempt, after_request, attempts, requests, Reach, here, next,
}
use shenron.Server.Connection.Invariant.{Inv, Reach-connect-Inv}
use shenron.Server.Connection.Verdicts.{Grants}
use shenron.Server.Connection.Grants.{Reach-Grants}
use shenron.Error.{Error, Result, ok}
use shenron.Middleware.{build_chain}
use shenron.Middleware.Builtins.{recover}
use shenron.Server.Builder.{
  Config, Setting, bind, pubkey_auth, adds_middleware, Listening, new, set, host_key, host_key_read,
  with_key, with_middleware, listen_on, listen_with, prepare, config_of,
}
use shenron.Server.Builder.Prepared.{set_all, given_keys, added, IsReady, prepare-IsReady}
use shenron.Server.Connection.Open.{attempt-rejected}
use shenron.Server.Connection.Accepting.{Accepts, attempt-Accepts}
use shenron.Examples.Values.{peer, open_channel_of, passwords, exits}

abbrev server : ShenronServer ℕ ℕ ℕ
server = record { handler = exits 5; auth = passwords; banner = none }

abbrev quiet : RusshSession
quiet = record { replies = []; closed = false }

abbrev right : Attempt ℕ ℕ
right = by_password (text "kame")

abbrev connected : Connection ℕ ℕ ℕ
connected = connect server (some peer)

abbrev logged_in : Connection ℕ ℕ ℕ
logged_in =
    after_attempt connected (text "goku") right
      (attempt (λ c. c) (text "goku") right connected.handler)

abbrev opened : Connection ℕ ℕ ℕ
opened =
    after_request logged_in (request (open_channel (open_channel_of [])) quiet logged_in.handler)

abbrev running : Connection ℕ ℕ ℕ
running = after_request opened (request (exec 7 (text "ls")) quiet opened.handler)

connected-fresh : connected.authenticated ≡ false
unfolding connect
connected-fresh = refl

logged_in-authenticated : logged_in.authenticated ≡ true
unfolding connect attempt auth_password finish_auth consult new_client from_bool text_beq
logged_in-authenticated = refl

connected-addr : is_some connected.handler.remote_addr ≡ true
unfolding connect new_client
connected-addr = refl

running-Reach : Reach (λ c. c) connected running
running-Reach =
    next
      (next (next here (attempts connected (text "goku") right connected-fresh tt))
        (requests logged_in (open_channel (open_channel_of [])) quiet logged_in-authenticated))
      (requests opened (exec 7 (text "ls")) quiet logged_in-authenticated)

running-authenticated : running.authenticated ≡ true
running-authenticated = logged_in-authenticated

Reach-connect-Inv_example : Inv running
Reach-connect-Inv_example = Reach-connect-Inv (λ c. c) server (some peer) running-Reach

Reach-Grants_example : (user : Text) × (running.handler.user ≡ some user) × Grants passwords user
Reach-Grants_example = Reach-Grants (λ c. c) server (some peer) running-Reach running-authenticated

attempt-Accepts_example :
    (is_accept (attempt (λ c. c) (text "goku") right connected.handler).1 ≡ true)
    ↔ Accepts connected.handler.auth (text "goku") right
attempt-Accepts_example =
    attempt-Accepts (λ c. c) (text "goku") right connected.handler tt connected-addr

abbrev wrong : Attempt ℕ ℕ
wrong = by_password (text "guess")

wrong-denied : is_accept (attempt (λ c. c) (text "goku") wrong connected.handler).1 ≡ false
unfolding connect new_client attempt auth_password finish_auth consult from_bool text_beq
wrong-denied = refl

attempt-rejected_example :
    (attempt (λ c. c) (text "goku") wrong connected.handler).0 ≡ connected.handler
attempt-rejected_example =
    attempt-rejected (λ c. c) (text "goku") wrong connected.handler tt connected-addr wrong-denied

-- A server with two middleware, one app and no host key of its own.
abbrev russh_default : Config ℕ
russh_default = record {
  keys = [];
  methods = [];
  auth_rejection_time = 1;
  auth_rejection_time_initial = none;
  inactivity_timeout = some 600;
  keepalive_interval = none;
  keepalive_max = 3;
}

abbrev calls : List (Setting ℕ ℕ ℕ ℕ)
calls =
    bind (text "0.0.0.0:2222")
    ∷ adds_middleware recover
    ∷ pubkey_auth (λ user key. from_bool true)
    ∷ adds_middleware (λ next. exits 5)
    ∷ []

abbrev load_key : Text → Result Error ℕ
load_key path = ok 42

abbrev listening : Listening ℕ ℕ ℕ ℕ
listening = record {
  config = config_of russh_default (host_key 42 (set_all calls new));
  addr = text "0.0.0.0:2222";
  server = record {
    handler = build_chain (set_all calls new).middleware;
    auth = (set_all calls new).auth;
    banner = none;
  };
}

calls-prepare : prepare load_key russh_default (set_all calls new) ≡ ok listening
unfolding prepare set_all set new with_key host_key_read host_key listen_with listen_on
    with_middleware
calls-prepare = refl

prepare-IsReady_example : IsReady load_key (given_keys calls) (added calls) listening
prepare-IsReady_example = prepare-IsReady load_key russh_default calls listening calls-prepare
