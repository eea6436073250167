-- ===== src/Examples/ArrivalRuns.antt =====
-- A client that logs in by key, sets variables and a terminal, and runs a command.
use shenron.Common.{
  ℕ, ◌≡◌, refl, true, false, none, some, List, [], ◌∷◌, text, text_beq, nat_eq, text_eq, arith,
}
use shenron.Error.{ok}
use shenron.HashMap
use shenron.Extensions
use shenron.Extensions.Laws.{IsTyped}
use shenron.Channel.{Channel, PtySize}
use shenron.Session
use shenron.Session.{Session, exec}
use shenron.Auth.{AuthConfig, AuthOutcome}
use shenron.Server.{ShenronServer, ShenronHandler, auth_publickey, finish_auth, consult}
use shenron.Server.Channels.{
  RusshSession, channel_open_session, env_request, pty_request, start_request,
}
use shenron.Server.Channels.Setups.{Setup, variable, terminal, set_up, set_up_all}
use shenron.Server.Connection.{by_key, is_accept, attempt}
use shenron.Server.Connection.Arrival.{Arrives, session-Arrives}
use shenron.Examples.Values.{peer, exits, open_channel_of}

abbrev account : AuthOutcome ℕ
account = record { accepted = true; extensions = (1, record { type_id = 1; value = 70 }) ∷ [] }

abbrev accounts : AuthConfig ℕ ℕ ℕ
accounts = record {
  password = none;
  pubkey = some (λ user key. account);
  cert = none;
  keyboard_interactive = none;
}

abbrev account_server : ShenronServer ℕ ℕ ℕ
account_server = record { handler = exits 0; auth = accounts; banner = none }

abbrev client : ShenronHandler ℕ ℕ ℕ
client = record {
  handler = exits 0;
  remote_addr = some peer;
  pending = [];
  running = 0;
  user = none;
  public_key = none;
  auth = accounts;
  extensions = [];
  banner = none;
  kbi = none;
}

abbrev logged_in : ShenronHandler ℕ ℕ ℕ
logged_in = record client {
  user = some (text "goku");
  public_key = some 9;
  extensions = (1, record { type_id = 1; value = 70 }) ∷ [];
}

abbrev channel : Channel
channel = open_channel_of []

abbrev size : PtySize
size = record { width = 80; height = 24; pixel_width = 0; pixel_height = 0 }

abbrev setups : List Setup
setups =
    variable 7 (text "LANG") (text "C")
    ∷ variable 8 (text "LANG") (text "ja")
    ∷ terminal 7 (text "xterm") size
    ∷ variable 7 (text "LANG") (text "fr")
    ∷ []

abbrev waiting : ShenronHandler ℕ ℕ ℕ
waiting = record logged_in {
  pending = (7, record { channel = channel; env = []; pty = none }) ∷ [];
}

abbrev quiet : RusshSession
quiet = record { replies = []; closed = false }

abbrev session : Session ℕ ℕ
session = record {
  channel = some channel;
  kind = exec (text "ls");
  pty = some (text "xterm", size);
  user = text "goku";
  public_key = some 9;
  env = (text "LANG", text "fr") ∷ [];
  extensions = (1, record { type_id = 1; value = 70 }) ∷ [];
  remote_addr = peer;
  exited = false;
}

key-accepted : is_accept (attempt (λ c. 0) (text "goku") (by_key 9) client).1 ≡ true
unfolding attempt auth_publickey finish_auth consult
key-accepted = refl

channel-opened :
    channel_open_session channel (attempt (λ c. 0) (text "goku") (by_key 9) client).0
    ≡ (waiting, true)
unfolding attempt auth_publickey finish_auth consult channel_open_session HashMap.insert
    HashMap.extend Extensions.merge
channel-opened = refl

session-started :
    start_request 7
      (exec (text "ls"))
      (set_up_all setups waiting quiet).0
      (set_up_all setups waiting quiet).1
    ≡ (
      record logged_in { running = 1 },
      record quiet { replies = (7, true) ∷ (7, true) ∷ [] },
      ok session,
    )
unfolding set_up_all set_up env_request pty_request start_request HashMap.get HashMap.insert
    HashMap.remove Session.new text_beq
session-started = refl

typed : IsTyped {V = ℕ} ((1, record { type_id = 1; value = 70 }) ∷ [])
unfolding HashMap.get
typed t b e = ground (arith, e)

session-Arrives_example :
    Arrives channel
      (exec (text "ls"))
      setups
      (text "goku")
      (some 9)
      ((1, record { type_id = 1; value = 70 }) ∷ [])
      []
      session
unfolding consult
session-Arrives_example =
    session-Arrives (λ c. 0) (text "goku") (by_key 9) client waiting
      (record logged_in { running = 1 }) channel setups quiet
      (record quiet { replies = (7, true) ∷ (7, true) ∷ [] }) (exec (text "ls")) session tt refl
      key-accepted typed channel-opened (omega arith) session-started
