-- ===== src/Examples/Values.antt =====
-- Concrete values. Keys, certificates and extension values are numbers.
use shenron.Common.{ℕ, false, none, some, List, [], text, ◌==◌, text_eq}
use shenron.Extensions
use shenron.Channel.{Channel, ChannelMsg}
use shenron.Session.{Session, SessionKind, SocketAddr, v4}
use shenron.Task.{Frame, Handler, returned}
use shenron.Auth.{AuthConfig, from_bool}
use shenron.Exit.{code}

abbrev pub peer : SocketAddr
peer = record { ip = v4 2130706433; port = 40022 }

abbrev pub open_channel_of : List ChannelMsg → Channel
open_channel_of messages = record {
  id = 7;
  incoming = messages;
  sent = [];
  attempts = 0;
  refuses = λ n. false;
}

abbrev pub session_of : SessionKind → List ChannelMsg → Session ℕ ℕ
session_of kind messages = record {
  channel = some (open_channel_of messages);
  kind = kind;
  pty = none;
  user = text "goku";
  public_key = none;
  env = [];
  extensions = Extensions.default;
  remote_addr = peer;
  exited = false;
}

abbrev pub frame_of : Session ℕ ℕ → Frame ℕ ℕ
frame_of s = record { session = s; log = [] }

abbrev pub passwords : AuthConfig ℕ ℕ ℕ
passwords = record {
  password = some (λ user password. from_bool (password == text "kame"));
  pubkey = none;
  cert = none;
  keyboard_interactive = none;
}

abbrev pub exits : ℕ → Handler ℕ ℕ
exits n f = (f, returned (code n))
