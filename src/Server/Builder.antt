-- ===== src/Server/Builder.antt =====
-- src/server/core.rs: the builder, the configuration of russh and `serve`. `K` is russh's
-- `PrivateKey`. What russh's listener returns, and russh's default configuration, are parameters.
-- A duration is a number.
pub mod Prepared
pub mod HostKeys
use shenron.Common.{ℕ, Bool, true, false, Option, none, some, List, [], ◌∷◌, ◌++◌, ◌≡◌, Text, text}
use shenron.Error.{Error, config, Result, ok, err}
use shenron.Exit.{IntoExit}
use shenron.Task.{Task}
use shenron.Middleware.{Middleware, build_chain, terminal}
use shenron.Auth.{AuthConfig, AuthOutcome, Dialog, MethodKind, methods}
use shenron.Server.{ShenronServer}

unfoldable pub default_host_key_path : Text
default_host_key_path = text "id_ed25519"

-- `shutdown` says whether a signal is set.
pub record Server (K P C V : Type 0) : Type 0 where
  pub addr : Option Text
  pub keys : List K
  pub middleware : List (Middleware P V)
  pub auth : AuthConfig P C V
  pub shutdown : Bool
  pub auth_rejection_delay : Option ℕ
  pub auth_rejection_delay_initial : Option ℕ
  pub inactivity_timeout : Option ℕ
  pub banner : Option Text
  pub keepalive_interval : Option ℕ
  pub keepalive_max : Option ℕ

-- `russh::server::Config`, in the fields that the source sets.
pub record Config (K : Type 0) : Type 0 where
  pub keys : List K
  pub methods : List MethodKind
  pub auth_rejection_time : ℕ
  pub auth_rejection_time_initial : Option ℕ
  pub inactivity_timeout : Option ℕ
  pub keepalive_interval : Option ℕ
  pub keepalive_max : ℕ

abbrev or_keep : {A : Type 0} → Option A → A → A
or_keep none old = old
or_keep (some new) old = new

abbrev or_keep_some : {A : Type 0} → Option A → Option A → Option A
or_keep_some none old = old
or_keep_some (some new) old = some new

-- The setters, as data.
pub data Setting (K P C V : Type 0) : Type 0 where
  bind : Text → Setting K P C V
  banner : Text → Setting K P C V
  password_auth : (Text → Text → AuthOutcome V) → Setting K P C V
  pubkey_auth : (Text → P → AuthOutcome V) → Setting K P C V
  cert_auth : (Text → C → AuthOutcome V) → Setting K P C V
  keyboard_interactive_auth : (Text → Dialog V) → Setting K P C V
  keepalive_interval keepalive_max : ℕ → Setting K P C V
  auth_rejection_delay auth_rejection_delay_initial inactivity_timeout : ℕ → Setting K P C V
  shutdown_signal : Setting K P C V
  adds_key : K → Setting K P C V
  adds_middleware : Middleware P V → Setting K P C V

pub record Listening (K P C V : Type 0) : Type 0 where
  pub config : Config K
  pub addr : Text
  pub server : ShenronServer P C V

module _ {K P C V : Type 0} where
  unfoldable pub new : Server K P C V
  new = record {
    addr = none;
    keys = [];
    middleware = [];
    auth = record { password = none; pubkey = none; cert = none; keyboard_interactive = none };
    shutdown = false;
    auth_rejection_delay = none;
    auth_rejection_delay_initial = none;
    inactivity_timeout = none;
    banner = none;
    keepalive_interval = none;
    keepalive_max = none;
  }

  -- `Server::host_key`, and the calls that read a key first.
  unfoldable pub host_key : K → Server K P C V → Server K P C V
  host_key key s = record s { keys = s.keys ++ key ∷ [] }

  unfoldable pub host_key_read : Result Error K → Server K P C V → Result Error (Server K P C V)
  host_key_read (ok key) s = ok (host_key key s)
  host_key_read (err e) s = err e

  -- `Server::with` and `Server::app`
  unfoldable pub with_middleware : Middleware P V → Server K P C V → Server K P C V
  with_middleware m s = record s { middleware = s.middleware ++ m ∷ [] }

  unfoldable pub app : {R : Type 0} ⦃i : IntoExit R⦄ → Task P V R → Server K P C V → Server K P C V
  app run s = with_middleware (terminal run) s

  unfoldable pub set : Setting K P C V → Server K P C V → Server K P C V
  set (bind addr) s = record s { addr = some addr }
  set (banner b) s = record s { banner = some b }
  set (password_auth f) s = record s { auth = record s.auth { password = some f } }
  set (pubkey_auth f) s = record s { auth = record s.auth { pubkey = some f } }
  set (cert_auth f) s = record s { auth = record s.auth { cert = some f } }
  set (keyboard_interactive_auth f) s = record s {
    auth = record s.auth { keyboard_interactive = some f };
  }
  set (keepalive_interval n) s = record s { keepalive_interval = some n }
  set (keepalive_max n) s = record s { keepalive_max = some n }
  set (auth_rejection_delay n) s = record s { auth_rejection_delay = some n }
  set (auth_rejection_delay_initial n) s = record s { auth_rejection_delay_initial = some n }
  set (inactivity_timeout n) s = record s { inactivity_timeout = some n }
  set shutdown_signal s = record s { shutdown = true }
  set (adds_key key) s = host_key key s
  set (adds_middleware m) s = with_middleware m s

  -- `Server::config`, from russh's default.
  unfoldable pub config_of : Config K → Server K P C V → Config K
  config_of default s = record {
    keys = s.keys;
    methods = methods s.auth;
    auth_rejection_time = or_keep s.auth_rejection_delay default.auth_rejection_time;
    auth_rejection_time_initial =
        or_keep_some s.auth_rejection_delay_initial default.auth_rejection_time_initial;
    inactivity_timeout = or_keep_some s.inactivity_timeout default.inactivity_timeout;
    keepalive_interval = s.keepalive_interval;
    keepalive_max = or_keep s.keepalive_max default.keepalive_max;
  }

  -- A default key where there is none; `load` is `keygen::load_or_generate`.
  unfoldable pub with_key :
      (Text → Result Error K) → List K → Server K P C V → Result Error (Server K P C V)
  with_key load [] s = host_key_read (load default_host_key_path) s
  with_key load (k ∷ ks) s = ok s

  unfoldable pub listen_on :
      Config K → Option Text → Server K P C V → Result Error (Listening K P C V)
  listen_on default none s = err (config (text "No bind address specified"))
  listen_on default (some addr) s = ok (record {
    config = config_of default s;
    addr = addr;
    server = record { handler = build_chain s.middleware; auth = s.auth; banner = s.banner };
  })

  unfoldable pub listen_with :
      Config K → Result Error (Server K P C V) → Result Error (Listening K P C V)
  listen_with default (err e) = err e
  listen_with default (ok s) = listen_on default s.addr s

  -- `serve`, up to the listener.
  unfoldable pub prepare :
      (Text → Result Error K) → Config K → Server K P C V → Result Error (Listening K P C V)
  prepare load default s = listen_with default (with_key load s.keys s)

  -- How `serve` ends, once it listens: as the listener does, or by the shutdown signal.
  pub data Ends (run : Listening K P C V → Result Error (Unit {0})) (s : Server K P C V)
      (l : Listening K P C V) : Result Error (Unit {0}) → Type 0 where
    listener_ends : Ends run s l (run l)
    shut_down : s.shutdown ≡ true → Ends run s l (ok tt)
