-- ===== src/Server/Connection/Arrival.antt =====
-- src/server/russh.rs: what a client and an authentication handler said, in the session that an
-- application gets.
use shenron.Common.{
  ℕ, ◌≤◌, ◌≡◌, refl, sym, ◌∙◌, ap, subst, Bool, true, false, Option, none, some, List, [], Text,
  text, nat_eq, text_eq, length, is_some, unwrap_or, arith, if◌then◌else◌, ◌+◌, leb, beq_refl,
}
use shenron.Error.{Error, Result, ok}
use shenron.HashMap
use shenron.HashMap.{HashMap, or_else}
use shenron.Extensions
use shenron.Extensions.{Extensions}
use shenron.Extensions.Laws.{IsTyped, get-merge, merge-default}
use shenron.Channel.{Channel}
use shenron.Session
use shenron.Session.{Session, SessionKind, SocketAddr}
use shenron.Auth.{AuthConfig, AuthOutcome, is_empty}
use shenron.Server.{
  ShenronHandler, Verdict, consult, finish_auth, conclude_auth, auth_none, auth_publickey,
  auth_openssh_certificate, auth_password, max_env_vars, max_sessions,
}
use shenron.Server.Channels.{RusshSession, channel_open_session, start_request}
use shenron.Server.Channels.Setups.{
  Setup, last_value, last_terminal, set_up_all, Keeps, set_up_all-Asked, set_up_all-Keeps,
}
use shenron.Server.Channels.Started.{start_request-Starts}
use shenron.Server.Connection.{
  Attempt, by_none, by_key, by_cert, by_password, by_answers, accepted_by, is_accept, attempt,
}
use shenron.Server.Connection.Open.{TakesOneRound}

-- The key that an attempt leaves with the connection.
abbrev pub key_after : {P C : Type 0} → (C → P) → Option P → Attempt P C → Option P
key_after inner_key old (by_key key) = some key
key_after inner_key old (by_cert cert) = some (inner_key cert)
key_after inner_key old _ = old

-- A handler is configured for the key or the certificate that an attempt presents.
abbrev pub HasHandler : {P C V : Type 0} → AuthConfig P C V → Attempt P C → Type 0
HasHandler auth (by_key key) = is_some auth.pubkey ≡ true
HasHandler auth (by_cert cert) = is_some auth.cert ≡ true
HasHandler auth _ = Unit

-- What is known of a session that was started.
pub record Arrives {P V : Type 0} (channel : Channel) (kind : SessionKind) (setups : List Setup)
    (user : Text) (key : Option P) (given earlier : Extensions V) (session : Session P V)
    : Type 0 where
  pub on_channel : session.channel ≡ some channel
  pub of_kind : session.kind ≡ kind
  pub terminal : session.pty ≡ last_terminal channel.id setups
  pub variables : (name : Text) → HashMap.get name session.env ≡ last_value channel.id name setups
  pub as_user : session.user ≡ user
  pub with_key : session.public_key ≡ key
  pub still_open : session.exited ≡ false
  pub with_attached :
      (t : ℕ)
      → Extensions.get t session.extensions
        ≡ or_else (Extensions.get t given) (Extensions.get t earlier)

or_else-none : {A : Type 0} (o : Option A) → or_else o none ≡ o
or_else-none none = refl
or_else-none (some a) = refl

module _ {P C V : Type 0} where
  -- What the handler of an attempt attaches to the connection.
  abbrev pub attached : AuthConfig P C V → Text → Attempt P C → Extensions V
  attached auth user by_none = Extensions.default
  attached auth user (by_key key) = (consult auth.pubkey user key (is_empty auth)).extensions
  attached auth user (by_cert cert) = (consult auth.cert user cert (is_empty auth)).extensions
  attached auth user (by_password password) =
      (consult auth.password user password (is_empty auth)).extensions
  attached auth user (by_answers response) = Extensions.default

  abbrev Holds :
      Text → Option P → Extensions V → ShenronHandler P C V × Result Error Verdict → Type 0
  Holds user key ext (h, v) = (h.user ≡ some user) × (h.public_key ≡ key) × (h.extensions ≡ ext)

  finish-Holds :
      (user : Text) (b : Bool) (h : ShenronHandler P C V)
      → is_accept (ok (finish_auth user b h).1) ≡ true
      → (b ≡ true) × Holds user h.public_key h.extensions (accepted_by (finish_auth user b h))
  unfolding finish_auth accepted_by
  finish-Holds user b h e = ground (arith, e)

  granted-Holds :
      (user : Text) (b : Bool) (given h : ShenronHandler P C V)
      → is_accept (ok (finish_auth user b (if b then given else h)).1) ≡ true
      → Holds user given.public_key given.extensions
          (accepted_by (finish_auth user b (if b then given else h)))
  granted-Holds user true given h e = (finish-Holds user true given e).1
  granted-Holds user false given h e =
      absurd (let f = (finish-Holds user false h e).0 in ground (arith, f))

  conclude-Holds :
      (user : Text) (key : Option P) (outcome : AuthOutcome V) (h : ShenronHandler P C V)
      → is_accept (ok (conclude_auth user key outcome h).1) ≡ true
      → Holds user key
          (Extensions.merge h.extensions outcome.extensions)
          (accepted_by (conclude_auth user key outcome h))
  unfolding conclude_auth
  conclude-Holds user key outcome h e =
      granted-Holds user outcome.accepted
        (record h {
          public_key = key;
          extensions = Extensions.merge h.extensions outcome.extensions;
        })
        h e

  -- What an accepted attempt of one round leaves with the connection.
  attempt-Holds :
      (inner_key : C → P) (user : Text) (a : Attempt P C) (h : ShenronHandler P C V)
      → TakesOneRound a
      → is_accept (attempt inner_key user a h).1 ≡ true
      → Holds user
          (key_after inner_key h.public_key a)
          (Extensions.merge h.extensions (attached h.auth user a))
          (attempt inner_key user a h)
  unfolding attempt auth_none auth_publickey auth_openssh_certificate auth_password accepted_by
  attempt-Holds inner_key user by_none h t e =
      let (b, (c, d, f)) = finish-Holds user (is_empty h.auth) h e in
      (c, d, f ∙ sym (merge-default h.extensions))
  attempt-Holds inner_key user (by_key key) h t e = conclude-Holds user (some key) _ h e
  attempt-Holds inner_key user (by_cert cert) h t e =
      conclude-Holds user (some (inner_key cert)) _ h e
  attempt-Holds inner_key user (by_password password) h t e = conclude-Holds user h.public_key _ h e
  attempt-Holds inner_key user (by_answers response) h t e = elim t [ ]

  abbrev fresh : Channel → ShenronHandler P C V → ShenronHandler P C V
  fresh channel h = record h {
    pending =
        HashMap.insert channel.id (record { channel = channel; env = []; pty = none }) h.pending;
  }

  opened_as :
      (channel : Channel) (full : Bool) (h h' : ShenronHandler P C V)
      → (let r : ShenronHandler P C V × Bool =
            if full then (h, false) else (fresh channel h, true) in
          r ≡ (h', true))
      → fresh channel h ≡ h'
  opened_as channel true h h' e = absurd (let f = ap (λ x. x.1) e in ground (arith, f))
  opened_as channel false h h' e = ap (λ x. x.0) e

  -- A channel that was opened is pending without variables and terminal.
  opened :
      (channel : Channel) (h h' : ShenronHandler P C V)
      → channel_open_session channel h ≡ (h', true)
      → (HashMap.get channel.id h'.pending
          ≡ some (record { channel = channel; env = []; pty = none }))
        × Keeps h h'
  unfolding channel_open_session
  opened channel h h' e =
      subst
        (λ x.
          (HashMap.get channel.id x.pending
            ≡ some (record { channel = channel; env = []; pty = none }))
          × Keeps h x)
        (opened_as channel (leb max_sessions (length h.pending + h.running)) h h' e)
        (
          HashMap.get-insert channel.id channel.id
                (record { channel = channel; env = []; pty = none }) h.pending
              ∙ rw (beq_refl channel.id) refl,
          (refl, refl, refl, refl),
        )

  -- After an accepted attempt of one round, for which a handler is configured where it presents a
  -- key or a certificate, a channel that is opened, requests on it and on other channels, no more
  -- of them than variables are kept, and a request that starts a session there:
  -- the session has that channel and kind, the last terminal and the last value of each variable
  -- that the client sent for the channel, the user and the key of the attempt, and what the handler
  -- attached, on top of what was attached before.
  pub session-Arrives :
      (inner_key : C → P) (user : Text) (a : Attempt P C) (h h₁ h₂ : ShenronHandler P C V)
      (channel : Channel) (setups : List Setup) (s s₂ : RusshSession) (kind : SessionKind)
      (session : Session P V)
      → TakesOneRound a
      → HasHandler h.auth a
      → is_accept (attempt inner_key user a h).1 ≡ true
      → IsTyped (attached h.auth user a)
      → channel_open_session channel (attempt inner_key user a h).0 ≡ (h₁, true)
      → length setups ≤ max_env_vars
      → start_request channel.id kind (set_up_all setups h₁ s).0 (set_up_all setups h₁ s).1
        ≡ (h₂, s₂, ok session)
      → Arrives channel kind setups user
          (key_after inner_key h.public_key a)
          (attached h.auth user a)
          h.extensions
          session
  unfolding Session.new HashMap.get
  session-Arrives inner_key user a h h₁ h₂ channel setups s s₂ kind session one configured accepted
        typed opens room started =
      let (u, k, x) = attempt-Holds inner_key user a h one accepted in
      let (pending, (u₁, k₁, x₁, a₁)) = opened channel (attempt inner_key user a h).0 h₁ opens in
      let (q, asked_for, (c, t, v)) =
        set_up_all-Asked setups channel.id (record { channel = channel; env = []; pty = none }) h₁ s
          pending (omega (arith, room)) in
      let (u₂, k₂, x₂, a₂) = set_up_all-Keeps setups h₁ s in
      let (addr, (known, made)) =
        start_request-Starts kind channel.id (set_up_all setups h₁ s).0 h₂
          (set_up_all setups h₁ s).1 s₂ q session asked_for started in
      record {
        on_channel = ap (λ x. x.channel) made ∙ ap some c;
        of_kind = ap (λ x. x.kind) made;
        terminal = ap (λ x. x.pty) made ∙ t ∙ or_else-none (last_terminal channel.id setups);
        variables = λ name.
            ap (λ x. HashMap.get name x.env) made
            ∙ v name
            ∙ or_else-none (last_value channel.id name setups);
        as_user = ap (λ x. x.user) made ∙ ap (λ o. unwrap_or o (text "unknown")) (u₂ ∙ u₁ ∙ u);
        with_key = ap (λ x. x.public_key) made ∙ (k₂ ∙ k₁ ∙ k);
        still_open = ap (λ x. x.exited) made;
        with_attached = λ n.
            ap (λ x. Extensions.get n x.extensions) made
            ∙ ap (Extensions.get n) (x₂ ∙ x₁ ∙ x)
            ∙ get-merge n h.extensions (attached h.auth user a) typed;
      }
