-- ===== src/Server/Connection/Accepting.antt =====
-- src/server/russh.rs: what each attempt rests on, and which attempt let a client in.
use shenron.Common.{
  ℕ, true, false, Option, none, some, List, ◌≡◌, refl, ◌∙◌, subst, Text, ◌⊎◌, inl, inr, ◌↔◌,
  is_some, arith,
}
use shenron.Session.{SocketAddr}
use shenron.Auth.{AuthConfig, AuthOutcome, Dialog, is_empty, from_bool}
use shenron.Server.{
  ShenronHandler, ShenronServer, consult, auth_none, auth_publickey, auth_openssh_certificate,
  auth_password, auth_keyboard_interactive, kbi_round, reply_slot,
}
use shenron.Server.Channels.{drop_guard}
use shenron.Server.Connection.{
  Attempt, by_none, by_key, by_cert, by_password, by_answers, Connection, accepted_by, is_accept,
  attempt, connect, attempts, requests, task_ends, Reach, here, next,
}
use shenron.Server.Connection.Attempts.{attempt-Keeps}
use shenron.Server.Connection.Requests.{request-Serves}
use shenron.Server.Connection.Verdicts.{consult_accepts, conclude_accepts, finish_accepts}
use shenron.Server.Connection.Grants.{Reach-IsGranted, connect-IsGranted}
use shenron.Server.Connection.Open.{TakesOneRound, says, attempt-says}

is_some-none : {A : Type 0} (o : Option A) → is_some o ≡ false → o ≡ none
is_some-none none e = refl
is_some-none (some a) e = absurd (cc)

module _ {P C V : Type 0} where
  -- A server without any handler.
  pub record HasNone (auth : AuthConfig P C V) : Type 0 where
    pub no_password : auth.password ≡ none
    pub no_pubkey : auth.pubkey ≡ none
    pub no_cert : auth.cert ≡ none
    pub no_dialog : auth.keyboard_interactive ≡ none

  -- The handler of a method accepts what the client presents; where it is not configured, no
  -- handler at all is.
  abbrev pub IsAccepted :
      {A : Type 0} → AuthConfig P C V → Option (Text → A → AuthOutcome V) → Text → A → Type 0
  IsAccepted {A} auth config user a =
      ((config ≡ none) × HasNone auth)
      ⊎ ((verify : Text → A → AuthOutcome V) × (config ≡ some verify)
          × ((verify user a).accepted ≡ true))

  -- What an accepted attempt rests on; of a conversation, only that its handler is configured.
  abbrev pub Accepts : AuthConfig P C V → Text → Attempt P C → Type 0
  Accepts auth user by_none = HasNone auth
  Accepts auth user (by_key key) = IsAccepted auth auth.pubkey user key
  Accepts auth user (by_cert cert) = IsAccepted auth auth.cert user cert
  Accepts auth user (by_password password) = IsAccepted auth auth.password user password
  Accepts auth user (by_answers response) =
      (verify : Text → Dialog V) × (auth.keyboard_interactive ≡ some verify)

  is_empty-HasNone : (auth : AuthConfig P C V) → is_empty auth ≡ true → HasNone auth
  unfolding is_empty
  is_empty-HasNone auth e = record {
    no_password = is_some-none auth.password (ground (arith, e));
    no_pubkey = is_some-none auth.pubkey (ground (arith, e));
    no_cert = is_some-none auth.cert (ground (arith, e));
    no_dialog = is_some-none auth.keyboard_interactive (ground (arith, e));
  }

  HasNone-is_empty : (auth : AuthConfig P C V) → HasNone auth → is_empty auth ≡ true
  unfolding is_empty
  HasNone-is_empty auth h = ground (arith, h.no_password, h.no_pubkey, h.no_cert, h.no_dialog)

  accepted-consult :
      {A : Type 0} (auth : AuthConfig P C V) (config : Option (Text → A → AuthOutcome V))
      (user : Text) (a : A)
      → (HasNone auth → config ≡ none)
      → (consult config user a (is_empty auth)).accepted ≡ true
      → IsAccepted auth config user a
  accepted-consult auth config user a without e =
      elim (consult_accepts config user a (is_empty auth) e) [
        | inl empty ↦ let h = is_empty-HasNone auth empty in inl (without h, h)
        | inr accepts ↦ inr accepts
      ]

  consult-accepted :
      {A : Type 0} (auth : AuthConfig P C V) (config : Option (Text → A → AuthOutcome V))
      (user : Text) (a : A)
      → IsAccepted auth config user a
      → (consult config user a (is_empty auth)).accepted ≡ true
  unfolding consult from_bool
  consult-accepted auth config user a (inl (e, h)) =
      rw (e, consult) (rw (HasNone-is_empty auth h) refl)
  consult-accepted auth config user a (inr (verify, e, accepts)) = rw (e, consult) accepts

  kbi_round-config :
      (config : Option (Text → Dialog V)) (user : Text) (r : Option (List (List ℕ)))
      (h : ShenronHandler P C V)
      → is_accept (kbi_round user config r (reply_slot h.kbi) h).1 ≡ true
      → (verify : Text → Dialog V) × (config ≡ some verify)
  unfolding kbi_round accepted_by
  kbi_round-config none user r h e = absurd (cc (finish_accepts user false h e))
  kbi_round-config (some verify) user r h e = (verify, refl)

  accepted-Accepts :
      (inner_key : C → P) (user : Text) (a : Attempt P C) (h : ShenronHandler P C V)
      → is_accept (attempt inner_key user a h).1 ≡ true
      → Accepts h.auth user a
  unfolding attempt auth_none auth_publickey auth_openssh_certificate auth_password
      auth_keyboard_interactive accepted_by
  accepted-Accepts inner_key user by_none h e =
      is_empty-HasNone h.auth (finish_accepts user (is_empty h.auth) h e)
  accepted-Accepts inner_key user (by_key key) h e =
      accepted-consult h.auth h.auth.pubkey user key (λ n. n.no_pubkey)
        (conclude_accepts user (some key) (consult h.auth.pubkey user key (is_empty h.auth)) h e)
  accepted-Accepts inner_key user (by_cert cert) h e =
      accepted-consult h.auth h.auth.cert user cert (λ n. n.no_cert)
        (conclude_accepts user (some (inner_key cert))
          (consult h.auth.cert user cert (is_empty h.auth)) h e)
  accepted-Accepts inner_key user (by_password pw) h e =
      accepted-consult h.auth h.auth.password user pw (λ n. n.no_password)
        (conclude_accepts user h.public_key (consult h.auth.password user pw (is_empty h.auth)) h e)
  accepted-Accepts inner_key user (by_answers r) h e =
      kbi_round-config h.auth.keyboard_interactive user r h e

  Accepts-says :
      (auth : AuthConfig P C V) (user : Text) (a : Attempt P C)
      → TakesOneRound a
      → Accepts auth user a
      → says auth user a ≡ true
  Accepts-says auth user by_none t h = HasNone-is_empty auth h
  Accepts-says auth user (by_key key) t h = consult-accepted auth auth.pubkey user key h
  Accepts-says auth user (by_cert cert) t h = consult-accepted auth auth.cert user cert h
  Accepts-says auth user (by_password pw) t h = consult-accepted auth auth.password user pw h
  Accepts-says auth user (by_answers r) t h = elim t [ ]

  -- With a known address, an attempt of one round is accepted exactly where the configuration says
  -- so: where the handler of its method accepts what is presented, or where the server has no
  -- handler of any kind. The method `none` has no handler of its own.
  pub attempt-Accepts :
      (inner_key : C → P) (user : Text) (a : Attempt P C) (h : ShenronHandler P C V)
      → TakesOneRound a
      → is_some h.remote_addr ≡ true
      → (is_accept (attempt inner_key user a h).1 ≡ true) ↔ Accepts h.auth user a
  attempt-Accepts inner_key user a h t addr = (
    accepted-Accepts inner_key user a h,
    λ accepts. attempt-says inner_key user a h t addr ∙ Accepts-says h.auth user a t accepts,
  )

module _ {P C V : Type 0} {inner_key : C → P} where
  -- An attempt of this user on the way to a connection, which was accepted.
  abbrev pub LetIn : {b c : Connection P C V} → Reach inner_key b c → Text → Attempt P C → Type 0
  LetIn here user a = ⊥
  LetIn (next r (attempts c u tried fresh cont)) user a =
      ((u ≡ user) × (tried ≡ a) × (is_accept (attempt inner_key u tried c.handler).1 ≡ true))
      ⊎ LetIn r user a
  LetIn (next r (requests c q s on)) user a = LetIn r user a
  LetIn (next r (task_ends c before later t e)) user a = LetIn r user a

  -- An authenticated connection has the user of an accepted attempt on the way to it, and the
  -- configuration accepts that attempt.
  abbrev pub IsLetIn :
      {b : Connection P C V} (c : Connection P C V)
      → AuthConfig P C V
      → Reach inner_key b c
      → Type 0
  IsLetIn c auth r =
      (user : Text) × (a : Attempt P C) × LetIn r user a
      × (c.handler.user ≡ some user)
      × Accepts auth user a

module _ {P C V : Type 0} (inner_key : C → P) (server : ShenronServer P C V)
    (addr : Option SocketAddr) where
  pub Reach-IsLetIn :
      {c : Connection P C V} (r : Reach inner_key (connect server addr) c)
      → c.authenticated ≡ true
      → IsLetIn c server.auth r
  unfolding connect drop_guard
  Reach-IsLetIn here e = absurd (cc)
  Reach-IsLetIn (next r (attempts c user a fresh cont)) e =
      let g = Reach-IsGranted inner_key server.auth (connect-IsGranted server addr) r in
      (
        user,
        a,
        inl (refl, refl, e),
        ((attempt-Keeps inner_key user a c.handler).accepts e).0,
        subst (λ x. Accepts x user a) g.same (accepted-Accepts inner_key user a c.handler e),
      )
  Reach-IsLetIn (next r (requests c q s on)) e =
      let (user, a, way, is_user, accepts) = Reach-IsLetIn r on in
      (user, a, way, (request-Serves q s c.handler).user ∙ is_user, accepts)
  Reach-IsLetIn (next r (task_ends c before later t same)) e = Reach-IsLetIn r e
