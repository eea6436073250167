-- ===== src/Server/Connection/Grants.antt =====
-- Who gets in: a connection is authenticated only by a verdict of the configuration.
use shenron.Common.{true, Option, some, ◌≡◌, refl, Text, sym, ◌∙◌, subst}
use shenron.Session.{SocketAddr}
use shenron.Auth.{AuthConfig, is_empty}
use shenron.Server.{
  ShenronHandler, ShenronServer, new_client, consult, auth_none, auth_publickey,
  auth_openssh_certificate, auth_password, auth_keyboard_interactive,
}
use shenron.Server.Connection.{
  Attempt, by_none, by_key, by_cert, by_password, by_answers, Connection, accepted_by, is_accept,
  begun, Continues, attempt, connect, after_attempt, Step, attempts, requests, task_ends, Reach,
  here, next,
}
use shenron.Server.Channels.{drop_guard}
use shenron.Server.Connection.Attempts.{attempt-Keeps}
use shenron.Server.Connection.Requests.{request-Serves}
use shenron.Server.Connection.Dialogs.{
  IsWaiting, none-IsWaiting, conclude_kbi, finish_kbi, round-IsWaiting,
}
use shenron.Server.Connection.Verdicts.{
  Grants, open_server, password_accepts, key_accepts, cert_accepts, grant_by, consult_accepts,
  conclude_accepts, finish_accepts, round_accepts,
}

module _ {P C V : Type 0} where
  -- An accepted attempt is one that the configuration grants.
  attempt_accepts :
      (inner_key : C → P) (user : Text) (a : Attempt P C) (ku : Option Text)
      (h : ShenronHandler P C V)
      → Continues a user ku
      → IsWaiting h.auth.keyboard_interactive ku h.kbi
      → is_accept (attempt inner_key user a h).1 ≡ true
      → Grants h.auth user
  unfolding attempt auth_none auth_publickey auth_openssh_certificate auth_password
      auth_keyboard_interactive accepted_by
  attempt_accepts inner_key user by_none ku h cont w e =
      open_server (finish_accepts user (is_empty h.auth) h e)
  attempt_accepts inner_key user (by_key key) ku h cont w e =
      grant_by (λ verify. key_accepts verify key)
        (consult_accepts h.auth.pubkey user key (is_empty h.auth)
          (conclude_accepts user (some key) (consult h.auth.pubkey user key (is_empty h.auth)) h e))
  attempt_accepts inner_key user (by_cert cert) ku h cont w e =
      grant_by (λ verify. cert_accepts verify cert)
        (consult_accepts h.auth.cert user cert (is_empty h.auth) (
          conclude_accepts user (some (inner_key cert))
            (consult h.auth.cert user cert (is_empty h.auth)) h e))
  attempt_accepts inner_key user (by_password pw) ku h cont w e =
      grant_by (λ verify. password_accepts verify pw)
        (consult_accepts h.auth.password user pw (is_empty h.auth) (
          conclude_accepts user h.public_key (consult h.auth.password user pw (is_empty h.auth)) h
            e))
  attempt_accepts inner_key user (by_answers r) ku h cont w e =
      round_accepts h.auth h.auth.keyboard_interactive user r ku h refl cont w e

  attempt-IsWaiting :
      (inner_key : C → P) (user : Text) (a : Attempt P C) (ku : Option Text)
      (h : ShenronHandler P C V)
      → Continues a user ku
      → IsWaiting h.auth.keyboard_interactive ku h.kbi
      → IsWaiting h.auth.keyboard_interactive (begun a user ku) (attempt inner_key user a h).0.kbi
  unfolding attempt auth_none auth_publickey auth_openssh_certificate auth_password
      auth_keyboard_interactive accepted_by
  attempt-IsWaiting inner_key user by_none ku h cont w =
      subst (IsWaiting h.auth.keyboard_interactive ku) (sym (finish_kbi user _ h)) w
  attempt-IsWaiting inner_key user (by_key key) ku h cont w =
      subst (IsWaiting h.auth.keyboard_interactive ku) (sym (conclude_kbi user _ _ h)) w
  attempt-IsWaiting inner_key user (by_cert cert) ku h cont w =
      subst (IsWaiting h.auth.keyboard_interactive ku) (sym (conclude_kbi user _ _ h)) w
  attempt-IsWaiting inner_key user (by_password pw) ku h cont w =
      subst (IsWaiting h.auth.keyboard_interactive ku) (sym (conclude_kbi user _ _ h)) w
  attempt-IsWaiting inner_key user (by_answers r) ku h cont w =
      round-IsWaiting h.auth.keyboard_interactive user r ku h cont w

  -- The invariant over a connection's life, for the configuration that it was opened with.
  pub record IsGranted (auth : AuthConfig P C V) (c : Connection P C V) : Type 0 where
    pub same : c.handler.auth ≡ auth
    waiting : IsWaiting auth.keyboard_interactive c.kbi_user c.handler.kbi
    granted :
        c.authenticated ≡ true → (user : Text) × (c.handler.user ≡ some user) × Grants auth user

  attempts-IsGranted :
      (inner_key : C → P) (auth : AuthConfig P C V) (c : Connection P C V) (user : Text)
      (a : Attempt P C)
      → Continues a user c.kbi_user
      → IsGranted auth c
      → IsGranted auth (after_attempt c user a (attempt inner_key user a c.handler))
  attempts-IsGranted inner_key auth c user a cont g =
      let k = attempt-Keeps inner_key user a c.handler in
      let w =
        subst (λ x. IsWaiting x.keyboard_interactive c.kbi_user c.handler.kbi) (sym g.same)
          g.waiting in
      record {
        same = k.auth ∙ g.same;
        waiting =
            subst
              (λ x.
                IsWaiting x.keyboard_interactive (begun a user c.kbi_user)
                  (attempt inner_key user a c.handler).0.kbi)
              g.same (attempt-IsWaiting inner_key user a c.kbi_user c.handler cont w);
        granted = λ e. (
          user,
          (k.accepts e).0,
          subst (λ x. Grants x user) g.same
              (attempt_accepts inner_key user a c.kbi_user c.handler cont w e),
        );
      }

  Step-IsGranted :
      (inner_key : C → P) (auth : AuthConfig P C V) {c d : Connection P C V}
      → Step inner_key c d
      → IsGranted auth c
      → IsGranted auth d
  unfolding drop_guard
  Step-IsGranted inner_key auth (attempts c user a fresh cont) g =
      attempts-IsGranted inner_key auth c user a cont g
  Step-IsGranted inner_key auth (requests c r s on) g =
      let k = request-Serves r s c.handler in
      let (user, is_user, grants) = g.granted on in
      record {
        same = k.auth ∙ g.same;
        waiting = subst (IsWaiting auth.keyboard_interactive c.kbi_user) (sym k.kbi) g.waiting;
        granted = λ e. (user, k.user ∙ is_user, grants);
      }
  Step-IsGranted inner_key auth (task_ends c before later t e) g = record {
    same = g.same;
    waiting = g.waiting;
    granted = g.granted;
  }

  pub Reach-IsGranted :
      (inner_key : C → P) (auth : AuthConfig P C V) {c d : Connection P C V}
      → IsGranted auth c
      → Reach inner_key c d
      → IsGranted auth d
  Reach-IsGranted inner_key auth g here = g
  Reach-IsGranted inner_key auth g (next r st) =
      Step-IsGranted inner_key auth st (Reach-IsGranted inner_key auth g r)

  pub connect-IsGranted :
      (server : ShenronServer P C V) (addr : Option SocketAddr)
      → IsGranted server.auth (connect server addr)
  unfolding connect new_client
  connect-IsGranted server addr = record {
    same = refl;
    waiting = none-IsWaiting _ _;
    granted = λ e. absurd (cc);
  }

  -- When a connection is authenticated, its user is one that the server's configuration grants:
  -- the server is open, or a configured password, key or certificate handler accepted that user,
  -- or the keyboard-interactive handler, begun for that user, ran to an accepting verdict.
  pub Reach-Grants :
      (inner_key : C → P) (server : ShenronServer P C V) (addr : Option SocketAddr)
      {c : Connection P C V}
      → Reach inner_key (connect server addr) c
      → c.authenticated ≡ true
      → (user : Text) × (c.handler.user ≡ some user) × Grants server.auth user
  Reach-Grants inner_key server addr r e =
      (Reach-IsGranted inner_key server.auth (connect-IsGranted server addr) r).granted e
