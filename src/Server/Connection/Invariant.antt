-- ===== src/Server/Connection/Invariant.antt =====
-- What holds of a connection at every moment: its sessions are bounded and counted, and run as
-- the user that was accepted.
use shenron.Common.{
  ◌+◌, ◌≤◌, true, false, Option, none, some, List, [], ◌∷◌, ◌++◌, ◌≡◌, refl, Text, arith, is_some,
  length, length-append, All, sym, ◌∙◌, ap, subst, nat_eq,
}
use shenron.Error.{Error, Result}
use shenron.HashMap.{AllValues}
use shenron.Session.{Session, SocketAddr}
use shenron.Server.{ShenronHandler, ShenronServer, Verdict, new_client, max_sessions}
use shenron.Server.Channels.{drop_guard}
use shenron.Server.Connection.{
  Attempt, Connection, connect, after_attempt, after_request, Step, attempts, requests, task_ends,
  Reach, here, next,
}
use shenron.Server.Connection.Attempts.{Keeps, attempt-Keeps}
use shenron.Server.Connection.Requests.{IsBounded, Serves, request-Serves}

All-drop {ℓ} :
    {P V : Type 0} (Q : Session P V → Type ℓ) (before later : List (Session P V)) (t : Session P V)
    → All Q (before ++ t ∷ later)
    → All Q (before ++ later)
All-drop Q [] later t h = h.1
All-drop Q (s ∷ before) later t h = (h.0, All-drop Q before later t h.1)

module _ {P C V : Type 0} where
  pub record Inv (c : Connection P C V) : Type 0 where
    pub bounded : length c.handler.pending + c.handler.running ≤ max_sessions
    pub counted : c.handler.running ≡ length c.tasks
    pub envs : AllValues IsBounded c.handler.pending
    pub gate :
        c.authenticated ≡ true
        → (is_some c.handler.user ≡ true) × (is_some c.handler.remote_addr ≡ true)
    pub idle : c.authenticated ≡ false → c.tasks ≡ []
    pub owners : All (λ t. some t.user ≡ c.handler.user) c.tasks

  connect-Inv :
      (server : ShenronServer P C V) (addr : Option SocketAddr) → Inv (connect server addr)
  unfolding connect new_client
  connect-Inv server addr = ground arith

  attempt-Inv :
      (c : Connection P C V) (user : Text) (a : Attempt P C)
      (out : ShenronHandler P C V × Result Error Verdict)
      → c.authenticated ≡ false
      → Keeps c.handler user out
      → Inv c
      → Inv (after_attempt c user a out)
  attempt-Inv c user a (h, r) fresh k v = record {
    bounded = omega (arith, k.running, v.bounded, ap length k.pending);
    counted = omega (arith, k.running, v.counted);
    envs = subst (AllValues IsBounded) (sym k.pending) v.envs;
    gate = λ e. ground (arith, k.accepts e, k.remote_addr);
    idle = λ e. v.idle fresh;
    owners = subst (All _) (sym (v.idle fresh)) tt;
  }

  request-Inv :
      (c : Connection P C V) (out : ShenronHandler P C V × Option (Session P V))
      → c.authenticated ≡ true
      → Serves c.handler out
      → Inv c
      → Inv (after_request c out)
  request-Inv c (h, none) auth k v = record {
    bounded = k.bounded v.bounded;
    counted = omega (arith, k.counted, v.counted);
    envs = k.envs v.envs;
    gate = λ e. ground (arith, v.gate auth, k.user, k.remote_addr);
    idle = λ e. ground (arith, auth, e);
    owners = subst (λ u. All (λ t. some t.user ≡ u) c.tasks) (sym k.user) v.owners;
  }
  request-Inv c (h, some session) auth k v = record {
    bounded = k.bounded v.bounded;
    counted = omega (arith, k.counted, v.counted);
    envs = k.envs v.envs;
    gate = λ e. ground (arith, v.gate auth, k.user, k.remote_addr);
    idle = λ e. ground (arith, auth, e);
    owners = (
      ground (arith, k.owner session refl, v.gate auth, k.user),
      subst (λ u. All (λ t. some t.user ≡ u) c.tasks) (sym k.user) v.owners,
    );
  }

  ends-Inv :
      (c : Connection P C V) (before later : List (Session P V)) (t : Session P V)
      → c.tasks ≡ before ++ t ∷ later
      → Inv c
      → Inv (record c { handler = drop_guard c.handler; tasks = before ++ later })
  unfolding drop_guard
  ends-Inv c before later t e v = record {
    bounded = omega (arith, v.bounded);
    counted = omega (
      arith,
      v.counted,
      ap length e,
      length-append before (t ∷ later),
      length-append before later,
    );
    envs = v.envs;
    gate = v.gate;
    idle = λ fresh.
        absurd (omega (arith, ap length (sym e ∙ v.idle fresh), length-append before (t ∷ later)));
    owners = All-drop _ before later t (subst (All _) e v.owners);
  }

module _ {P C V : Type 0} (inner_key : C → P) where
  Step-Inv : {c d : Connection P C V} → Step inner_key c d → Inv c → Inv d
  Step-Inv (attempts c user a fresh cont) v =
      attempt-Inv c user a _ fresh (attempt-Keeps inner_key user a c.handler) v
  Step-Inv (requests c r s auth) v = request-Inv c _ auth (request-Serves r s c.handler) v
  Step-Inv (task_ends c before later t e) v = ends-Inv c before later t e v

  Reach-Inv : {c d : Connection P C V} → Inv c → Reach inner_key c d → Inv d
  Reach-Inv v here = v
  Reach-Inv v (next r st) = Step-Inv st (Reach-Inv v r)

  -- From its start, whatever a client and the spawned tasks do, a connection has at most
  -- `max_sessions` pending and running sessions together, counts the running tasks exactly, holds
  -- at most `max_env_vars` variables for each pending channel, has no task before authentication,
  -- has a user and an address after it, and runs every task as that user.
  pub Reach-connect-Inv :
      (server : ShenronServer P C V) (addr : Option SocketAddr) {c : Connection P C V}
      → Reach inner_key (connect server addr) c
      → Inv c
  Reach-connect-Inv server addr r = Reach-Inv (connect-Inv server addr) r
