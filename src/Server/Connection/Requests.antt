-- ===== src/Server/Connection/Requests.antt =====
-- What one channel request changes.
use shenron.Common.{
  ℕ, ◌+◌, ◌≤◌, false, Option, none, some, [], ◌≡◌, inl, inr, Text, text, leb, arith, Option-cases,
  Bool-cases, length, nat_eq, text_eq, unwrap_or,
}
use shenron.HashMap
use shenron.HashMap.{HashMap, AllValues}
use shenron.Channel.{Channel, PtySize}
use shenron.Session
use shenron.Session.{Session, SessionKind}
use shenron.Server.{ShenronHandler, PendingChannel, max_sessions, max_env_vars}
use shenron.Server.Channels.{
  RusshSession, channel_open_session, channel_close, env_request, pty_request, exec_request,
  shell_request, subsystem_request, start_request,
}
use shenron.Server.Connection.{
  Request, open_channel, close, env, pty, exec, shell, subsystem, request, spawned_by,
}

-- The stored environment of a channel is bounded.
abbrev pub IsBounded : PendingChannel → Type 0
IsBounded p = length p.env ≤ max_env_vars

abbrev pub spawn_count : {A : Type 0} → Option A → ℕ
spawn_count none = 0
spawn_count (some a) = 1

env-IsBounded :
    (p : PendingChannel) (name value : Text)
    → leb max_env_vars (length p.env) ≡ false
    → IsBounded (record p { env = HashMap.insert name value p.env })
env-IsBounded p name value h = ground (arith, HashMap.length-insert name value p.env)

module _ {P C V : Type 0} where
  pub record Serves (h : ShenronHandler P C V) (out : ShenronHandler P C V × Option (Session P V))
      : Type 0 where
    pub user : out.0.user ≡ h.user
    pub remote_addr : out.0.remote_addr ≡ h.remote_addr
    pub auth : out.0.auth ≡ h.auth
    pub kbi : out.0.kbi ≡ h.kbi
    pub counted : out.0.running ≡ h.running + spawn_count out.1
    pub bounded :
        length h.pending + h.running ≤ max_sessions
        → length out.0.pending + out.0.running ≤ max_sessions
    pub envs : AllValues IsBounded h.pending → AllValues IsBounded out.0.pending
    pub owner : (t : Session P V) → out.1 ≡ some t → t.user ≡ unwrap_or h.user (text "unknown")

  open-Serves :
      (h : ShenronHandler P C V) (ch : Channel) (s : RusshSession)
      → Serves h (request (open_channel ch) s h)
  unfolding request channel_open_session
  open-Serves h ch s = ground (
    arith,
    HashMap.length-insert ch.id (record { channel = ch; env = []; pty = none }) h.pending,
    HashMap.insert-AllValues IsBounded ch.id (record { channel = ch; env = []; pty = none })
        h.pending,
  )

  close-Serves :
      (h : ShenronHandler P C V) (id : ℕ) (s : RusshSession) → Serves h (request (close id) s h)
  unfolding request channel_close
  close-Serves h id s = ground (
    arith,
    HashMap.length-remove-le id h.pending,
    HashMap.remove-AllValues IsBounded id h.pending,
  )

  update-Serves :
      (h : ShenronHandler P C V) (id : ℕ) (p q : PendingChannel)
      → HashMap.get id h.pending ≡ some p
      → (IsBounded p → IsBounded q)
      → Serves h (record h { pending = HashMap.insert id q h.pending }, none)
  update-Serves h id p q e k = ground (
    arith,
    HashMap.length-insert id q h.pending,
    HashMap.insert-AllValues IsBounded id q h.pending,
    HashMap.get-AllValues IsBounded id h.pending {v = p},
  )

  same-Serves : (h : ShenronHandler P C V) → Serves h (h, none)
  same-Serves h = ground arith

  env-Serves :
      (h : ShenronHandler P C V) (id : ℕ) (name value : Text) (s : RusshSession)
      → Serves h (request (env id name value) s h)
  unfolding request env_request
  env-Serves h id name value s = elim (Option-cases (HashMap.get id h.pending)) [
    | inl e ↦ rw (e, env_request) (same-Serves h)
    | inr (p, e) ↦ elim (Bool-cases (leb max_env_vars (length p.env))) [
      | inl full ↦ rw (e, env_request, full) (same-Serves h)
      | inr room ↦
          rw (e, env_request, room)
            (update-Serves h id p _ e (λ _. env-IsBounded p name value room))
    ]
  ]

  pty-Serves :
      (h : ShenronHandler P C V) (id : ℕ) (term : Text) (size : PtySize) (s : RusshSession)
      → Serves h (request (pty id term size) s h)
  unfolding request pty_request
  pty-Serves h id term size s = elim (Option-cases (HashMap.get id h.pending)) [
    | inl e ↦ rw (e, pty_request) (same-Serves h)
    | inr (p, e) ↦ rw (e, pty_request) (update-Serves h id p _ e (λ b. b))
  ]

  start-Serves :
      (h : ShenronHandler P C V) (id : ℕ) (kind : SessionKind) (s : RusshSession)
      → Serves h (spawned_by (start_request id kind h s))
  unfolding start_request spawned_by Session.new
  start-Serves h id kind s = elim (Option-cases (HashMap.get id h.pending)) [
    | inl e ↦ ground (arith, e)
    | inr (p, e) ↦ ground (
      arith,
      HashMap.length-remove-lt id h.pending e,
      HashMap.remove-AllValues IsBounded id h.pending,
    )
  ]

  pub request-Serves :
      (r : Request) (s : RusshSession) (h : ShenronHandler P C V) → Serves h (request r s h)
  unfolding request exec_request shell_request subsystem_request
  request-Serves (open_channel ch) s h = open-Serves h ch s
  request-Serves (close id) s h = close-Serves h id s
  request-Serves (env id name value) s h = env-Serves h id name value s
  request-Serves (pty id term size) s h = pty-Serves h id term size s
  request-Serves (exec id bytes) s h = start-Serves h id _ s
  request-Serves (shell id) s h = start-Serves h id _ s
  request-Serves (subsystem id name) s h = start-Serves h id _ s
