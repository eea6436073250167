-- ===== src/Server/Channels/Started.antt =====
-- src/server/russh.rs: the session that a request starts.
use shenron.Common.{
  ℕ, subst, ◌≡◌, refl, sym, ◌∙◌, ap, true, Option, none, some, text, nat_eq, unwrap_or,
  Option-cases, inl, inr,
}
use shenron.Error.{Error, Result, ok, err}
use shenron.HashMap
use shenron.HashMap.{or_else}
use shenron.Session
use shenron.Session.{Session, SessionKind, SocketAddr}
use shenron.Server.{ShenronHandler, PendingChannel}
use shenron.Server.Channels.{
  RusshSession, start_request, start_session, start_from, run_started, run_replied, reply, without,
}

module _ {P C V : Type 0} where
  -- What a channel and a connection make of a session.
  abbrev made : PendingChannel → SessionKind → ShenronHandler P C V → SocketAddr → Session P V
  made p kind h addr =
      Session.new p.channel kind p.pty (unwrap_or h.user (text "unknown")) h.public_key p.env
        h.extensions addr

  abbrev Starts :
      Session P V → ShenronHandler P C V × RusshSession × Result Error (Session P V) → Type 0
  Starts session (h, s, err e) = Unit
  Starts session (h, s, ok started) = started ≡ session

  run_replied-Starts :
      (session : Session P V) (h : ShenronHandler P C V)
      (out : RusshSession × Result Error (Unit {0}))
      → Starts session (run_replied session h out)
  unfolding run_replied
  run_replied-Starts session h (s, err e) = tt
  run_replied-Starts session h (s, ok _) = refl

  abbrev IsStarted : ShenronHandler P C V × RusshSession × Result Error (Session P V) → Type 0
  IsStarted (h, s, err e) = ⊥
  IsStarted (h, s, ok session) = Unit

  no_address :
      (kind : SessionKind) (id : ℕ) (h : ShenronHandler P C V) (s : RusshSession)
      (p : PendingChannel)
      → IsStarted (run_started id s (start_from id kind (some p) none h))
      → ⊥
  unfolding run_started start_from
  no_address kind id h s p x = x

  known_address :
      (kind : SessionKind) (id : ℕ) (h : ShenronHandler P C V) (s : RusshSession)
      (p : PendingChannel) (addr : SocketAddr)
      → Starts (made p kind h addr) (run_started id s (start_from id kind (some p) (some addr) h))
  unfolding run_started start_from
  known_address kind id h s p addr =
      run_replied-Starts (made p kind h addr) (without id h) (reply id true s)

  start_request-from :
      (kind : SessionKind) (id : ℕ) (h : ShenronHandler P C V) (s : RusshSession)
      (p : PendingChannel) (o : Option SocketAddr)
      → HashMap.get id h.pending ≡ some p
      → h.remote_addr ≡ o
      → run_started id s (start_from id kind (some p) o h) ≡ start_request id kind h s
  unfolding start_request start_session
  start_request-from kind id h s p o e f =
      ap (λ q. run_started id s (start_from id kind q o h)) (sym e)
      ∙ ap (λ o. run_started id s (start_from id kind (HashMap.get id h.pending) o h)) (sym f)

  -- A session that is started is made of its channel and of the connection.
  pub start_request-Starts :
      (kind : SessionKind) (id : ℕ) (h h' : ShenronHandler P C V) (s s' : RusshSession)
      (p : PendingChannel) (session : Session P V)
      → HashMap.get id h.pending ≡ some p
      → start_request id kind h s ≡ (h', s', ok session)
      → (addr : SocketAddr) × ((h.remote_addr ≡ some addr) × (session ≡ made p kind h addr))
  start_request-Starts kind id h h' s s' p session e started = elim (Option-cases h.remote_addr) [
    | inl f ↦ absurd (
        no_address kind id h s p
          (subst IsStarted (sym (start_request-from kind id h s p none e f ∙ started)) tt))
    | inr (addr, f) ↦ (
      addr,
      (
        f,
        subst (Starts (made p kind h addr))
            (start_request-from kind id h s p (some addr) e f ∙ started)
            (known_address kind id h s p addr),
      ),
    )
  ]
