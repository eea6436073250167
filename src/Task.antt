-- ===== src/Task.antt =====
-- The tasks that serve a session: async code over a borrowed session, which may panic. What the
-- source hands to `tracing`, and to a panic callback, is kept as a log.
use shenron.Common.{ℕ, List, [], ◌∷◌, ◌++◌, Text}
use shenron.Error.{Error, Result, ok, err}
use shenron.Exit.{Exit, IntoExit}
use shenron.Session.{Session, SocketAddr}

-- The payload of a panic: `&'static str`, `String`, or anything else.
pub data Payload : Type 0 where
  str_payload string_payload : Text → Payload
  other_payload : Payload

pub data LogLine : Type 0 where
  session_started : Text → SocketAddr → Text → LogLine
  session_ended : Text → SocketAddr → ℕ → LogLine
  session_error : Text → SocketAddr → Error → LogLine
  handler_panicked : Text → SocketAddr → Text → LogLine
  panic_report : Text → Text → SocketAddr → LogLine
  handler_error : Error → LogLine
  connected_from : Text → SocketAddr → LogLine
  app_line : Text → LogLine
  close_failed : Error → LogLine

-- The borrowed session, and the log so far.
pub record Frame (P V : Type 0) : Type 0 where
  pub session : Session P V
  pub log : List LogLine

pub data Flow (A : Type 0) : Type 0 where
  returned : A → Flow A
  panicked : Payload → Flow A

abbrev pub Task : Type 0 → Type 0 → Type 0 → Type 0
Task P V A = Frame P V → Frame P V × Flow A

-- `ErasedHandler::call`, and `Next::run`.
abbrev pub Handler : Type 0 → Type 0 → Type 0
Handler P V = Task P V Exit

-- What follows an `.await`: a panic unwinds through the caller.
abbrev pub continue : {A B S : Type 0} → (A → S → S × Flow B) → S × Flow A → S × Flow B
continue k (f, returned a) = k a f
continue k (f, panicked p) = (f, panicked p)

module _ {P V : Type 0} where
  abbrev pub pure : {A : Type 0} → A → Task P V A
  pure a f = (f, returned a)

  abbrev pub await : {A B : Type 0} → Task P V A → (A → Task P V B) → Task P V B
  await m k f = continue k (m f)

  abbrev pub or_return :
      {A B : Type 0} → (A → Task P V (Result Error B)) → Result Error A → Task P V (Result Error B)
  or_return k (ok a) = k a
  or_return k (err e) = pure (err e)

  -- `.await?`
  infixl 5 ◌>>=◌ ◌>>◌
  abbrev pub ◌>>=◌ :
      {A B : Type 0}
      → Task P V (Result Error A)
      → (A → Task P V (Result Error B))
      → Task P V (Result Error B)
  m >>= k = await m (or_return k)

  abbrev pub ◌>>◌ :
      {B : Type 0}
      → Task P V (Result Error (Unit {0}))
      → Task P V (Result Error B)
      → Task P V (Result Error B)
  m >> k = m >>= λ _. k

  -- A method of the session.
  abbrev pub on_session : {A : Type 0} → (Session P V → Session P V × A) → Task P V A
  on_session act f = let (s, a) = act f.session in (record f { session = s }, returned a)

  abbrev pub log_line : LogLine → Frame P V → Frame P V
  log_line l f = record f { log = f.log ++ l ∷ [] }

  -- `Ok(next.run(session).await)`
  abbrev pub run_ok : Handler P V → Task P V (Result Error Exit)
  run_ok next = await next (λ exit. pure (ok exit))

  -- `ErasedMiddleware::handle`: the output of a middleware becomes an `Exit`.
  abbrev pub erase : {A : Type 0} ⦃i : IntoExit A⦄ → Task P V A → Handler P V
  erase ⦃i⦄ m = await m (λ a. pure (i.into_exit a))
