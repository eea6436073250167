-- ===== src/Middleware/Builtins/Guards.antt =====
-- src/middleware/builtins/access_control.rs, comment.rs and recover.rs: what they let through.
use shenron.Common.{
  true, false, Option, none, some, List, [], ◌∷◌, ◌≡◌, refl, sym, ◌∙◌, ap, Text, text, arith, ◌⊎◌,
  inl, inr, any, text_eq, text_beq_iff, ◌==◌, Option-cases, Bool-cases,
}
use shenron.Error.{protocol, Error, Result, ok, err, panic}
use shenron.Exit.{Exit, code, error, exit_exit, result_exit, result_into_exit, exit_code}
use shenron.Session.{
  raw_command, write_str, command, write_stderr_str, write, send_on, channel_unavailable,
}
use shenron.Task.{
  Handler, Frame, Flow, returned, panicked, pure, await, on_session, continue, log_line,
  handler_panicked, or_return, erase, run_ok, str_payload, string_payload, other_payload,
}
use shenron.Middleware.Builtins.{
  AccessControl, permits, is_allowed, access_control_on, comment, comment_handle, guard, refuse,
  not_allowed, access_control, access_control_handle, recover, catch, panic_message,
}

-- The command that the list of `AccessControl` allows.
abbrev pub IsListed : Text → List Text → Type 0
IsListed program [] = ⊥
IsListed program (t ∷ ts) = (t ≡ program) ⊎ IsListed program ts

any-IsListed :
    (program : Text) (ts : List Text)
    → IsListed program ts
    → any (λ allowed. allowed == program) ts ≡ true
any-IsListed program [] l = elim l [ ]
any-IsListed program (t ∷ ts) (inl e) = ground (arith, text_beq_iff t program)
any-IsListed program (t ∷ ts) (inr l) =
    ground (arith, text_beq_iff t program, any-IsListed program ts l)

IsListed-any :
    (program : Text) (ts : List Text)
    → any (λ allowed. allowed == program) ts ≡ true
    → IsListed program ts
IsListed-any program [] e = absurd (cc)
IsListed-any program (t ∷ ts) e = elim (Bool-cases (t == program)) [
  | inl same ↦ inl ((text_beq_iff t program).0 same)
  | inr other ↦ inr (IsListed-any program ts (ground (arith, e, other)))
]

permits-IsListed :
    (ac : AccessControl) (program : Text) (args : List Text)
    → IsListed program ac.allowed
    → permits ac (some (program ∷ args)) ≡ true
unfolding permits is_allowed
permits-IsListed ac program args l = any-IsListed program ac.allowed l

permits-false :
    (ac : AccessControl) (argv : Option (List Text))
    → ((program : Text) (args : List Text)
        → argv ≡ some (program ∷ args)
        → ¬ IsListed program ac.allowed)
    → permits ac argv ≡ false
unfolding permits is_allowed
permits-false ac none h = refl
permits-false ac (some []) h = refl
permits-false ac (some (program ∷ args)) h = elim (Bool-cases (is_allowed ac program)) [
  | inl listed ↦ absurd (h program args refl (IsListed-any program ac.allowed listed))
  | inr unlisted ↦ unlisted
]

module _ {P V : Type 0} where
  -- `Ok(next.run(session).await)`, made an `Exit` again, is the rest of the chain.
  returned_as_is :
      (out : Frame P V × Flow Exit)
      → continue (λ r. pure (result_into_exit exit_exit r)) (continue (λ exit. pure (ok exit)) out)
        ≡ out
  returned_as_is (f, returned exit) = refl
  returned_as_is (f, panicked p) = refl

  erase-run_ok : (next : Handler P V) (f : Frame P V) → erase (run_ok next) f ≡ next f
  erase-run_ok next f = returned_as_is (next f)

  -- For an `exec` of a command whose program is listed, and for a session that is no `exec`,
  -- `AccessControl` is the rest of the chain.
  pub access_control-runs :
      (split : Text → Option (List Text)) (ac : AccessControl) (next : Handler P V) (f : Frame P V)
      → (raw_command f.session ≡ none)
        ⊎ ((program : Text) × (args : List Text) × (command split f.session ≡ some (program ∷ args))
            × IsListed program ac.allowed)
      → access_control split ac next f ≡ next f
  unfolding access_control access_control_handle access_control_on
  access_control-runs split ac next f (inl e) = rw (e, access_control) (erase-run_ok next f)
  access_control-runs split ac next f (inr (program, args, e, listed)) =
      elim (Option-cases (raw_command f.session)) [
        | inl n ↦ rw (n, access_control) (erase-run_ok next f)
        | inr (raw, n) ↦
            rw (n, access_control)
              (rw (ap (permits ac) e ∙ permits-IsListed ac program args listed)
                (erase-run_ok next f))
      ]

  refuse-exit :
      (r : Result Error (Unit {0})) (f : Frame P V)
      → (exit : Exit) × ((continue
            (λ x. pure (result_into_exit exit_exit x))
            (or_return (λ _. pure (ok (code 1))) r f)).1
          ≡ returned exit)
        × (exit_code exit ≡ 1)
  unfolding exit_code
  refuse-exit (ok _) f = (code 1, refl, refl)
  refuse-exit (err e) f = (error e, refl, refl)

  access_control-refuse :
      (split : Text → Option (List Text)) (ac : AccessControl) (next : Handler P V) (f : Frame P V)
      (raw : Text)
      → raw_command f.session ≡ some raw
      → permits ac (command split f.session) ≡ false
      → access_control split ac next f ≡ erase (refuse raw) f
  unfolding access_control access_control_handle access_control_on
  access_control-refuse split ac next f raw e h = rw (e, access_control) (rw h refl)

  -- For every other `exec`, `AccessControl` does the same whatever follows it in the chain: it
  -- ends with the status 1, also where the refusal cannot be written.
  pub access_control-refuses :
      (split : Text → Option (List Text)) (ac : AccessControl) (next other : Handler P V)
      (f : Frame P V) (raw : Text)
      → raw_command f.session ≡ some raw
      → ((program : Text) (args : List Text)
          → command split f.session ≡ some (program ∷ args)
          → ¬ IsListed program ac.allowed)
      → (access_control split ac next f ≡ access_control split ac other f)
        × (exit : Exit) × ((access_control split ac next f).1 ≡ returned exit)
        × (exit_code exit ≡ 1)
  unfolding refuse
  access_control-refuses split ac next other f raw e h =
      let denied = permits-false ac (command split f.session) h in
      let same = access_control-refuse split ac next f raw e denied in
      let (s, r) = write_stderr_str (not_allowed raw) f.session in
      let (exit, is_exit, is_one) = refuse-exit r (record f { session = s }) in
      (
        same ∙ sym (access_control-refuse split ac other f raw e denied),
        exit,
        ap (λ out. out.1) same ∙ is_exit,
        is_one,
      )

  -- The session and the log after a panic with this message, on the session that began as `f`.
  abbrev pub reported : Frame P V → Text → Frame P V → Frame P V × Flow Exit
  reported f message f' = (
    log_line (handler_panicked f.session.user f.session.remote_addr message) f',
    returned (error (panic message)),
  )

  -- What becomes of the rest of the chain: its exit stays, and its panic is an error.
  abbrev pub recovered : Frame P V → Frame P V × Flow Exit → Frame P V × Flow Exit
  recovered f (f', returned exit) = (f', returned exit)
  recovered f (f', panicked (str_payload message)) = reported f message f'
  recovered f (f', panicked (string_payload message)) = reported f message f'
  recovered f (f', panicked other_payload) = reported f (text "unknown panic payload") f'

  guard-recovered :
      (f : Frame P V) (out : Frame P V × Flow Exit)
      → guard
          (λ message user remote. log_line (handler_panicked user remote message))
          f.session.user
          f.session.remote_addr
          out
        ≡ recovered f out
  unfolding guard panic_message
  guard-recovered f (f', returned exit) = refl
  guard-recovered f (f', panicked (str_payload message)) = refl
  guard-recovered f (f', panicked (string_payload message)) = refl
  guard-recovered f (f', panicked other_payload) = refl

  -- `Recover` never panics. Where the rest of the chain returns it changes nothing; where it panics
  -- the session stays as the panic left it, the log gets one line with the user, the address and
  -- the message, and the exit is an error with the message: the text of a panic with a string of
  -- either kind, and a fixed text for any other.
  pub recover-recovered :
      (next : Handler P V) (f : Frame P V) → recover next f ≡ recovered f (next f)
  unfolding recover catch
  recover-recovered next f = guard-recovered f (next f)

  commented :
      (message : Text) (exit : Exit) (f : Frame P V)
      → f.session.channel ≡ none
      → (continue
          (λ r. pure (result_into_exit exit_exit r))
          (continue
            (or_return
              (λ exit. await (on_session (write_str message)) (or_return (λ _. pure (ok exit)))))
            (f, returned (ok exit)))).1
        ≡ returned (error (protocol channel_unavailable))
  unfolding write_str write send_on
  commented message exit f n = ground (arith, n)

  -- `Comment` around a middleware that took the channel, as the SFTP server does, turns its exit
  -- into an error, since the message cannot be written.
  pub comment-unavailable :
      (message : Text) (next : Handler P V) (f f' : Frame P V) (exit : Exit)
      → next f ≡ (f', returned exit)
      → f'.session.channel ≡ none
      → (comment message next f).1 ≡ returned (error (protocol channel_unavailable))
  unfolding comment comment_handle
  comment-unavailable message next f f' exit e n =
      ap
        (λ out.
          (continue (λ r. pure (result_into_exit exit_exit r))
            (continue
              (or_return
                (λ exit. await (on_session (write_str message)) (or_return (λ _. pure (ok exit)))))
              (continue (λ exit. pure (ok exit)) out))).1)
        e
      ∙ commented message exit f' n
