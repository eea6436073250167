-- ===== src/Server/Channels/Setups.antt =====
-- src/server/russh.rs: what a client asks for on a channel before it starts a session there.
use shenron.Common.{
  ℕ, suc, ◌+◌, ◌≤◌, ◌≡◌, refl, sym, ◌∙◌, ap, Option-cases, Option, none, some, List, [], ◌∷◌, ◌==◌,
  ◌&&◌, if◌then◌else◌, Text, nat_eq, text_eq, length, leb, arith, Bool-cases, inl, inr, lt→leb,
  nat_beq_iff,
}
use shenron.HashMap
use shenron.HashMap.{HashMap, or_else}
use shenron.Channel.{PtySize}
use shenron.Server.{ShenronHandler, PendingChannel, max_env_vars}
use shenron.Server.Channels.{RusshSession, env_request, pty_request}

-- The requests that come before a session: a variable, or a terminal.
pub data Setup : Type 0 where
  variable : ℕ → Text → Text → Setup
  terminal : ℕ → Text → PtySize → Setup

-- The last value that a channel was given for a variable, and its last terminal.
abbrev pub last_value : ℕ → Text → List Setup → Option Text
last_value id name [] = none
last_value id name (variable i n v ∷ setups) =
    or_else (last_value id name setups) (if i == id && n == name then some v else none)
last_value id name (terminal i t size ∷ setups) = last_value id name setups

abbrev pub last_terminal : ℕ → List Setup → Option (Text × PtySize)
last_terminal id [] = none
last_terminal id (variable i n v ∷ setups) = last_terminal id setups
last_terminal id (terminal i t size ∷ setups) =
    or_else (last_terminal id setups) (if i == id then some (t, size) else none)

abbrev with_setup : ℕ → Setup → PendingChannel → PendingChannel
with_setup id (variable i n v) p =
    if i == id then record p { env = HashMap.insert n v p.env } else p
with_setup id (terminal i t size) p = if i == id then record p { pty = some (t, size) } else p

module _ {P C V : Type 0} where
  unfoldable pub set_up :
      Setup → ShenronHandler P C V → RusshSession → ShenronHandler P C V × RusshSession
  set_up (variable id name value) h s = (env_request id name value h, s)
  set_up (terminal id t size) h s = let (h', s', r) = pty_request id t size h s in (h', s')

  unfoldable pub set_up_all :
      List Setup → ShenronHandler P C V → RusshSession → ShenronHandler P C V × RusshSession
  unfolding set_up
  set_up_all [] h s = (h, s)
  set_up_all (setup ∷ setups) h s = let (h', s') = set_up setup h s in set_up_all setups h' s'

  -- The connection is as before, but for its channels.
  abbrev pub Keeps : ShenronHandler P C V → ShenronHandler P C V → Type 0
  Keeps before after =
      (after.user ≡ before.user)
      × (after.public_key ≡ before.public_key)
      × (after.extensions ≡ before.extensions)
      × (after.remote_addr ≡ before.remote_addr)

  env_request-Keeps :
      (i : ℕ) (n v : Text) (h : ShenronHandler P C V) → Keeps h (env_request i n v h)
  unfolding env_request
  env_request-Keeps i n v h = elim (Option-cases (HashMap.get i h.pending)) [
    | inl e ↦ rw (e, env_request) (refl, refl, refl, refl)
    | inr (q, e) ↦ elim (Bool-cases (leb max_env_vars (length q.env))) [
      | inl full ↦ rw (e, env_request, full) (refl, refl, refl, refl)
      | inr room ↦ rw (e, env_request, room) (refl, refl, refl, refl)
    ]
  ]

  pty_request-Keeps :
      (i : ℕ) (t : Text) (size : PtySize) (h : ShenronHandler P C V) (s : RusshSession)
      → Keeps h (pty_request i t size h s).0
  unfolding pty_request
  pty_request-Keeps i t size h s = elim (Option-cases (HashMap.get i h.pending)) [
    | inl e ↦ rw (e, pty_request) (refl, refl, refl, refl)
    | inr (q, e) ↦ rw (e, pty_request) (refl, refl, refl, refl)
  ]

  env_request-pending :
      (i : ℕ) (n v : Text) (id : ℕ) (p : PendingChannel) (h : ShenronHandler P C V)
      → HashMap.get id h.pending ≡ some p
      → suc (length p.env) ≤ max_env_vars
      → HashMap.get id (env_request i n v h).pending ≡ some (with_setup id (variable i n v) p)
  unfolding env_request
  env_request-pending i n v id p h e room = elim (Bool-cases (i == id)) [
    | inl same ↦
        let k = nat_beq_iff i id in
        let f : HashMap.get i h.pending ≡ some p = ground (arith, k, same, e) in
        rw (f, same, env_request)
          (rw (lt→leb (length p.env) max_env_vars room) (
            ground (
              arith,
              k,
              same,
              HashMap.get-insert i id (record p { env = HashMap.insert n v p.env }) h.pending,
            )))
    | inr other ↦ elim (Option-cases (HashMap.get i h.pending)) [
      | inl f ↦ rw (f, env_request, other) e
      | inr (q, f) ↦ ground (
        arith,
        f,
        other,
        e,
        HashMap.get-insert i id (record q { env = HashMap.insert n v q.env }) h.pending,
      )
    ]
  ]

  pty_request-pending :
      (i : ℕ) (t : Text) (size : PtySize) (id : ℕ) (p : PendingChannel) (h : ShenronHandler P C V)
      (s : RusshSession)
      → HashMap.get id h.pending ≡ some p
      → HashMap.get id (pty_request i t size h s).0.pending
        ≡ some (with_setup id (terminal i t size) p)
  unfolding pty_request
  pty_request-pending i t size id p h s e = elim (Option-cases (HashMap.get i h.pending)) [
    | inl f ↦ ground (arith, e, f)
    | inr (q, f) ↦
        ground (arith, e, f, HashMap.get-insert i id (record q { pty = some (t, size) }) h.pending)
  ]

  set_up-pending :
      (setup : Setup) (id : ℕ) (p : PendingChannel) (h : ShenronHandler P C V) (s : RusshSession)
      → HashMap.get id h.pending ≡ some p
      → suc (length p.env) ≤ max_env_vars
      → HashMap.get id (set_up setup h s).0.pending ≡ some (with_setup id setup p)
  unfolding set_up
  set_up-pending (variable i n v) id p h s e room = env_request-pending i n v id p h e room
  set_up-pending (terminal i t size) id p h s e room = pty_request-pending i t size id p h s e

  set_up-Keeps :
      (setup : Setup) (h : ShenronHandler P C V) (s : RusshSession) → Keeps h (set_up setup h s).0
  unfolding set_up
  set_up-Keeps (variable i n v) h s = env_request-Keeps i n v h
  set_up-Keeps (terminal i t size) h s = pty_request-Keeps i t size h s

  pub set_up_all-Keeps :
      (setups : List Setup) (h : ShenronHandler P C V) (s : RusshSession)
      → Keeps h (set_up_all setups h s).0
  unfolding set_up_all
  set_up_all-Keeps [] h s = (refl, refl, refl, refl)
  set_up_all-Keeps (setup ∷ setups) h s =
      let (h', s') = set_up setup h s in
      let (a, b, c, d) = set_up-Keeps setup h s in
      let (e, f, g, k) = set_up_all-Keeps setups h' s' in (e ∙ a, f ∙ b, g ∙ c, k ∙ d)

-- What a channel stands at after the requests on it.
abbrev pub Asked : ℕ → List Setup → PendingChannel → PendingChannel → Type 0
Asked id setups before after =
    (after.channel ≡ before.channel)
    × (after.pty ≡ or_else (last_terminal id setups) before.pty)
    × ((name : Text)
        → HashMap.get name after.env
          ≡ or_else (last_value id name setups) (HashMap.get name before.env))

or_else_assoc : {A : Type 0} (a b c : Option A) → or_else (or_else a b) c ≡ or_else a (or_else b c)
or_else_assoc none b c = refl
or_else_assoc (some x) b c = refl

variable-env :
    (i : ℕ) (n v : Text) (id : ℕ) (p : PendingChannel) (name : Text)
    → HashMap.get name (with_setup id (variable i n v) p).env
      ≡ or_else (if i == id && n == name then some v else none) (HashMap.get name p.env)
variable-env i n v id p name = ground (arith, HashMap.get-insert n name v p.env)

variable-rest :
    (i : ℕ) (n v : Text) (id : ℕ) (p : PendingChannel)
    → ((with_setup id (variable i n v) p).channel ≡ p.channel)
      × ((with_setup id (variable i n v) p).pty ≡ p.pty)
variable-rest i n v id p = ground arith

terminal-rest :
    (i : ℕ) (t : Text) (size : PtySize) (id : ℕ) (p : PendingChannel)
    → ((with_setup id (terminal i t size) p).channel ≡ p.channel)
      × ((with_setup id (terminal i t size) p).env ≡ p.env)
      × ((with_setup id (terminal i t size) p).pty
          ≡ or_else (if i == id then some (t, size) else none) p.pty)
terminal-rest i t size id p = ground arith

with_setup-Asked :
    (setup : Setup) (setups : List Setup) (id : ℕ) (p q : PendingChannel)
    → Asked id setups (with_setup id setup p) q
    → Asked id (setup ∷ setups) p q
with_setup-Asked (variable i n v) setups id p q (a, b, c) =
    let (d, e) = variable-rest i n v id p in
    (
      a ∙ d,
      b ∙ ap (or_else (last_terminal id setups)) e,
      λ name.
          c name
          ∙ ap (or_else (last_value id name setups)) (variable-env i n v id p name)
          ∙ sym (or_else_assoc (last_value id name setups) _ (HashMap.get name p.env)),
    )
with_setup-Asked (terminal i t size) setups id p q (a, b, c) =
    let (d, e, f) = terminal-rest i t size id p in
    (
      a ∙ d,
      b
          ∙ ap (or_else (last_terminal id setups)) f
          ∙ sym (or_else_assoc (last_terminal id setups) _ p.pty),
      λ name. c name ∙ ap (λ env. or_else (last_value id name setups) (HashMap.get name env)) e,
    )

with_setup-room :
    (setup : Setup) (id : ℕ) (p : PendingChannel)
    → length (with_setup id setup p).env ≤ suc (length p.env)
with_setup-room (variable i n v) id p = ground (arith, HashMap.length-insert n v p.env)
with_setup-room (terminal i t size) id p = ground arith

module _ {P C V : Type 0} where
  -- The channel after the requests on it: the variables of the client by their last values, as
  -- long as there are no more requests than variables are kept, and its last terminal.
  pub set_up_all-Asked :
      (setups : List Setup) (id : ℕ) (p : PendingChannel) (h : ShenronHandler P C V)
      (s : RusshSession)
      → HashMap.get id h.pending ≡ some p
      → length p.env + length setups ≤ max_env_vars
      → (q : PendingChannel) × (HashMap.get id (set_up_all setups h s).0.pending ≡ some q)
        × Asked id setups p q
  unfolding set_up_all
  set_up_all-Asked [] id p h s e room = (p, e, (refl, refl, λ name. refl))
  set_up_all-Asked (setup ∷ setups) id p h s e room =
      let (h', s') = set_up setup h s in
      let (q, f, asked) =
        set_up_all-Asked setups id (with_setup id setup p) h' s'
          (set_up-pending setup id p h s e (omega arith))
          (omega (arith, with_setup-room setup id p)) in
      (q, f, with_setup-Asked setup setups id p q asked)
