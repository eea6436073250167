-- ===== src/Session/Finish.antt =====
-- src/session/core.rs: `finish`, and `abort` before it.
use mathlib.Core.List.{append_assoc}
use shenron.Common.{
  ℕ, true, false, Option, none, some, List, [], ◌∷◌, ◌++◌, ◌≡◌, refl, ◌∙◌, ap, arith,
}
use shenron.Error.{ok}
use shenron.Channel.{Channel, Outgoing, exit_status, eof_out, close_out, send}
use shenron.Session.{Session, finish, abort, close_down}

-- A channel that takes every message.
abbrev pub IsOpen : Channel → Type 0
IsOpen ch = (n : ℕ) → ch.refuses n ≡ false

abbrev pub sent_on : Option Channel → List Outgoing
sent_on none = []
sent_on (some ch) = ch.sent

abbrev pub closing : ℕ → List Outgoing
closing n = exit_status n ∷ eof_out ∷ close_out ∷ []

send-IsOpen :
    (m : Outgoing) (ch : Channel)
    → IsOpen ch
    → ((send m ch).0.sent ≡ ch.sent ++ m ∷ []) × ((send m ch).1 ≡ ok tt) × IsOpen (send m ch).0
unfolding send
send-IsOpen m ch h = (
  ground (arith, h ch.attempts),
  ground (arith, h ch.attempts),
  λ n. ground (arith, h n, h ch.attempts),
)

pub close_down-IsOpen :
    (n : ℕ) (ch : Channel)
    → IsOpen ch
    → ((close_down n ch).0.sent ≡ ch.sent ++ closing n) × ((close_down n ch).1 ≡ ok tt)
unfolding close_down
close_down-IsOpen n ch h =
    let (s₁, r₁, h₁) = send-IsOpen (exit_status n) ch h in
    let ch₁ = (send (exit_status n) ch).0 in
    let (s₂, r₂, h₂) = send-IsOpen eof_out ch₁ h₁ in
    let ch₂ = (send eof_out ch₁).0 in
    let (s₃, r₃, h₃) = send-IsOpen close_out ch₂ h₂ in
    (
      rw (r₁, close_down)
          (rw r₂ (
            s₃
            ∙ ap (λ xs. xs ++ close_out ∷ []) (s₂ ∙ ap (λ xs. xs ++ eof_out ∷ []) s₁)
            ∙ append_assoc (ch.sent ++ exit_status n ∷ []) _ _
            ∙ append_assoc ch.sent _ _)),
      rw (r₁, close_down) (rw r₂ r₃),
    )

module _ {P V : Type 0} where
  pub finish-down :
      (n : ℕ) (s : Session P V) (ch : Channel)
      → s.exited ≡ false
      → s.channel ≡ some ch
      → finish n s
        ≡ (record s { exited = true; channel = some (close_down n ch).0 }, (close_down n ch).1)
  unfolding finish
  finish-down n s ch fresh e = rw (fresh, finish) (rw e refl)

  pub finish-exited : (n : ℕ) (s : Session P V) → s.exited ≡ true → finish n s ≡ (s, ok tt)
  unfolding finish
  finish-exited n s done = rw (done, finish) refl

  -- On an open channel that was not finished, `finish` sends the exit status, the end of the
  -- output and the close, in this order, and succeeds; after it, a further `finish` or `abort`,
  -- with any code, sends nothing and succeeds.
  pub finish-finish :
      (n m : ℕ) (s : Session P V) (ch : Channel)
      → s.exited ≡ false
      → s.channel ≡ some ch
      → IsOpen ch
      → (sent_on (finish n s).0.channel ≡ ch.sent ++ closing n)
        × ((finish n s).1 ≡ ok tt)
        × (finish m (finish n s).0 ≡ ((finish n s).0, ok tt))
        × (abort m (finish n s).0 ≡ ((finish n s).0, ok tt))
  unfolding abort
  finish-finish n m s ch fresh e h =
      let (sent, good) = close_down-IsOpen n ch h in
      let down = finish-down n s ch fresh e in
      (
        ap (λ out. sent_on out.0.channel) down ∙ sent,
        ap (λ out. out.1) down ∙ good,
        finish-exited m (finish n s).0 (ap (λ out. out.0.exited) down),
        finish-exited m (finish n s).0 (ap (λ out. out.0.exited) down),
      )
