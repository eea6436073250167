-- ===== src/Tui/Drawing/Output.antt =====
-- src/tui/core.rs: what reaches the client.
use shenron.Common.{
  ℕ, ◌≡◌, refl, sym, ◌∙◌, ap, subst, Bool, true, false, Option, none, some, List, [], ◌∷◌, ◌++◌,
  ◌&&◌, ◌||◌, not, if◌then◌else◌, append-nil, append_assoc,
}
use shenron.Error.{IoError, Error, Result, ok, err}
use shenron.Channel.{Channel, Outgoing, data_out, send}
use shenron.Session
use shenron.Session.{Session, send_on}
use shenron.Events.Merging
use shenron.Events.Merging.{Events}
use shenron.Tui.Drawing.{
  enters, write_buffer, take_buffer, empty_writer, enter_alt_screen, Tui, Render, write, entering,
  draw, after_frame,
}

abbrev pub payload : Outgoing → List ℕ
payload (data_out bytes) = bytes
payload _ = []

-- The bytes that went to the client.
abbrev pub sent_bytes : List Outgoing → List ℕ
sent_bytes [] = []
sent_bytes (m ∷ ms) = payload m ++ sent_bytes ms

sent_bytes-append :
    (ms : List Outgoing) (bytes : List ℕ)
    → sent_bytes (ms ++ data_out bytes ∷ []) ≡ sent_bytes ms ++ bytes
sent_bytes-append [] bytes = append-nil bytes
sent_bytes-append (m ∷ ms) bytes =
    ap (λ xs. payload m ++ xs) (sent_bytes-append ms bytes)
    ∙ sym (append_assoc (payload m) (sent_bytes ms) bytes)

abbrev sent_on : Option Channel → List ℕ
sent_on none = []
sent_on (some ch) = sent_bytes ch.sent

abbrev AcceptsOn : Option Channel → Type 0
AcceptsOn none = ⊥
AcceptsOn (some ch) = (n : ℕ) → ch.refuses n ≡ false

module _ {P V : Type 0} where
  abbrev pub shown : Session P V → List ℕ
  shown s = sent_on s.channel

  -- The session has its channel, and russh takes every message on it.
  abbrev pub Accepts : Session P V → Type 0
  Accepts s = AcceptsOn s.channel

  abbrev Extends : List ℕ → Session P V × Result Error (Unit {0}) → Type 0
  Extends bytes (s, r) = Accepts s × (shown s ≡ bytes)

  write_on-Extends :
      (bytes : List ℕ) (s : Session P V) (o : Option Channel)
      → s.channel ≡ o
      → AcceptsOn o
      → Extends (sent_on o ++ bytes) (Session.write bytes s)
  unfolding Session.write Session.send_on send
  write_on-Extends bytes s none e h = absurd h
  write_on-Extends bytes s (some ch) e h =
      rw e (rw (h ch.attempts) (h, sent_bytes-append ch.sent bytes))

  pub write-Extends :
      (bytes : List ℕ) (s : Session P V)
      → Accepts s
      → Extends (shown s ++ bytes) (Session.write bytes s)
  write-Extends bytes s h = write_on-Extends bytes s s.channel refl h

-- The bytes of a rendering.
abbrev pub given : {T : Type 0} → T × (List ℕ × Result IoError (Unit {0})) → List ℕ
given (t, (bytes, r)) = bytes

module _ {P V M T : Type 0} where
  -- What went to the client, and what waits in the writer.
  abbrev pub total : Tui P V M T → List ℕ
  total tui = shown tui.events.session ++ tui.writer.buffer

  -- The state of a display, as far as its output goes.
  abbrev pub Stands : List ℕ → T → Bool → Bool → Tui P V M T → Type 0
  Stands bytes t alt entered tui =
      Accepts tui.events.session
      × (total tui ≡ bytes)
      × (tui.terminal ≡ t)
      × (tui.alt_screen ≡ alt)
      × (tui.entered ≡ entered)

  enters-Stands :
      (bytes : List ℕ) (t : T) (alt entered b : Bool) (tui : Tui P V M T)
      → Stands bytes t alt entered tui
      → Stands (bytes ++ (if b then enter_alt_screen else [])) t alt (b || entered) (enters b tui)
  unfolding write_buffer
  enters-Stands bytes t alt entered true tui (a, b, c, d, e) = (
    a,
    sym (append_assoc (shown tui.events.session) tui.writer.buffer enter_alt_screen)
        ∙ ap (λ xs. xs ++ enter_alt_screen) b,
    c,
    d,
    refl,
  )
  enters-Stands bytes t alt entered false tui (a, b, c, d, e) =
      (a, b ∙ sym (append-nil bytes), c, d, e)

  entering-Stands :
      (bytes : List ℕ) (t : T) (alt entered : Bool) (tui : Tui P V M T)
      → Stands bytes t alt entered tui
      → Stands
          (bytes ++ (if alt && not entered then enter_alt_screen else []))
          t
          alt
          ((alt && not entered) || entered)
          (entering tui)
  unfolding entering
  entering-Stands bytes t alt entered tui (a, b, c, d, e) =
      let same : (alt && not entered) ≡ (tui.alt_screen && not tui.entered) = rw (d, e) refl in
      rw same
        (enters-Stands bytes t alt entered (tui.alt_screen && not tui.entered) tui (a, b, c, d, e))

  after_frame-Stands :
      (bytes : List ℕ) (t : T) (alt entered : Bool) (tui : Tui P V M T)
      (out : T × (List ℕ × Result IoError (Unit {0})))
      → Stands bytes t alt entered tui
      → Stands (bytes ++ given out) out.0 alt entered (after_frame tui out).0
  unfolding write_buffer take_buffer empty_writer write Merging.write
  after_frame-Stands bytes t alt entered tui (u, (more, err x)) (a, b, c, d, e) = (
    a,
    sym (append_assoc (shown tui.events.session) tui.writer.buffer more) ∙ ap (λ xs. xs ++ more) b,
    refl,
    d,
    e,
  )
  after_frame-Stands bytes t alt entered tui (u, (more, ok _)) (a, b, c, d, e) =
      let (f, g) = write-Extends (tui.writer.buffer ++ more) tui.events.session a in
      (
        f,
        append-nil _
            ∙ g
            ∙ sym (append_assoc (shown tui.events.session) tui.writer.buffer more)
            ∙ ap (λ xs. xs ++ more) b,
        refl,
        d,
        e,
      )

  pub draw-Stands :
      (bytes : List ℕ) (t : T) (alt entered : Bool) (render : Render T) (tui : Tui P V M T)
      → Stands bytes t alt entered tui
      → Stands
          ((bytes ++ (if alt && not entered then enter_alt_screen else [])) ++ given (render t))
          (render t).0
          alt
          ((alt && not entered) || entered)
          (draw render tui).0
  unfolding draw
  draw-Stands bytes t alt entered render tui h =
      let g = entering-Stands bytes t alt entered tui h in
      let f =
        after_frame-Stands (bytes ++ (if alt && not entered then enter_alt_screen else [])) t alt
          ((alt && not entered) || entered) (entering tui) (render (entering tui).terminal) g in
      subst
        (λ u.
          Stands
            ((bytes ++ (if alt && not entered then enter_alt_screen else [])) ++ given (render u))
            (render u).0 alt ((alt && not entered) || entered) (draw render tui).0)
        g.2 f
