-- ===== src/Tui/Drawing/Restoring.antt =====
-- src/tui/core.rs: what a display sends from its first frame to `close`.
use shenron.Common.{
  ℕ, ◌≡◌, refl, sym, ◌∙◌, ap, subst, Bool, true, false, Option, none, some, List, [], ◌∷◌, ◌++◌,
  ◌&&◌, ◌||◌, not, if◌then◌else◌, append-nil, append_assoc, Text, arith,
}
use shenron.Error.{IoError, Error, Result, ok, err, ◌>>=◌}
use shenron.Channel.{PtySize}
use shenron.Session.{Session, pty_size}
use shenron.Events.Merging
use shenron.Tui.Drawing.{
  enter_alt_screen, leave_alt_screen, show_cursor, new_line, Rect, rect_of, Tui, Render, opened,
  sized, new, on_alt_screen, draw, restore, close, empty_writer,
}
use shenron.Tui.Drawing.Output.{Accepts, shown, total, Stands, given, draw-Stands, write-Extends}

and_again : (a b : Bool) → (a && (a && b)) ≡ (a && b)
and_again true b = refl
and_again false b = refl

module _ {T : Type 0} where
  -- What ratatui writes for the frames, one after the other.
  abbrev pub outputs : List (Render T) → T → List ℕ
  outputs [] t = []
  outputs (render ∷ renders) t = given (render t) ++ outputs renders (render t).0

  abbrev last_terminal : List (Render T) → T → T
  last_terminal [] t = t
  last_terminal (render ∷ renders) t = last_terminal renders (render t).0

  abbrev pub is_cons : List (Render T) → Bool
  is_cons [] = false
  is_cons (render ∷ renders) = true

  -- The alternate screen is entered with the first frame.
  abbrev pub opening : Bool → List (Render T) → List ℕ
  opening alt renders = if alt && is_cons renders then enter_alt_screen else []

  -- It is left where it was entered.
  abbrev pub closing : Bool → List (Render T) → List ℕ
  closing alt renders =
      show_cursor ++ (if alt && is_cons renders then leave_alt_screen else new_line)

module _ {P V M T : Type 0} where
  -- Frames in turn, whether they succeed or not.
  unfoldable pub draw_all : List (Render T) → Tui P V M T → Tui P V M T
  draw_all [] tui = tui
  draw_all (render ∷ renders) tui = draw_all renders (draw render tui).0

  draw_settled :
      (bytes : List ℕ) (t : T) (alt entered : Bool) (render : Render T) (tui : Tui P V M T)
      → (alt && not entered) ≡ false
      → Stands bytes t alt entered tui
      → Stands (bytes ++ given (render t)) (render t).0 alt entered (draw render tui).0
  draw_settled bytes t alt entered render tui h st =
      subst (λ xs. Stands (xs ++ given (render t)) (render t).0 alt entered (draw render tui).0)
        (append-nil bytes)
        (subst
          (λ b.
            Stands ((bytes ++ (if b then enter_alt_screen else [])) ++ given (render t))
              (render t).0 alt (b || entered) (draw render tui).0)
          h (draw-Stands bytes t alt entered render tui st))

  draw_all_settled :
      (renders : List (Render T)) (bytes : List ℕ) (t : T) (alt entered : Bool) (tui : Tui P V M T)
      → (alt && not entered) ≡ false
      → Stands bytes t alt entered tui
      → Stands
          (bytes ++ outputs renders t)
          (last_terminal renders t)
          alt
          entered
          (draw_all renders tui)
  unfolding draw_all
  draw_all_settled [] bytes t alt entered tui h st =
      subst (λ xs. Stands xs t alt entered tui) (sym (append-nil bytes)) st
  draw_all_settled (render ∷ renders) bytes t alt entered tui h st =
      subst
        (λ xs.
          Stands xs (last_terminal renders (render t).0) alt entered
            (draw_all renders (draw render tui).0))
        (append_assoc bytes (given (render t)) (outputs renders (render t).0))
        (draw_all_settled renders (bytes ++ given (render t)) (render t).0 alt entered
          (draw render tui).0 h (draw_settled bytes t alt entered render tui h st))

  abbrev With : List ℕ → List (Render T) → T → Bool → Bool → Tui P V M T → Type 0
  With bytes renders t alt entered tui =
      Stands (bytes ++ outputs renders t) (last_terminal renders t) alt entered tui

  -- After the first frame there is nothing more to enter.
  first_settled :
      (render : Render T) (renders : List (Render T)) (bytes : List ℕ) (t : T) (alt entered : Bool)
      (tui : Tui P V M T)
      → (alt && not entered) ≡ false
      → Stands (bytes ++ given (render t)) (render t).0 alt entered (draw render tui).0
      → With bytes (render ∷ renders) t alt entered (draw_all (render ∷ renders) tui)
  unfolding draw_all
  first_settled render renders bytes t alt entered tui h st =
      subst
        (λ xs.
          Stands xs (last_terminal renders (render t).0) alt entered
            (draw_all renders (draw render tui).0))
        (append_assoc bytes (given (render t)) (outputs renders (render t).0))
        (draw_all_settled renders (bytes ++ given (render t)) (render t).0 alt entered
          (draw render tui).0 h st)

  draw_all-Stands :
      (renders : List (Render T)) (bytes : List ℕ) (t : T) (alt : Bool) (tui : Tui P V M T)
      → Stands bytes t alt false tui
      → With
          (bytes ++ opening alt renders)
          renders
          t
          alt
          (alt && is_cons renders)
          (draw_all renders tui)
  unfolding draw_all
  draw_all-Stands [] bytes t true tui st =
      subst (λ xs. Stands xs t true false tui) (sym (append-nil (bytes ++ []) ∙ append-nil bytes))
        st
  draw_all-Stands [] bytes t false tui st =
      subst (λ xs. Stands xs t false false tui) (sym (append-nil (bytes ++ []) ∙ append-nil bytes))
        st
  draw_all-Stands (render ∷ renders) bytes t true tui st =
      first_settled render renders (bytes ++ enter_alt_screen) t true true tui refl
        (draw-Stands bytes t true false render tui st)
  draw_all-Stands (render ∷ renders) bytes t false tui st =
      first_settled render renders (bytes ++ []) t false false tui refl
        (draw-Stands bytes t false false render tui st)

  close-shown :
      (alt entered : Bool) (tui : Tui P V M T)
      → Accepts tui.events.session
      → tui.alt_screen ≡ alt
      → tui.entered ≡ entered
      → shown (close tui).0
        ≡ shown tui.events.session
          ++ (show_cursor ++ (if alt && entered then leave_alt_screen else new_line))
  unfolding close restore Merging.write
  close-shown alt entered tui a d e =
      (write-Extends (restore tui) tui.events.session a).1
      ∙ ap
          (λ b.
            shown tui.events.session ++ (show_cursor ++ (if b then leave_alt_screen else new_line)))
          (ap (λ x. x && tui.entered) d ∙ ap (λ x. alt && x) e)

  -- A display as the application starts it.
  abbrev pub start : Bool → Tui P V M T → Tui P V M T
  start true tui = on_alt_screen tui
  start false tui = tui

  abbrev ok_or : Tui P V M T → Result Error (Tui P V M T) → Tui P V M T
  ok_or tui (ok x) = x
  ok_or tui (err e) = tui

  opened-Stands :
      (client_first : ℕ → Bool) (session : Session P V) (made : Result IoError T)
      (tui : Tui P V M T)
      → Accepts session
      → opened client_first session made ≡ ok tui
      → Stands (shown session) tui.terminal false false tui
  unfolding empty_writer Merging.new
  opened-Stands client_first session (err e) tui a h = absurd (ground (arith, h))
  opened-Stands client_first session (ok t) tui a h =
      subst (λ x. Stands (shown session) x.terminal false false x) (ap (ok_or tui) h)
        (a, append-nil (shown session), refl, refl, refl)

  area-Stands :
      (client_first : ℕ → Bool) (with_options : Rect → Result IoError T) (session : Session P V)
      (area : Result Error Rect) (tui : Tui P V M T)
      → Accepts session
      → (area >>= λ area. opened client_first session (with_options area)) ≡ ok tui
      → Stands (shown session) tui.terminal false false tui
  area-Stands client_first with_options session (err e) tui a h = absurd (ground (arith, h))
  area-Stands client_first with_options session (ok area) tui a h =
      opened-Stands client_first session (with_options area) tui a h

  sized-Stands :
      (client_first : ℕ → Bool) (message : Text) (with_options : Rect → Result IoError T)
      (session : Session P V) (size : Option PtySize) (tui : Tui P V M T)
      → Accepts session
      → sized client_first message with_options session size ≡ ok tui
      → Stands (shown session) tui.terminal false false tui
  sized-Stands client_first message with_options session none tui a h = absurd (ground (arith, h))
  sized-Stands client_first message with_options session (some size) tui a h =
      area-Stands client_first with_options session (rect_of message size) tui a h

  start-Stands :
      (alt : Bool) (bytes : List ℕ) (tui : Tui P V M T)
      → Stands bytes tui.terminal false false tui
      → Stands bytes tui.terminal alt false (start alt tui)
  unfolding on_alt_screen
  start-Stands true bytes tui (a, b, c, d, e) = (a, b, c, refl, e)
  start-Stands false bytes tui st = st

  -- What a display of a session sends, as long as the client takes it: the alternate screen is
  -- entered before the first frame, if it was asked for, and never again; every byte that ratatui
  -- wrote for the frames follows in order, those of failed frames too, sent or waiting in the writer;
  -- `close` shows the cursor, and leaves the alternate screen just where it was entered.
  pub draw_all-close :
      (client_first : ℕ → Bool) (message : Text) (with_options : Rect → Result IoError T)
      (session : Session P V) (tui : Tui P V M T) (alt : Bool) (renders : List (Render T))
      → Accepts session
      → new client_first message with_options session ≡ ok tui
      → (total (draw_all renders (start alt tui))
          ≡ (shown session ++ opening alt renders) ++ outputs renders tui.terminal)
        × (shown (close (draw_all renders (start alt tui))).0
            ≡ shown (draw_all renders (start alt tui)).events.session ++ closing alt renders)
  unfolding new
  draw_all-close client_first message with_options session tui alt renders a h =
      let (c, d, e, f, g) =
        draw_all-Stands renders (shown session) tui.terminal alt (start alt tui) (
          start-Stands alt (shown session) tui
            (sized-Stands client_first message with_options session (pty_size session) tui a h)) in
      (
        d,
        close-shown alt (alt && is_cons renders) (draw_all renders (start alt tui)) c f g
            ∙ ap
                (λ b.
                  shown (draw_all renders (start alt tui)).events.session
                  ++ (show_cursor ++ (if b then leave_alt_screen else new_line)))
                (and_again alt (is_cons renders)),
      )
