-- ===== src/Sftp/Handles/Fresh.antt =====
-- Handles are not given twice, and a request leaves the other handles alone.

use shenron.Common.{
  ℕ, ◌+◌, ◌^◌, ◌≤◌, ◌<◌, Bool, Option, none, some, List, [], ◌∷◌, ◌≡◌, ◌≢◌, refl, ◌∙◌, ap, Text,
  text_eq, text_beq_iff, arith, length,
}
use shenron.HashMap
use shenron.Format.{format_016x}
use shenron.Format.Hex.{format_016x-injective}
use shenron.Sftp.{Filesystem}
use shenron.Sftp.Handler.{SftpHandler, HandleType, new}
use shenron.Sftp.Calls.{Call, serve, serve_all}
use shenron.Sftp.Handles.{named, Change, same, spent, updated, removed, added, serve-Change}

-- No handle that is still to be given is in use.
abbrev pub IsFresh : {S H : Type 0} → SftpHandler S H → Type 0
IsFresh h = (n : ℕ) → h.next_handle ≤ n → n < 2 ^ 64 → HashMap.get (format_016x n) h.handles ≡ none

module _ {S H : Type 0} where
  get-updated :
      (k j : Text) (old t : HandleType H) (h : SftpHandler S H)
      → HashMap.get k h.handles ≡ some old
      → HashMap.get j h.handles ≡ none
      → HashMap.get j (HashMap.insert k t h.handles) ≡ none
  get-updated k j old t h e f = ground (arith, HashMap.get-insert k j t h.handles, text_beq_iff k j)

  get-removed :
      (k j : Text) (h : SftpHandler S H)
      → HashMap.get j h.handles ≡ none
      → HashMap.get j (HashMap.remove k h.handles) ≡ none
  get-removed k j h f = ground (arith, HashMap.get-remove k j h.handles)

  get-other :
      (k j : Text) (t : HandleType H) (h : SftpHandler S H)
      → k ≢ j
      → HashMap.get j (HashMap.insert k t h.handles) ≡ HashMap.get j h.handles
  get-other k j t h d = ground (arith, HashMap.get-insert k j t h.handles, text_beq_iff k j)

  Change-IsFresh :
      {name : Option Text} {h h' : SftpHandler S H}
      → Change name h h'
      → h.next_handle + 1 < 2 ^ 64
      → IsFresh h
      → IsFresh h' × (h'.next_handle ≤ h.next_handle + 1)
  Change-IsFresh {h} {h'} (same t c) room f =
      (λ n le lt. ap (HashMap.get (format_016x n)) t ∙ f n (omega arith) lt, omega arith)
  Change-IsFresh {h} {h'} (spent t c) room f =
      (λ n le lt. ap (HashMap.get (format_016x n)) t ∙ f n (omega arith) lt, omega arith)
  Change-IsFresh {h} {h'} (updated k old t m e u c) room f = (
    λ n le lt.
        ap (HashMap.get (format_016x n)) u
        ∙ get-updated k (format_016x n) old t h e (f n (omega arith) lt),
    omega arith,
  )
  Change-IsFresh {h} {h'} (removed k m u c) room f = (
    λ n le lt.
        ap (HashMap.get (format_016x n)) u ∙ get-removed k (format_016x n) h (f n (omega arith) lt),
    omega arith,
  )
  Change-IsFresh {h} {h'} (added t u c) room f = (
    λ n le lt.
        let apart : format_016x h.next_handle ≢ format_016x n =
          λ e. absurd (omega (arith, format_016x-injective h.next_handle n (omega arith) lt e)) in
        ap (HashMap.get (format_016x n)) u
        ∙ get-other (format_016x h.next_handle) (format_016x n) t h apart
        ∙ f n (omega arith) lt,
    omega arith,
  )

  -- A live handle is not the next one to be given.
  live-ne-next :
      (k : Text) (t : HandleType H) (h : SftpHandler S H)
      → IsFresh h
      → h.next_handle < 2 ^ 64
      → HashMap.get k h.handles ≡ some t
      → format_016x h.next_handle ≢ k
  live-ne-next k t h f room live e =
      cc (ap (λ j. HashMap.get j h.handles) e, f h.next_handle (omega arith) room)

  Change-get :
      {name : Option Text} {h h' : SftpHandler S H} (k : Text) (t : HandleType H)
      → Change name h h'
      → IsFresh h
      → h.next_handle < 2 ^ 64
      → name ≢ some k
      → HashMap.get k h.handles ≡ some t
      → HashMap.get k h'.handles ≡ some t
  Change-get k t (same u c) f room n live = ap (HashMap.get k) u ∙ live
  Change-get k t (spent u c) f room n live = ap (HashMap.get k) u ∙ live
  Change-get {h} k t (updated j old new m e u c) f room n live =
      ap (HashMap.get k) u ∙ get-other j k new h (λ e. n (m ∙ ap {B = Option Text} some e)) ∙ live
  Change-get {h} k t (removed j m u c) f room n live =
      let apart : j ≢ k = λ e. n (m ∙ ap {B = Option Text} some e) in
      ap (HashMap.get k) u ∙ ground (arith, HashMap.get-remove j k h.handles, text_beq_iff j k)
  Change-get {h} k t (added new u c) f room n live =
      ap (HashMap.get k) u
      ∙ get-other (format_016x h.next_handle) k new h (live-ne-next k t h f room live)
      ∙ live

module _ (format_time : Bool → ℕ → Text) {S H : Type 0} (fs : Filesystem S H) where
  new-IsFresh : (s : S) → IsFresh (new {S = S} {H = H} s)
  unfolding new HashMap.get
  new-IsFresh s n le lt = refl

  serve_all-IsFresh :
      (calls : List (ℕ × ℕ × Call)) (h : SftpHandler S H)
      → IsFresh h
      → h.next_handle + length calls < 2 ^ 64
      → IsFresh (serve_all format_time fs calls h)
        × ((serve_all format_time fs calls h).next_handle ≤ h.next_handle + length calls)
  unfolding serve_all
  serve_all-IsFresh [] h f room = (f, omega arith)
  serve_all-IsFresh ((now, id, c) ∷ calls) h f room =
      let h' = serve format_time fs now id c h in
      let (f', le) = Change-IsFresh (serve-Change format_time fs now id c h) (omega arith) f in
      let (g, le') = serve_all-IsFresh calls h' f' (omega arith) in (g, omega arith)

  -- After fewer than 2 ^ 64 - 1 requests, an open handle that a request does not name stands for
  -- the same file or directory after that request: no request is given a handle that is in use.
  pub serve-get_other :
      (calls : List (ℕ × ℕ × Call)) (s : S) (now id : ℕ) (c : Call) (k : Text) (t : HandleType H)
      → length calls + 1 < 2 ^ 64
      → named c ≢ some k
      → HashMap.get k (serve_all format_time fs calls (new s)).handles ≡ some t
      → HashMap.get k
          (serve format_time fs now id c (serve_all format_time fs calls (new s))).handles
        ≡ some t
  serve-get_other calls s now id c k t few other live =
      let h = serve_all format_time fs calls (new s) in
      let zero_next : (new {S = S} {H = H} s).next_handle ≡ 0 = unfold new in refl in
      let (f, le) = serve_all-IsFresh calls (new s) (new-IsFresh s) (omega arith) in
      Change-get k t (serve-Change format_time fs now id c h) f (omega arith) other live
