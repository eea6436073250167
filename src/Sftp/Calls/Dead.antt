-- ===== src/Sftp/Calls/Dead.antt =====
-- src/middleware/builtins/sftp/handler.rs: a handle that was closed, and one that never was.
use shenron.Common.{ℕ, Bool, Option, none, some, List, ◌≡◌, refl, ap, ◌∙◌, Text, text_eq, beq_refl}
use shenron.Error.{err}
use shenron.HashMap
use shenron.Sftp.{FileAttributes, Filesystem}
use shenron.Sftp.Protocol.{failure}
use shenron.Sftp.Handler.{
  SftpHandler, HandleType, file, dir, close, close_handle, read, write, fstat, fsetstat,
}
use shenron.Sftp.ReadDir.{readdir}

module _ (format_time : Bool → ℕ → Text) {S H : Type 0} (fs : Filesystem S H) where
  -- Every request that names the handle fails and leaves the handler as it is.
  pub record IsDead (handle : Text) (h : SftpHandler S H) : Type 0 where
    pub closes : (id : ℕ) → close fs id handle h ≡ (h, err failure)
    pub reads : (id offset len : ℕ) → read fs id handle offset len h ≡ (h, err failure)
    pub writes :
        (id offset : ℕ) (bytes : List ℕ) → write fs id handle offset bytes h ≡ (h, err failure)
    pub lists : (now id : ℕ) → readdir format_time now id handle h ≡ (h, err failure)
    pub stats : (id : ℕ) → fstat fs id handle h ≡ (h, err failure)
    pub sets : (id : ℕ) (attrs : FileAttributes) → fsetstat fs id handle attrs h ≡ (h, err failure)

  none-IsDead :
      (handle : Text) (h : SftpHandler S H) → HashMap.get handle h.handles ≡ none → IsDead handle h
  unfolding close close_handle read write readdir fstat fsetstat
  none-IsDead handle h e = record {
    closes = λ id.
        rw (e, close)
          (ap (λ hs. (record h { handles = hs }, err failure))
            (HashMap.remove-none handle h.handles e));
    reads = λ id offset len. rw (e, read) refl;
    writes = λ id offset bytes. rw (e, write) refl;
    lists = λ now id. rw (e, readdir) refl;
    stats = λ id. rw (e, fstat) refl;
    sets = λ id attrs. rw (e, fsetstat) refl;
  }

  close_handle-handles :
      (id : ℕ) (t : Option (HandleType H)) (h : SftpHandler S H)
      → (close_handle fs id t h).0.handles ≡ h.handles
  unfolding close_handle
  close_handle-handles id none h = refl
  close_handle-handles id (some (dir entries offset)) h = refl
  close_handle-handles id (some (file f)) h = refl

  -- After a handle is closed, whatever it was and also where closing it fails, a second close of
  -- it and every read, write, listing, stat and setstat of it fail, and change nothing else.
  pub close-IsDead :
      (id : ℕ) (handle : Text) (h : SftpHandler S H) → IsDead handle (close fs id handle h).0
  unfolding close
  close-IsDead id handle h = none-IsDead handle (close fs id handle h).0 (
      ap (HashMap.get handle) (
        close_handle-handles id (HashMap.get handle h.handles)
          (record h { handles = HashMap.remove handle h.handles }))
      ∙ HashMap.get-remove handle handle h.handles
      ∙ rw (beq_refl handle) refl)
