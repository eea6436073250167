-- ===== src/Sftp/Handles.antt =====
-- The table of open handles in src/middleware/builtins/sftp/handler.rs.
pub mod Fresh
use shenron.Common.{
  ℕ, suc, ◌+◌, ◌%◌, ◌^◌, Bool, true, false, Option, none, some, List, [], ◌∷◌, ◌≡◌, refl, Text,
  text_eq, arith, leb, length, Option-cases, Bool-cases, inl, inr,
}
use shenron.Error.{IoError, Result, ok, err}
use shenron.HashMap
use shenron.Format.{format_016x}
use shenron.Sftp.{DirEntry, FileAttributes, OpenFlags, Filesystem}
use shenron.Sftp.Handler.{
  SftpHandler, HandleType, file, dir, put, as_file, as_dir, init, close, close_handle, open_file,
  opendir, read, write, fstat, fsetstat, insert_opened, insert_listed, open_result, read_from,
  write_to, fstat_of, fsetstat_of,
}
use shenron.Sftp.PathRequests.{realpath, stat, lstat, remove, mkdir, rmdir, rename, setstat}
use shenron.Sftp.ReadDir.{readdir, readdir_of}
use shenron.Sftp.Calls.{
  Call, call_init, call_close, call_open, call_read, call_write, call_opendir, call_readdir,
  call_realpath, call_stat, call_lstat, call_fstat, call_remove, call_rmdir, call_mkdir,
  call_rename, call_setstat, call_fsetstat, serve, serve_all,
}

-- The handle that a request names.
abbrev pub named : Call → Option Text
named (call_close handle) = some handle
named (call_read handle offset len) = some handle
named (call_write handle offset bytes) = some handle
named (call_readdir handle) = some handle
named (call_fstat handle) = some handle
named (call_fsetstat handle attrs) = some handle
named _ = none

-- What one request can do to the table and the counter.
pub data Change {S H : Type 0} (name : Option Text) (h h' : SftpHandler S H) : Type 0 where
  same : h'.handles ≡ h.handles → h'.next_handle ≡ h.next_handle → Change name h h'
  spent : h'.handles ≡ h.handles → h'.next_handle ≡ (h.next_handle + 1) % 2 ^ 64 → Change name h h'
  updated :
      (k : Text) (old t : HandleType H)
      → name ≡ some k
      → HashMap.get k h.handles ≡ some old
      → h'.handles ≡ HashMap.insert k t h.handles
      → h'.next_handle ≡ h.next_handle
      → Change name h h'
  removed :
      (k : Text)
      → name ≡ some k
      → h'.handles ≡ HashMap.remove k h.handles
      → h'.next_handle ≡ h.next_handle
      → Change name h h'
  added :
      (t : HandleType H)
      → h'.handles ≡ HashMap.insert (format_016x h.next_handle) t h.handles
      → h'.next_handle ≡ (h.next_handle + 1) % 2 ^ 64
      → Change name h h'

module _ (format_time : Bool → ℕ → Text) {S H : Type 0} (fs : Filesystem S H) where
  close-Change :
      (id : ℕ) (handle : Text) (t : Option (HandleType H)) (h : SftpHandler S H)
      → Change
          (some handle)
          h
          (close_handle fs id t (record h { handles = HashMap.remove handle h.handles })).0
  unfolding close_handle
  close-Change id handle none h = removed handle refl refl refl
  close-Change id handle (some (dir entries offset)) h = removed handle refl refl refl
  close-Change id handle (some (file f)) h = removed handle refl refl refl

  opened-Change :
      (id : ℕ) (h : SftpHandler S H) (out : S × Result IoError (HandleType H))
      → Change none h
          (insert_opened fs id
            (format_016x h.next_handle)
            (record h { next_handle = (h.next_handle + 1) % 2 ^ 64 })
            out).0
  unfolding insert_opened
  opened-Change id h (s, ok t) = added t refl refl
  opened-Change id h (s, err e) = spent refl refl

  listed-Change :
      (id : ℕ) (h : SftpHandler S H) (out : S × Result IoError (List DirEntry))
      → Change none h (insert_listed fs id h out).0
  unfolding insert_listed
  listed-Change id h (s, ok entries) = added (dir entries 0) refl refl
  listed-Change id h (s, err e) = same refl refl

  read-Change :
      (id : ℕ) (handle : Text) (offset len : ℕ) (t : Option (HandleType H)) (h : SftpHandler S H)
      → HashMap.get handle h.handles ≡ t
      → Change (some handle) h (read_from fs id handle offset len (as_file t) h).0
  unfolding read_from
  read-Change id handle offset len none h e = same refl refl
  read-Change id handle offset len (some (dir entries o)) h e = same refl refl
  read-Change id handle offset len (some (file f)) h e = updated handle (file f) _ refl e refl refl

  write-Change :
      (id : ℕ) (handle : Text) (offset : ℕ) (bytes : List ℕ) (t : Option (HandleType H))
      (h : SftpHandler S H)
      → HashMap.get handle h.handles ≡ t
      → Change (some handle) h (write_to fs id handle offset bytes (as_file t) h).0
  unfolding write_to
  write-Change id handle offset bytes none h e = same refl refl
  write-Change id handle offset bytes (some (dir entries o)) h e = same refl refl
  write-Change id handle offset bytes (some (file f)) h e =
      updated handle (file f) _ refl e refl refl

  fstat-Change :
      (id : ℕ) (handle : Text) (t : Option H) (h : SftpHandler S H)
      → Change (some handle) h (fstat_of fs id t h).0
  unfolding fstat_of
  fstat-Change id handle none h = same refl refl
  fstat-Change id handle (some f) h = same refl refl

  fsetstat-Change :
      (id : ℕ) (handle : Text) (attrs : FileAttributes) (t : Option (HandleType H))
      (h : SftpHandler S H)
      → HashMap.get handle h.handles ≡ t
      → Change (some handle) h (fsetstat_of fs id handle attrs (as_file t) h).0
  unfolding fsetstat_of
  fsetstat-Change id handle attrs none h e = same refl refl
  fsetstat-Change id handle attrs (some (dir entries o)) h e = same refl refl
  fsetstat-Change id handle attrs (some (file f)) h e = updated handle (file f) _ refl e refl refl

  readdir-Change :
      (now id : ℕ) (handle : Text) (t : Option (HandleType H)) (h : SftpHandler S H)
      → HashMap.get handle h.handles ≡ t
      → Change (some handle) h (readdir_of format_time now id handle (as_dir t) h).0
  unfolding readdir_of
  readdir-Change now id handle none h e = same refl refl
  readdir-Change now id handle (some (file f)) h e = same refl refl
  readdir-Change now id handle (some (dir entries o)) h e =
      elim (Bool-cases (leb (length entries) o)) [
        | inl done ↦ rw (done, readdir_of) (same refl refl)
        | inr more ↦ rw (more, readdir_of) (updated handle (dir entries o) _ refl e refl refl)
      ]

  init-Change : (version : ℕ) (h : SftpHandler S H) → Change none h (init version h).0
  unfolding init
  init-Change version h = elim (Option-cases h.version) [
    | inl e ↦ rw (e, init) (same refl refl)
    | inr (v, e) ↦ rw (e, init) (same refl refl)
  ]

  pub serve-Change :
      (now id : ℕ) (c : Call) (h : SftpHandler S H)
      → Change (named c) h (serve format_time fs now id c h)
  unfolding serve close open_file opendir read write fstat fsetstat realpath stat lstat remove mkdir
      rmdir rename setstat readdir
  serve-Change now id (call_init version) h = init-Change version h
  serve-Change now id (call_close handle) h =
      close-Change id handle (HashMap.get handle h.handles) h
  serve-Change now id (call_open filename pflags attrs) h =
      opened-Change id h (open_result fs filename pflags attrs h.fs)
  serve-Change now id (call_read handle offset len) h = read-Change id handle offset len _ h refl
  serve-Change now id (call_write handle offset bytes) h =
      write-Change id handle offset bytes _ h refl
  serve-Change now id (call_opendir path) h = listed-Change id h (fs.read_dir path h.fs)
  serve-Change now id (call_readdir handle) h = readdir-Change now id handle _ h refl
  serve-Change now id (call_realpath path) h = same refl refl
  serve-Change now id (call_stat path) h = same refl refl
  serve-Change now id (call_lstat path) h = same refl refl
  serve-Change now id (call_fstat handle) h = fstat-Change id handle _ h
  serve-Change now id (call_remove filename) h = same refl refl
  serve-Change now id (call_rmdir path) h = same refl refl
  serve-Change now id (call_mkdir path attrs) h = same refl refl
  serve-Change now id (call_rename oldpath newpath) h = same refl refl
  serve-Change now id (call_setstat path attrs) h = same refl refl
  serve-Change now id (call_fsetstat handle attrs) h = fsetstat-Change id handle attrs _ h refl
