-- ===== src/Sftp/Calls.antt =====
-- The requests of src/middleware/builtins/sftp/handler.rs as data, and a run of them.
pub mod Dead
use shenron.Common.{ℕ, Bool, List, [], ◌∷◌, Text}
use shenron.Sftp.{FileAttributes, OpenFlags, Filesystem}
use shenron.Sftp.Handler.{
  SftpHandler, init, close, open_file, opendir, read, write, fstat, fsetstat,
}
use shenron.Sftp.PathRequests.{realpath, stat, lstat, remove, mkdir, rmdir, rename, setstat}
use shenron.Sftp.ReadDir.{readdir}

pub data Call : Type 0 where
  call_init : ℕ → Call
  call_close : Text → Call
  call_open : Text → OpenFlags → FileAttributes → Call
  call_read : Text → ℕ → ℕ → Call
  call_write : Text → ℕ → List ℕ → Call
  call_opendir : Text → Call
  call_readdir : Text → Call
  call_realpath call_stat call_lstat : Text → Call
  call_fstat : Text → Call
  call_remove call_rmdir : Text → Call
  call_mkdir : Text → FileAttributes → Call
  call_rename : Text → Text → Call
  call_setstat : Text → FileAttributes → Call
  call_fsetstat : Text → FileAttributes → Call

module _ (format_time : Bool → ℕ → Text) {S H : Type 0} (fs : Filesystem S H) where
  -- The state after a request at time `now`; the response goes to the client.
  unfoldable pub serve : ℕ → ℕ → Call → SftpHandler S H → SftpHandler S H
  serve now id (call_init version) h = (init version h).0
  serve now id (call_close handle) h = (close fs id handle h).0
  serve now id (call_open filename pflags attrs) h = (open_file fs id filename pflags attrs h).0
  serve now id (call_read handle offset len) h = (read fs id handle offset len h).0
  serve now id (call_write handle offset bytes) h = (write fs id handle offset bytes h).0
  serve now id (call_opendir path) h = (opendir fs id path h).0
  serve now id (call_readdir handle) h = (readdir format_time now id handle h).0
  serve now id (call_realpath path) h = (realpath fs id path h).0
  serve now id (call_stat path) h = (stat fs id path h).0
  serve now id (call_lstat path) h = (lstat fs id path h).0
  serve now id (call_fstat handle) h = (fstat fs id handle h).0
  serve now id (call_remove filename) h = (remove fs id filename h).0
  serve now id (call_rmdir path) h = (rmdir fs id path h).0
  serve now id (call_mkdir path attrs) h = (mkdir fs id path attrs h).0
  serve now id (call_rename oldpath newpath) h = (rename fs id oldpath newpath h).0
  serve now id (call_setstat path attrs) h = (setstat fs id path attrs h).0
  serve now id (call_fsetstat handle attrs) h = (fsetstat fs id handle attrs h).0

  -- Requests with their times and ids, the first one first.
  unfoldable pub serve_all : List (ℕ × ℕ × Call) → SftpHandler S H → SftpHandler S H
  serve_all [] h = h
  serve_all ((now, id, c) ∷ calls) h = serve_all calls (serve now id c h)
