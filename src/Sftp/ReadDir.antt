-- ===== src/Sftp/ReadDir.antt =====
-- src/middleware/builtins/sftp/handler.rs: `readdir`, a directory page by page.
pub mod Paging
use shenron.Common.{
  ℕ, suc, ◌+◌, ◌-◌, ◌*◌, ◌%◌, ◌^◌, Bool, true, false, Option, none, some, List, [], ◌∷◌, ◌++◌,
  if◌then◌else◌, Text, text, leb, length, take, drop, min, map, ◌||◌, is_some, text_eq,
}
use shenron.Error.{ErrorKind, not_found, permission_denied, unsupported, IoError, Result, ok, err}
use shenron.HashMap
use shenron.HashMap.{HashMap}
use shenron.Format.{format_016x}
use shenron.Sftp.{
  FileAttr, FileAttributes, to_attributes, from_attributes, default_attributes, DirEntry, OpenFlags,
  Filesystem,
}
use shenron.Sftp.Longname.{longname}
use shenron.Sftp.Protocol.{
  StatusCode, ok_code, eof, no_such_file, permission_denied_code, failure, op_unsupported,
  connection_lost, status_code, Status, Handle, Data, File, Name, Attrs, status_ok, answer,
}
use shenron.Sftp.Handler.{SftpHandler, HandleType, file, dir, put, as_dir, readdir_page}

-- `format_time` is chrono's, and `now` the clock.
module _ (format_time : Bool → ℕ → Text) (now : ℕ) where
  abbrev pub to_file : DirEntry → File
  to_file e = record {
    filename = e.name;
    longname = longname format_time e.name e.attrs now;
    attrs = to_attributes e.attrs;
  }

  module _ {S H : Type 0} where
    unfoldable pub readdir_of :
        ℕ
        → Text
        → Option (List DirEntry × ℕ)
        → SftpHandler S H
        → SftpHandler S H × Result StatusCode Name
    readdir_of id handle none h = (h, err failure)
    readdir_of id handle (some (entries, offset)) h =
        let end = min (offset + readdir_page) (length entries) in
        let files = map to_file (take (end - offset) (drop offset entries)) in
        if leb (length entries) offset
        then (h, err eof)
        else (put handle (dir entries end) h, ok (record { id = id; files = files }))

    unfoldable pub readdir : ℕ → Text → SftpHandler S H → SftpHandler S H × Result StatusCode Name
    unfolding readdir_of
    readdir id handle h = readdir_of id handle (as_dir (HashMap.get handle h.handles)) h
