-- ===== src/Sftp/Handler.antt =====
-- src/middleware/builtins/sftp/handler.rs: the requests of the SFTP protocol, over a filesystem.
pub mod Reads
use shenron.Common.{
  ℕ, suc, ◌+◌, ◌-◌, ◌*◌, ◌%◌, ◌^◌, Bool, true, false, Option, none, some, List, [], ◌∷◌, ◌++◌,
  if◌then◌else◌, Text, text, leb, length, take, drop, min, map, ◌||◌, is_some, text_eq,
}
use shenron.Error.{ErrorKind, not_found, permission_denied, unsupported, IoError, Result, ok, err}
use shenron.HashMap
use shenron.HashMap.{HashMap}
use shenron.Format.{format_016x}
use shenron.Sftp.{
  FileAttr, FileAttributes, to_attributes, from_attributes, default_attributes, DirEntry, OpenFlags,
  Filesystem,
}
use shenron.Sftp.Longname.{longname}
use shenron.Sftp.Protocol.{
  StatusCode, ok_code, eof, no_such_file, permission_denied_code, failure, op_unsupported,
  connection_lost, status_code, Status, Handle, Data, File, Name, Attrs, status_ok, answer,
}

abbrev pub max_read_len : ℕ
max_read_len = 256 * 1024

abbrev pub readdir_page : ℕ
readdir_page = 128

pub data HandleType (H : Type 0) : Type 0 where
  file : H → HandleType H
  dir : List DirEntry → ℕ → HandleType H

pub record SftpHandler (S H : Type 0) : Type 0 where
  pub fs : S
  pub handles : HashMap Text (HandleType H)
  pub next_handle : ℕ
  pub version : Option ℕ

-- What `get_mut` finds: an open file, or an open directory.
abbrev pub as_file : {H : Type 0} → Option (HandleType H) → Option H
as_file (some (file f)) = some f
as_file _ = none

abbrev pub as_dir : {H : Type 0} → Option (HandleType H) → Option (List DirEntry × ℕ)
as_dir (some (dir entries offset)) = some (entries, offset)
as_dir _ = none

module _ {S H : Type 0} where
  -- `SftpHandler::new`
  unfoldable pub new : S → SftpHandler S H
  new fs = record { fs = fs; handles = []; next_handle = 0; version = none }

  -- `next_handle`: the counter is an `AtomicU64`.
  unfoldable pub next_handle : SftpHandler S H → SftpHandler S H × Text
  next_handle h =
      (record h { next_handle = (h.next_handle + 1) % 2 ^ 64 }, format_016x h.next_handle)

  unfoldable pub init : ℕ → SftpHandler S H → SftpHandler S H × Result StatusCode (Unit {0})
  init version h =
      if is_some h.version
      then (h, err connection_lost)
      else (record h { version = some version }, ok tt)

  abbrev pub put : Text → HandleType H → SftpHandler S H → SftpHandler S H
  put handle t h = record h { handles = HashMap.insert handle t h.handles }

-- `data.is_empty()` is the end of the file.
read_result : ℕ → Result IoError (List ℕ) → Result StatusCode Data
read_result id (err e) = err (status_code e.kind)
read_result id (ok []) = err eof
read_result id (ok (b ∷ bytes)) = ok (record { id = id; bytes = b ∷ bytes })

module _ {S H : Type 0} (fs : Filesystem S H) where
  unfoldable pub close_handle :
      ℕ → Option (HandleType H) → SftpHandler S H → SftpHandler S H × Result StatusCode Status
  close_handle id none h = (h, err failure)
  close_handle id (some (dir entries offset)) h = (h, ok (status_ok id))
  close_handle id (some (file f)) h =
      let (s, r) = fs.file_close f h.fs in (record h { fs = s }, answer r (λ _. status_ok id))

  unfoldable pub close : ℕ → Text → SftpHandler S H → SftpHandler S H × Result StatusCode Status
  unfolding close_handle
  close id handle h =
      close_handle id (HashMap.get handle h.handles)
        (record h { handles = HashMap.remove handle h.handles })

  -- The file is inserted only where opening it succeeds.
  unfoldable pub insert_opened :
      ℕ
      → Text
      → SftpHandler S H
      → S × Result IoError (HandleType H)
      → SftpHandler S H × Result StatusCode Handle
  insert_opened id handle h (s, err e) = (record h { fs = s }, err (status_code e.kind))
  insert_opened id handle h (s, ok t) =
      (put handle t (record h { fs = s }), ok (record { id = id; handle = handle }))

  abbrev opened :
      {A : Type 0} → (A → HandleType H) → S × Result IoError A → S × Result IoError (HandleType H)
  opened f (s, ok a) = (s, ok (f a))
  opened f (s, err e) = (s, err e)

  -- Opening for writing also where a file may only be created.
  unfoldable pub open_result :
      Text → OpenFlags → FileAttributes → S → S × Result IoError (HandleType H)
  open_result filename pflags attrs s =
      if pflags.write || pflags.create
      then opened file (fs.open_write filename pflags (from_attributes attrs) s)
      else opened file (fs.open_read filename s)

  unfoldable pub open_file :
      ℕ
      → Text
      → OpenFlags
      → FileAttributes
      → SftpHandler S H
      → SftpHandler S H × Result StatusCode Handle
  unfolding insert_opened next_handle
  open_file id filename pflags attrs h =
      let (h', handle) = next_handle h in
      insert_opened id handle h' (open_result filename pflags attrs h'.fs)

  -- A handle is taken only where listing the directory succeeds.
  unfoldable pub insert_listed :
      ℕ
      → SftpHandler S H
      → S × Result IoError (List DirEntry)
      → SftpHandler S H × Result StatusCode Handle
  unfolding next_handle
  insert_listed id h (s, err e) = (record h { fs = s }, err (status_code e.kind))
  insert_listed id h (s, ok entries) =
      let (h', handle) = next_handle (record h { fs = s }) in
      (put handle (dir entries 0) h', ok (record { id = id; handle = handle }))

  unfoldable pub opendir : ℕ → Text → SftpHandler S H → SftpHandler S H × Result StatusCode Handle
  unfolding insert_listed
  opendir id path h = insert_listed id h (fs.read_dir path h.fs)

  -- The file as the method leaves it, under its handle.
  keep_file :
      {A B : Type 0}
      → Text
      → SftpHandler S H
      → (Result IoError A → Result StatusCode B)
      → S × H × Result IoError A
      → SftpHandler S H × Result StatusCode B
  keep_file handle h f (s, file', r) = (put handle (file file') (record h { fs = s }), f r)

  unfoldable pub read_from :
      ℕ → Text → ℕ → ℕ → Option H → SftpHandler S H → SftpHandler S H × Result StatusCode Data
  unfolding keep_file read_result
  read_from id handle offset len none h = (h, err failure)
  read_from id handle offset len (some f) h =
      keep_file handle h (read_result id) (fs.file_read offset (min len max_read_len) f h.fs)

  unfoldable pub read :
      ℕ → Text → ℕ → ℕ → SftpHandler S H → SftpHandler S H × Result StatusCode Data
  unfolding read_from
  read id handle offset len h =
      read_from id handle offset len (as_file (HashMap.get handle h.handles)) h

  unfoldable pub write_to :
      ℕ
      → Text
      → ℕ
      → List ℕ
      → Option H
      → SftpHandler S H
      → SftpHandler S H × Result StatusCode Status
  unfolding keep_file
  write_to id handle offset bytes none h = (h, err failure)
  write_to id handle offset bytes (some f) h =
      keep_file handle h (λ r. answer r (λ _. status_ok id)) (fs.file_write offset bytes f h.fs)

  unfoldable pub write :
      ℕ → Text → ℕ → List ℕ → SftpHandler S H → SftpHandler S H × Result StatusCode Status
  unfolding write_to
  write id handle offset bytes h =
      write_to id handle offset bytes (as_file (HashMap.get handle h.handles)) h

  unfoldable pub fstat_of :
      ℕ → Option H → SftpHandler S H → SftpHandler S H × Result StatusCode Attrs
  fstat_of id none h = (h, err failure)
  fstat_of id (some f) h =
      let (s, r) = fs.file_stat f h.fs in
      (record h { fs = s }, answer r (λ a. record { id = id; attrs = to_attributes a }))

  unfoldable pub fstat : ℕ → Text → SftpHandler S H → SftpHandler S H × Result StatusCode Attrs
  unfolding fstat_of
  fstat id handle h = fstat_of id (as_file (HashMap.get handle h.handles)) h

  unfoldable pub fsetstat_of :
      ℕ
      → Text
      → FileAttributes
      → Option H
      → SftpHandler S H
      → SftpHandler S H × Result StatusCode Status
  unfolding keep_file
  fsetstat_of id handle attrs none h = (h, err failure)
  fsetstat_of id handle attrs (some f) h =
      keep_file handle h (λ r. answer r (λ _. status_ok id))
        (fs.file_set_stat (from_attributes attrs) f h.fs)

  unfoldable pub fsetstat :
      ℕ → Text → FileAttributes → SftpHandler S H → SftpHandler S H × Result StatusCode Status
  unfolding fsetstat_of
  fsetstat id handle attrs h =
      fsetstat_of id handle attrs (as_file (HashMap.get handle h.handles)) h
