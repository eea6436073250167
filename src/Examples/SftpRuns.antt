-- ===== src/Examples/SftpRuns.antt =====
-- A filesystem with one directory and one file, and requests to it.
use shenron.Common.{
  ℕ, ◌+◌, ◌%◌, ◌≡◌, refl, Bool, true, false, none, some, List, [], ◌∷◌, Text, text, text_eq,
  text_beq, arith, map, concat, All, length, take, drop,
}
use shenron.Error.{IoError, unsupported, Result, ok, err}
use shenron.HashMap
use shenron.Format.{format_016x}
use shenron.Sftp.{FileAttr, DirEntry, Filesystem, default_attributes, OpenFlags}
use shenron.Sftp.Handler.{
  SftpHandler, open_file, insert_opened, open_result, next_handle, new, file, opendir, read, close,
}
use shenron.Sftp.Protocol.{File, eof}
use shenron.Sftp.ReadDir.{to_file}
use shenron.Sftp.ReadDir.Paging.{IsPage, read_all, read_all-opendir}
use shenron.Sftp.Calls.{Call, call_open, call_opendir, serve, serve_all}
use shenron.Sftp.Handler.Reads.{Answers}
use shenron.Sftp.Calls.Dead.{IsDead, close-IsDead}
use shenron.Sftp.Handles.Fresh.{serve-get_other}
use shenron.Sftp.Directory.{Dir}
use shenron.Sftp.Local.{local}
use shenron.Sftp.Local.Confined.{confined, SameOnPaths, local-SameOnPaths}
use shenron.Sftp.Local.Sandbox.{read-local}
use shenron.Sftp.Longname.{mode_string}
use shenron.Sftp.Longname.Modes.{permission_bits, permission_bits-mode_string}

abbrev no_attr : FileAttr
no_attr = record {
  size = none;
  uid = none;
  gid = none;
  permissions = none;
  atime = none;
  mtime = none;
}

abbrev entries : List DirEntry
entries =
    record { name = text "a"; attrs = no_attr } ∷ record { name = text "b"; attrs = no_attr } ∷ []

abbrev refused : {A : Type 0} → ℕ → ℕ × Result IoError A
refused s = (s, err (record { kind = unsupported; message = [] }))

-- The state counts the reads; the file holds three bytes.
abbrev tiny : Filesystem ℕ ℕ
tiny = record {
  read_dir = λ path s. (s, ok entries);
  stat = λ path s. (s, ok no_attr);
  lstat = λ path s. (s, ok no_attr);
  open_read = λ path s. (s, ok 0);
  open_write = λ path flags attrs s. refused s;
  mkdir = λ path attrs s. refused s;
  rmdir = λ path s. refused s;
  remove = λ path s. refused s;
  rename = λ from to s. refused s;
  set_stat = λ path attrs s. refused s;
  realpath = λ path s. (s, ok path);
  file_read = λ offset len f s. (s + 1, f, ok (take len (drop offset (1 ∷ 2 ∷ 3 ∷ []))));
  file_write = λ offset bytes f s. (s, f, ok (length bytes));
  file_stat = λ f s. (s, ok no_attr);
  file_set_stat = λ attrs f s. (s, f, ok tt);
  file_close = λ f s. (s, ok tt);
}

abbrev no_time : Bool → ℕ → Text
no_time recent mtime = []

abbrev fresh : SftpHandler ℕ ℕ
fresh = new 0

fresh-lists : tiny.read_dir (text "/") fresh.fs ≡ (0, ok entries)
unfolding new
fresh-lists = refl

read_all-opendir_example :
    (handle : Text) × ((opendir tiny 1 (text "/") fresh).1
      ≡ ok (record { id = 1; handle = handle }))
    × (pages : List (List File)) × (read_all no_time 0 3 1 handle
          (opendir tiny 1 (text "/") fresh).0
        ≡ some (pages, eof))
    × (concat pages ≡ map (to_file no_time 0) entries)
    × All IsPage pages
read_all-opendir_example =
    read_all-opendir no_time 0 tiny 3 1 (text "/") fresh 0 entries fresh-lists (omega arith)

abbrev read_only : OpenFlags
read_only = record {
  read = true;
  write = false;
  append = false;
  create = false;
  truncate = false;
  exclude = false;
}

-- One file is opened; its handle is the first.
abbrev opening : List (ℕ × ℕ × Call)
opening = (0, 1, call_open (text "f") read_only default_attributes) ∷ []

abbrev first : Text
first = text "0000000000000000"

abbrev after_opening : SftpHandler ℕ ℕ
after_opening = serve_all no_time tiny opening fresh

first-open : HashMap.get first after_opening.handles ≡ some (file 0)
unfolding HashMap.get HashMap.insert serve_all serve open_file open_result insert_opened next_handle
    new format_016x text_beq
first-open = refl

serve-get_other_example :
    HashMap.get first (serve no_time tiny 0 2 (call_opendir (text "/")) after_opening).handles
    ≡ some (file 0)
serve-get_other_example =
    serve-get_other no_time tiny opening 0 0 2 (call_opendir (text "/")) first (file 0)
      (omega arith) (λ e. ground arith) first-open

close-IsDead_example : IsDead no_time tiny first (close tiny 3 first after_opening).0
close-IsDead_example = close-IsDead no_time tiny 3 first after_opening

permission_bits-mode_string_example :
    (length (mode_string 0o100644) ≡ 10)
    × (permission_bits (mode_string 0o100644) ≡ some (0o100644 % 512))
permission_bits-mode_string_example = permission_bits-mode_string 0o100644

-- A directory that refuses everything but reads of zeros.
abbrev no_io : {A : Type 0} → Result IoError A
no_io = err (record { kind = unsupported; message = [] })

abbrev zeros : Dir ℕ ℕ
zeros = record {
  read_dir = λ path d. ok [];
  metadata = λ path d. no_io;
  symlink_metadata = λ path d. no_io;
  open_with = λ path options d. (d, ok 0);
  create_dir = λ path mode d. (d, no_io);
  remove_dir = λ path d. (d, no_io);
  remove_file = λ path d. (d, no_io);
  rename = λ from to d. (d, no_io);
  set_permissions = λ path mode d. (d, no_io);
  canonicalize = λ path d. ok [];
  read_at = λ f offset len d. ok (len, λ i. 0);
  write_all_at = λ f bytes offset d. (d, no_io);
  file_metadata = λ f d. no_io;
  file_set_permissions = λ f mode d. (d, no_io);
  set_len = λ f len d. (d, no_io);
}

abbrev on_disk : SftpHandler ℕ ℕ
on_disk = serve_all no_time (local zeros) opening (new 0)

read-local_example : Answers 4 2 (read (local zeros) 4 first 1 2 on_disk).1
read-local_example = read-local zeros 4 1 2 first on_disk

local-SameOnPaths_example : SameOnPaths (local (confined zeros)) (local zeros)
local-SameOnPaths_example = local-SameOnPaths zeros
