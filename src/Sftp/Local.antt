-- ===== src/Sftp/Local.antt =====
-- src/middleware/builtins/sftp/local.rs: a directory on disk as a file system. cap-std's directory
-- is a parameter.
pub mod Sandbox
pub mod Confined
use shenron.Common.{
  ℕ, zero, suc, ◌+◌, ◌%◌, ◌^◌, Bool, true, false, Option, none, some, List, [], ◌∷◌, ◌++◌, ◌&&◌,
  not, if◌then◌else◌, Text, text, ltb, nat_beq, length, take,
}
use shenron.Error.{ErrorKind, other, IoError, Result, ok, err, then_do}
use shenron.Utf8.{from_utf8_lossy}
use shenron.Sftp.Directory.{
  Seconds, since, before, Metadata, OpenOptions, fresh_options, RawEntry, Dir,
}
use shenron.Sftp.{FileAttr, DirEntry, OpenFlags, Filesystem}

-- `trim_start_matches('/')`
pub trim_slashes : Text → Text
trim_slashes [] = []
trim_slashes (c ∷ t) = if nat_beq c b'/' then trim_slashes t else c ∷ t

pub or_dot : Text → Text
or_dot [] = text "."
or_dot (c ∷ t) = c ∷ t

pub rel : Text → Text
rel path = or_dot (trim_slashes path)

-- `u32::try_from(…).ok()`
unfoldable pub to_u32 : Seconds → Option ℕ
to_u32 (since n) = if ltb n (2 ^ 32) then some n else none
to_u32 (before n) = none

unfoldable pub meta_to_attr : Metadata → FileAttr
meta_to_attr meta = record {
  size = some meta.len;
  uid = some meta.uid;
  gid = some meta.gid;
  permissions = some meta.mode;
  atime = to_u32 meta.atime;
  mtime = to_u32 meta.mtime;
}

-- `mode & 0o7777`
unfoldable pub masked : Option ℕ → Option ℕ
masked none = none
masked (some mode) = some (mode % 2 ^ 12)

-- The options of `open_write`.
unfoldable pub write_options : OpenFlags → FileAttr → OpenOptions
write_options flags attrs = record {
  read = flags.read;
  write = true;
  append = flags.append;
  truncate = flags.truncate;
  create = flags.create && not flags.exclude;
  create_new = flags.create && flags.exclude;
  mode = masked attrs.permissions;
}

abbrev map_ok : {A B : Type 0} → (A → B) → Result IoError A → Result IoError B
map_ok f (ok a) = ok (f a)
map_ok f (err e) = err e

-- The loop of `read_dir`, up to the first entry that fails.
abbrev listed_entry :
    Result IoError RawEntry → Result IoError (List DirEntry) → Result IoError (List DirEntry)
listed_entry (err e) rest = err e
listed_entry (ok entry) rest = elim entry.metadata [
  | err e ↦ err e
  | ok meta ↦
      map_ok
        (λ entries.
          record { name = from_utf8_lossy entry.file_name; attrs = meta_to_attr meta } ∷ entries)
        rest
]

unfoldable pub list_entries : List (Result IoError RawEntry) → Result IoError (List DirEntry)
list_entries [] = ok []
list_entries (entry ∷ entries) = listed_entry entry (list_entries entries)

abbrev listed : Result IoError (List (Result IoError RawEntry)) → Result IoError (List DirEntry)
listed (ok entries) = list_entries entries
listed (err e) = err e

-- The path that a client sees.
unfoldable pub virtual_path : List ℕ → Text
virtual_path canonical = b'/' ∷ from_utf8_lossy canonical

-- The buffer of `len` bytes.
pub buffer : ℕ → (ℕ → ℕ) → List ℕ
buffer zero byte = []
buffer (suc len) byte = byte 0 ∷ buffer len (λ i. byte (suc i))

-- `buffer.truncate(n)`
abbrev truncated : ℕ → Result IoError (ℕ × (ℕ → ℕ)) → Result IoError (List ℕ)
truncated len (ok (n, byte)) = ok (take n (buffer len byte))
truncated len (err e) = err e

abbrev pub io_other : IoError
io_other = record { kind = other; message = [] }

abbrev pub given :
    {D : Type 0}
    → Option ℕ
    → (ℕ → D → D × Result IoError (Unit {0}))
    → D
    → D × Result IoError (Unit {0})
given none act d = (d, ok tt)
given (some n) act d = act n d

module _ {D F : Type 0} (dir : Dir D F) where
  -- `LocalFilesystem`, which answers in place of the directory.
  abbrev read_dir : Text → D → D × Result IoError (List DirEntry)
  read_dir path d = (d, listed (dir.read_dir (rel path) d))

  abbrev stat : Text → D → D × Result IoError FileAttr
  stat path d = (d, map_ok meta_to_attr (dir.metadata (rel path) d))

  abbrev lstat : Text → D → D × Result IoError FileAttr
  lstat path d = (d, map_ok meta_to_attr (dir.symlink_metadata (rel path) d))

  abbrev open_read : Text → D → D × Result IoError F
  open_read path d = dir.open_with (rel path) (record fresh_options { read = true }) d

  abbrev open_write : Text → OpenFlags → FileAttr → D → D × Result IoError F
  open_write path flags attrs d = dir.open_with (rel path) (write_options flags attrs) d

  abbrev mkdir : Text → FileAttr → D → D × Result IoError (Unit {0})
  mkdir path attrs d = dir.create_dir (rel path) (masked attrs.permissions) d

  abbrev rmdir : Text → D → D × Result IoError (Unit {0})
  rmdir path d = dir.remove_dir (rel path) d

  abbrev remove : Text → D → D × Result IoError (Unit {0})
  remove path d = dir.remove_file (rel path) d

  abbrev rename : Text → Text → D → D × Result IoError (Unit {0})
  rename from to d = dir.rename (rel from) (rel to) d

  -- The size is set on the file that is opened for it.
  abbrev set_size : Text → ℕ → D → D × Result IoError (Unit {0})
  set_size path size d =
      then_do (λ f. dir.set_len f size)
        (dir.open_with (rel path) (record fresh_options { write = true }) d)

  abbrev set_stat : Text → FileAttr → D → D × Result IoError (Unit {0})
  set_stat path attrs d =
      then_do (λ _. given attrs.size (set_size path))
        (given attrs.permissions (dir.set_permissions (rel path)) d)

  abbrev realpath : Text → D → D × Result IoError Text
  realpath path d = (d, map_ok virtual_path (dir.canonicalize (rel path) d))

  -- `LocalFile`
  abbrev file_read : ℕ → ℕ → F → D → D × F × Result IoError (List ℕ)
  file_read offset len f d = (d, f, truncated len (dir.read_at f offset len d))

  -- The file, which an operation leaves as it is, beside its result.
  abbrev with_file : {A : Type 0} → F → D × Result IoError A → D × F × Result IoError A
  with_file f (d, r) = (d, f, r)

  -- `u32::try_from(data.len())`
  abbrev counted : List ℕ → Result IoError ℕ
  counted bytes = if ltb (length bytes) (2 ^ 32) then ok (length bytes) else err io_other

  abbrev file_write : ℕ → List ℕ → F → D → D × F × Result IoError ℕ
  file_write offset bytes f d =
      with_file f (then_do (λ _ d'. (d', counted bytes)) (dir.write_all_at f bytes offset d))

  abbrev file_stat : F → D → D × Result IoError FileAttr
  file_stat f d = (d, map_ok meta_to_attr (dir.file_metadata f d))

  abbrev file_set_stat : FileAttr → F → D → D × F × Result IoError (Unit {0})
  file_set_stat attrs f d = with_file f (
      then_do (λ _. given attrs.size (dir.set_len f))
        (given attrs.permissions (dir.file_set_permissions f) d))

  abbrev file_close : F → D → D × Result IoError (Unit {0})
  file_close f d = (d, ok tt)

  pub local : Filesystem D F
  local = record {
    read_dir = read_dir;
    stat = stat;
    lstat = lstat;
    open_read = open_read;
    open_write = open_write;
    mkdir = mkdir;
    rmdir = rmdir;
    remove = remove;
    rename = rename;
    set_stat = set_stat;
    realpath = realpath;
    file_read = file_read;
    file_write = file_write;
    file_stat = file_stat;
    file_set_stat = file_set_stat;
    file_close = file_close;
  }
