-- ===== src/Sftp/Local/Confined.antt =====
-- src/middleware/builtins/sftp/local.rs: what the directory on disk is asked for.
use shenron.Common.{
  ◌≡◌, refl, ap, Bool, true, false, ◌&&◌, not, if◌then◌else◌, [], ◌∷◌, Text, nat_beq, arith,
}
use shenron.Error.{IoError, Result, err, then_do}
use shenron.Sftp.{FileAttr, OpenFlags, Filesystem}
use shenron.Sftp.Directory.{Dir, fresh_options}
use shenron.Sftp.Local.{local, rel, io_other, given}
use shenron.Sftp.Local.Sandbox.{IsRelative, rel-IsRelative}

abbrev is_relative : Text → Bool
is_relative [] = false
is_relative (c ∷ t) = not (nat_beq c b'/')

IsRelative-is_relative : (t : Text) → IsRelative t → is_relative t ≡ true
IsRelative-is_relative [] h = elim h [ ]
IsRelative-is_relative (c ∷ t) h = ground (arith, h)

rel-is_relative : (t : Text) → is_relative (rel t) ≡ true
rel-is_relative t = IsRelative-is_relative (rel t) (rel-IsRelative t).0

-- A call that is made where the path is relative, and fails elsewhere.
abbrev asked : {A : Type 0} → Bool → Result IoError A → Result IoError A
asked b r = if b then r else err io_other

module _ {D : Type 0} where
  abbrev called : {A : Type 0} → Bool → (D → D × Result IoError A) → D → D × Result IoError A
  called b act d = if b then act d else (d, err io_other)

module _ {D F : Type 0} where
  -- The directory, but every call with a path that is empty or starts at the root fails.
  abbrev pub confined : Dir D F → Dir D F
  confined dir = record dir {
    read_dir = λ path d. asked (is_relative path) (dir.read_dir path d);
    metadata = λ path d. asked (is_relative path) (dir.metadata path d);
    symlink_metadata = λ path d. asked (is_relative path) (dir.symlink_metadata path d);
    open_with = λ path options. called (is_relative path) (dir.open_with path options);
    create_dir = λ path mode. called (is_relative path) (dir.create_dir path mode);
    remove_dir = λ path. called (is_relative path) (dir.remove_dir path);
    remove_file = λ path. called (is_relative path) (dir.remove_file path);
    rename = λ from to. called (is_relative from && is_relative to) (dir.rename from to);
    set_permissions = λ path mode. called (is_relative path) (dir.set_permissions path mode);
    canonicalize = λ path d. asked (is_relative path) (dir.canonicalize path d);
  }

  -- Two file systems that do the same in every operation that takes a path.
  pub record SameOnPaths (fs other : Filesystem D F) : Type 0 where
    pub lists : (path : Text) (d : D) → fs.read_dir path d ≡ other.read_dir path d
    pub stats : (path : Text) (d : D) → fs.stat path d ≡ other.stat path d
    pub lstats : (path : Text) (d : D) → fs.lstat path d ≡ other.lstat path d
    pub reads : (path : Text) (d : D) → fs.open_read path d ≡ other.open_read path d
    pub writes :
        (path : Text) (flags : OpenFlags) (attrs : FileAttr) (d : D)
        → fs.open_write path flags attrs d ≡ other.open_write path flags attrs d
    pub makes :
        (path : Text) (attrs : FileAttr) (d : D) → fs.mkdir path attrs d ≡ other.mkdir path attrs d
    pub removes_directory : (path : Text) (d : D) → fs.rmdir path d ≡ other.rmdir path d
    pub removes : (path : Text) (d : D) → fs.remove path d ≡ other.remove path d
    pub renames : (from to : Text) (d : D) → fs.rename from to d ≡ other.rename from to d
    pub sets :
        (path : Text) (attrs : FileAttr) (d : D)
        → fs.set_stat path attrs d ≡ other.set_stat path attrs d
    pub resolves : (path : Text) (d : D) → fs.realpath path d ≡ other.realpath path d

module _ {D F : Type 0} (dir : Dir D F) where
  -- `set_stat`, where its two calls are made under this test.
  abbrev sets_under : Bool → Text → FileAttr → D → D × Result IoError (Unit {0})
  sets_under b path attrs d =
      then_do
        (λ _. given attrs.size (λ size d'.
          then_do (λ f. dir.set_len f size)
            (called b (dir.open_with (rel path) (record fresh_options { write = true })) d')))
        (given attrs.permissions (λ mode. called b (dir.set_permissions (rel path) mode)) d)

  -- The file system on disk never asks its directory for a path that is empty or starts at the
  -- root: it does the same, in every operation that takes a path, on a directory that refuses those.
  pub local-SameOnPaths : SameOnPaths (local (confined dir)) (local dir)
  unfolding local
  local-SameOnPaths = record {
    lists = λ path d. rw (rel-is_relative path) refl;
    stats = λ path d. rw (rel-is_relative path) refl;
    lstats = λ path d. rw (rel-is_relative path) refl;
    reads = λ path d. rw (rel-is_relative path) refl;
    writes = λ path flags attrs d. rw (rel-is_relative path) refl;
    makes = λ path attrs d. rw (rel-is_relative path) refl;
    removes_directory = λ path d. rw (rel-is_relative path) refl;
    removes = λ path d. rw (rel-is_relative path) refl;
    renames = λ from to d. rw (rel-is_relative from) (rw (rel-is_relative to) refl);
    sets = λ path attrs d. ap (λ b. sets_under b path attrs d) (rel-is_relative path);
    resolves = λ path d. rw (rel-is_relative path) refl;
  }
