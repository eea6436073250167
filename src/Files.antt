-- ===== src/Files.antt =====
-- The part of `std::fs` and `std::path` that src/server/keygen.rs uses: paths by their components,
-- files and directories with the mode they were created with (before the umask), and system calls
-- that may fail. Symbolic links are left out.
pub mod Growth
use shenron.Common.{
  ℕ, suc, ◌≡◌, ◌↔◌, Bool, true, false, Option, none, some, List, [], ◌++◌, ◌&&◌, arith, Text, text,
  text_beq, text_beq_iff, Equality, ◌==◌, is_some, if◌then◌else◌, take,
}
use shenron.Error.{ErrorKind, not_found, already_exists, other, IoError, Error, io, Result, ok, err}
use shenron.HashMap.{HashMap, get, insert}

-- A path, from its last component; `empty` is the path "".
pub data PathBuf : Type 0 where
  root empty : PathBuf
  child : PathBuf → Text → PathBuf

abbrev path_beq : PathBuf → PathBuf → Bool
path_beq root root = true
path_beq empty empty = true
path_beq (child p n) (child q m) = path_beq p q && text_beq n m
path_beq _ _ = false

pub path_beq_iff : (p q : PathBuf) → (path_beq p q ≡ true) ↔ (p ≡ q)
path_beq_iff root root = ground arith
path_beq_iff root empty = ground arith
path_beq_iff root (child q m) = ground arith
path_beq_iff empty root = ground arith
path_beq_iff empty empty = ground arith
path_beq_iff empty (child q m) = ground arith
path_beq_iff (child p n) root = ground arith
path_beq_iff (child p n) empty = ground arith
path_beq_iff (child p n) (child q m) = ground (arith, path_beq_iff p q, text_beq_iff n m)

instance abbrev pub path_eq : Equality PathBuf
path_eq = record { same_as = path_beq; same_iff = path_beq_iff }

-- `Path::parent`
abbrev pub parent : PathBuf → Option PathBuf
parent root = none
parent empty = none
parent (child p n) = some p

-- `OsString::push`, on a path.
abbrev pub push : Text → PathBuf → PathBuf
push suffix root = child root suffix
push suffix empty = child empty suffix
push suffix (child p n) = child p (n ++ suffix)

pub data Node : Type 0 where
  file : (mode : ℕ) → List ℕ → Node
  directory : (mode : ℕ) → Node

abbrev pub Nodes : Type 0
Nodes = HashMap PathBuf Node

-- `faults n` says whether the n-th system call fails for a reason of its own, and how many bytes
-- of a write are on disk by then.
pub record Disk : Type 0 where
  pub nodes : Nodes
  pub calls : ℕ
  pub faults : ℕ → Option (IoError × ℕ)

-- The root is there, with its usual mode; the path "" names nothing.
unfoldable pub find : PathBuf → Nodes → Option Node
find root nodes = some (directory 493)
find empty nodes = none
find (child p n) nodes = get (child p n) nodes

abbrev pub exists : PathBuf → Disk → Bool
exists p d = is_some (find p d.nodes)

abbrev is_directory : Option Node → Bool
is_directory (some (directory mode)) = true
is_directory _ = false

-- Whether entries can be made under a path; "" stands for the working directory.
abbrev takes_entries : PathBuf → Nodes → Bool
takes_entries empty nodes = true
takes_entries p nodes = is_directory (find p nodes)

abbrev pub io_error : ErrorKind → IoError
io_error kind = record { kind = kind; message = [] }

-- Why an entry cannot be made under a path: a component is missing, or is a file.
missing_kind : PathBuf → Nodes → ErrorKind
missing_kind root nodes = not_found
missing_kind empty nodes = not_found
missing_kind (child p n) nodes =
    let rest = missing_kind p nodes in if is_some (get (child p n) nodes) then other else rest

-- A new entry, where there is none.
unfoldable new_entry : Node → PathBuf → Nodes → Nodes × Result IoError (Unit {0})
unfolding missing_kind
new_entry node root nodes = (nodes, err (io_error already_exists))
new_entry node empty nodes = (nodes, err (io_error not_found))
new_entry node (child p n) nodes =
    if is_some (get (child p n) nodes)
    then (nodes, err (io_error already_exists))
    else if takes_entries p nodes
    then (insert (child p n) node nodes, ok tt)
    else (nodes, err (io_error (missing_kind p nodes)))

-- A system call on the nodes, where it does not fail for a reason of its own.
abbrev answered : Disk → Nodes × Result IoError (Unit {0}) → Disk × Result IoError (Unit {0})
answered d (nodes, r) = (record d { nodes = nodes; calls = suc d.calls }, r)

abbrev unless_fault :
    Option (IoError × ℕ)
    → (Nodes → Nodes × Result IoError (Unit {0}))
    → Disk
    → Disk × Result IoError (Unit {0})
unless_fault none act d = answered d (act d.nodes)
unless_fault (some (e, _)) act d = answered d (d.nodes, err e)

abbrev pub call :
    (Nodes → Nodes × Result IoError (Unit {0})) → Disk → Disk × Result IoError (Unit {0})
call act d = unless_fault (d.faults d.calls) act d

abbrev make_directory : ℕ → PathBuf → Disk → Disk × Result IoError (Unit {0})
make_directory mode p = call (new_entry (directory mode) p)

-- `Err(_) if path.is_dir() => Ok(())`
abbrev tolerated : PathBuf → Disk × Result IoError (Unit {0}) → Disk × Result IoError (Unit {0})
tolerated p (d, ok _) = (d, ok tt)
tolerated p (d, err e) = (d, if is_directory (find p d.nodes) then ok tt else err e)

-- The second attempt, once the parent is made.
abbrev made_again :
    ℕ → PathBuf → Disk × Result IoError (Unit {0}) → Disk × Result IoError (Unit {0})
made_again mode p (d, ok _) = tolerated p (make_directory mode p d)
made_again mode p (d, err e) = (d, err e)

abbrev pub is_kind : ErrorKind → IoError → Bool
is_kind not_found e = elim e.kind [ not_found ↦ true | _ ↦ false ]
is_kind already_exists e = elim e.kind [ already_exists ↦ true | _ ↦ false ]
is_kind _ e = false

made_first :
    (Disk → Disk × Result IoError (Unit {0}))
    → ℕ
    → PathBuf
    → Disk × Result IoError (Unit {0})
    → Disk × Result IoError (Unit {0})
made_first make_parent mode p (d, ok _) = (d, ok tt)
made_first make_parent mode p (d, err e) =
    if is_kind not_found e then made_again mode p (make_parent d) else tolerated p (d, err e)

-- `DirBuilder::create`, recursive.
unfoldable pub create_directories : ℕ → PathBuf → Disk → Disk × Result IoError (Unit {0})
unfolding new_entry made_first
create_directories mode root d =
    made_first (λ d. (d, err (io_error other))) mode root (make_directory mode root d)
create_directories mode empty d = (d, ok tt)
create_directories mode (child p n) d =
    made_first (create_directories mode p) mode (child p n) (make_directory mode (child p n) d)

-- `OpenOptions::open`, for writing and with `create_new`.
unfoldable pub create_new : ℕ → PathBuf → Disk → Disk × Result IoError (Unit {0})
unfolding new_entry
create_new mode p = call (new_entry (file mode []) p)

-- More bytes at the end of an open file.
abbrev appended_to : Option Node → List ℕ → PathBuf → Nodes → Nodes
appended_to (some (file mode old)) bytes p nodes = insert p (file mode (old ++ bytes)) nodes
appended_to _ bytes p nodes = nodes

abbrev append_bytes : List ℕ → PathBuf → Nodes → Nodes
append_bytes bytes p nodes = appended_to (find p nodes) bytes p nodes

-- `write_all`; where it fails, some of the bytes are in the file.
abbrev written : Option (IoError × ℕ) → List ℕ → PathBuf → Disk → Disk × Result IoError (Unit {0})
written none bytes p d = answered d (append_bytes bytes p d.nodes, ok tt)
written (some (e, count)) bytes p d = answered d (append_bytes (take count bytes) p d.nodes, err e)

unfoldable pub write_all : List ℕ → PathBuf → Disk → Disk × Result IoError (Unit {0})
write_all bytes p d = written (d.faults d.calls) bytes p d
