-- ===== src/Sftp/Directory.antt =====
-- cap-std's directory, on which src/middleware/builtins/sftp/local.rs stands: its state `D`, its
-- open files `F`, and its calls.
use shenron.Common.{ℕ, Bool, false, Option, none, List, Text}
use shenron.Error.{IoError, Result}

-- An `i64` of seconds, before 1970 or since.
pub data Seconds : Type 0 where
  since before : ℕ → Seconds

pub record Metadata : Type 0 where
  pub len : ℕ
  pub uid : ℕ
  pub gid : ℕ
  pub mode : ℕ
  pub atime : Seconds
  pub mtime : Seconds

-- `cap_std::fs::OpenOptions`
pub record OpenOptions : Type 0 where
  pub read : Bool
  pub write : Bool
  pub append : Bool
  pub truncate : Bool
  pub create : Bool
  pub create_new : Bool
  pub mode : Option ℕ

abbrev pub fresh_options : OpenOptions
fresh_options = record {
  read = false;
  write = false;
  append = false;
  truncate = false;
  create = false;
  create_new = false;
  mode = none;
}

pub record RawEntry : Type 0 where
  pub file_name : List ℕ
  pub metadata : Result IoError Metadata

-- `read_at` gives the number of bytes read and the bytes of the buffer.
pub record Dir (D F : Type 0) : Type 0 where
  pub read_dir : Text → D → Result IoError (List (Result IoError RawEntry))
  pub metadata : Text → D → Result IoError Metadata
  pub symlink_metadata : Text → D → Result IoError Metadata
  pub open_with : Text → OpenOptions → D → D × Result IoError F
  pub create_dir : Text → Option ℕ → D → D × Result IoError (Unit {0})
  pub remove_dir : Text → D → D × Result IoError (Unit {0})
  pub remove_file : Text → D → D × Result IoError (Unit {0})
  pub rename : Text → Text → D → D × Result IoError (Unit {0})
  pub set_permissions : Text → ℕ → D → D × Result IoError (Unit {0})
  pub canonicalize : Text → D → Result IoError (List ℕ)
  pub read_at : F → ℕ → ℕ → D → Result IoError (ℕ × (ℕ → ℕ))
  pub write_all_at : F → List ℕ → ℕ → D → D × Result IoError (Unit {0})
  pub file_metadata : F → D → Result IoError Metadata
  pub file_set_permissions : F → ℕ → D → D × Result IoError (Unit {0})
  pub set_len : F → ℕ → D → D × Result IoError (Unit {0})
