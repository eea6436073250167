-- ===== src/Sftp.antt =====
-- src/middleware/builtins/sftp/filesystem.rs, and the protocol types of russh-sftp as far as the
-- source names them.
pub mod Longname
pub mod Protocol
pub mod Handler
pub mod PathRequests
pub mod ReadDir
pub mod Calls
pub mod Serving
pub mod Handles
pub mod Directory
pub mod Local
use shenron.Common.{ℕ, Bool, Option, none, List, Text}
use shenron.Error.{IoError, Result}

pub record FileAttr : Type 0 where
  pub size : Option ℕ
  pub uid : Option ℕ
  pub gid : Option ℕ
  pub permissions : Option ℕ
  pub atime : Option ℕ
  pub mtime : Option ℕ

-- `russh_sftp::protocol::FileAttributes`, in the fields that the source reads or sets; it leaves
-- the others at their defaults.
pub record FileAttributes : Type 0 where
  pub size : Option ℕ
  pub uid : Option ℕ
  pub gid : Option ℕ
  pub permissions : Option ℕ
  pub atime : Option ℕ
  pub mtime : Option ℕ

-- `impl From<FileAttr> for FileAttributes`
unfoldable pub to_attributes : FileAttr → FileAttributes
to_attributes val = record {
  size = val.size;
  uid = val.uid;
  gid = val.gid;
  permissions = val.permissions;
  atime = val.atime;
  mtime = val.mtime;
}

-- `impl From<FileAttributes> for FileAttr`
unfoldable pub from_attributes : FileAttributes → FileAttr
from_attributes val = record {
  size = val.size;
  uid = val.uid;
  gid = val.gid;
  permissions = val.permissions;
  atime = val.atime;
  mtime = val.mtime;
}

abbrev pub default_attributes : FileAttributes
default_attributes = record {
  size = none;
  uid = none;
  gid = none;
  permissions = none;
  atime = none;
  mtime = none;
}

pub record DirEntry : Type 0 where
  pub name : Text
  pub attrs : FileAttr

-- `russh_sftp::protocol::OpenFlags`, a set of flags.
pub record OpenFlags : Type 0 where
  pub read : Bool
  pub write : Bool
  pub append : Bool
  pub create : Bool
  pub truncate : Bool
  pub exclude : Bool

-- The traits `Filesystem` and `FileHandle`, over the state `S` of the backend and its open files
-- `H`. A method that takes `&mut self` returns the file as it leaves it.
pub record Filesystem (S H : Type 0) : Type 0 where
  pub read_dir : Text → S → S × Result IoError (List DirEntry)
  pub stat : Text → S → S × Result IoError FileAttr
  pub lstat : Text → S → S × Result IoError FileAttr
  pub open_read : Text → S → S × Result IoError H
  pub open_write : Text → OpenFlags → FileAttr → S → S × Result IoError H
  pub mkdir : Text → FileAttr → S → S × Result IoError (Unit {0})
  pub rmdir : Text → S → S × Result IoError (Unit {0})
  pub remove : Text → S → S × Result IoError (Unit {0})
  pub rename : Text → Text → S → S × Result IoError (Unit {0})
  pub set_stat : Text → FileAttr → S → S × Result IoError (Unit {0})
  pub realpath : Text → S → S × Result IoError Text
  pub file_read : ℕ → ℕ → H → S → S × H × Result IoError (List ℕ)
  pub file_write : ℕ → List ℕ → H → S → S × H × Result IoError ℕ
  pub file_stat : H → S → S × Result IoError FileAttr
  pub file_set_stat : FileAttr → H → S → S × H × Result IoError (Unit {0})
  pub file_close : H → S → S × Result IoError (Unit {0})
