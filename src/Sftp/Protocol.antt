-- ===== src/Sftp/Protocol.antt =====
-- The statuses and responses of russh-sftp, as src/middleware/builtins/sftp/handler.rs uses them.
use shenron.Common.{ℕ, List, Text, text, text_eq}
use shenron.Error.{ErrorKind, not_found, permission_denied, unsupported, IoError, Result, ok, err}
use shenron.Sftp.{FileAttributes}

-- `russh_sftp::protocol::StatusCode`, the codes that the source uses.
pub data StatusCode : Type 0 where
  ok_code eof no_such_file permission_denied_code failure op_unsupported connection_lost :
      StatusCode

-- `status_code`
unfoldable pub status_code : ErrorKind → StatusCode
status_code not_found = no_such_file
status_code permission_denied = permission_denied_code
status_code unsupported = op_unsupported
status_code _ = failure

-- The responses of russh-sftp.
pub record Status : Type 0 where
  pub id : ℕ
  pub status_code : StatusCode
  pub error_message : Text
  pub language_tag : Text

pub record Handle : Type 0 where
  pub id : ℕ
  pub handle : Text

pub record Data : Type 0 where
  pub id : ℕ
  pub bytes : List ℕ

pub record File : Type 0 where
  pub filename : Text
  pub longname : Text
  pub attrs : FileAttributes

pub record Name : Type 0 where
  pub id : ℕ
  pub files : List File

pub record Attrs : Type 0 where
  pub id : ℕ
  pub attrs : FileAttributes

unfoldable pub status_ok : ℕ → Status
status_ok id = record {
  id = id;
  status_code = ok_code;
  error_message = text "Ok";
  language_tag = text "en-US";
}

-- `.map_err(|e| status_code(&e))?`, and what follows a success.
abbrev pub answer : {A B : Type 0} → Result IoError A → (A → B) → Result StatusCode B
answer (ok a) f = ok (f a)
answer (err e) f = err (status_code e.kind)
