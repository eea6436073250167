-- ===== src/Sftp/PathRequests.antt =====
-- src/middleware/builtins/sftp/handler.rs: the requests that only ask the filesystem.
use shenron.Common.{ℕ, [], ◌∷◌, Text, text, text_eq}
use shenron.Error.{IoError, Result}
use shenron.Sftp.{FileAttributes, to_attributes, from_attributes, default_attributes, Filesystem}
use shenron.Sftp.Protocol.{StatusCode, Status, Name, Attrs, status_ok, answer}
use shenron.Sftp.Handler.{SftpHandler}

module _ {S H : Type 0} (fs : Filesystem S H) where
  -- A request that only asks the filesystem.
  ask_fs :
      {A B : Type 0}
      → (A → B)
      → SftpHandler S H
      → S × Result IoError A
      → SftpHandler S H × Result StatusCode B
  ask_fs f h (s, r) = (record h { fs = s }, answer r f)

  unfoldable pub realpath : ℕ → Text → SftpHandler S H → SftpHandler S H × Result StatusCode Name
  unfolding ask_fs
  realpath id path h =
      ask_fs
        (λ real. record {
          id = id;
          files = record { filename = real; longname = text "Ok"; attrs = default_attributes } ∷ [];
        })
        h (fs.realpath path h.fs)

  unfoldable pub stat : ℕ → Text → SftpHandler S H → SftpHandler S H × Result StatusCode Attrs
  unfolding ask_fs
  stat id path h = ask_fs (λ a. record { id = id; attrs = to_attributes a }) h (fs.stat path h.fs)

  unfoldable pub lstat : ℕ → Text → SftpHandler S H → SftpHandler S H × Result StatusCode Attrs
  unfolding ask_fs
  lstat id path h = ask_fs (λ a. record { id = id; attrs = to_attributes a }) h (fs.lstat path h.fs)

  unfoldable pub remove : ℕ → Text → SftpHandler S H → SftpHandler S H × Result StatusCode Status
  unfolding ask_fs
  remove id filename h = ask_fs (λ _. status_ok id) h (fs.remove filename h.fs)

  unfoldable pub mkdir :
      ℕ → Text → FileAttributes → SftpHandler S H → SftpHandler S H × Result StatusCode Status
  unfolding ask_fs
  mkdir id path attrs h = ask_fs (λ _. status_ok id) h (fs.mkdir path (from_attributes attrs) h.fs)

  unfoldable pub rmdir : ℕ → Text → SftpHandler S H → SftpHandler S H × Result StatusCode Status
  unfolding ask_fs
  rmdir id path h = ask_fs (λ _. status_ok id) h (fs.rmdir path h.fs)

  unfoldable pub rename :
      ℕ → Text → Text → SftpHandler S H → SftpHandler S H × Result StatusCode Status
  unfolding ask_fs
  rename id oldpath newpath h = ask_fs (λ _. status_ok id) h (fs.rename oldpath newpath h.fs)

  unfoldable pub setstat :
      ℕ → Text → FileAttributes → SftpHandler S H → SftpHandler S H × Result StatusCode Status
  unfolding ask_fs
  setstat id path attrs h =
      ask_fs (λ _. status_ok id) h (fs.set_stat path (from_attributes attrs) h.fs)
