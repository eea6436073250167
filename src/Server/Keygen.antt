-- ===== src/Server/Keygen.antt =====
-- src/server/keygen.rs, and the builder's calls of it in src/server/core.rs: host keys that are
-- loaded, or generated and stored. `K` is russh's `PrivateKey` and `A` its `Algorithm`; what russh
-- does with keys is a parameter.
pub mod Storing
pub mod Starts
use shenron.Common.{ℕ, Bool, true, Option, none, some, List, Text, text, if◌then◌else◌}
use shenron.Error.{
  already_exists, not_found, Error, io, config, Result, ok, err, ◌>>=◌, then_do, lift_io,
}
use shenron.Utf8.{as_bytes, from_utf8}
use shenron.Files.{
  PathBuf, empty, parent, push, Nodes, Disk, exists, is_kind, create_directories, create_new,
  write_all,
}

-- russh's functions on keys. A file that is read is looked up among the nodes; `random` is what the
-- generator gives this time.
pub record KeyCalls (K A : Type 0) : Type 0 where
  pub ed25519 : A
  pub random : A → Result Error K
  pub encrypt : Text → K → Result Error K
  pub to_openssh : K → Result Error Text
  pub load_secret_key : PathBuf → Option Text → Nodes → Result Error K
  pub decode_secret_key : Text → Option Text → Result Error K
  pub write_openssh_file : PathBuf → K → Nodes → Nodes × Result Error (Unit {0})

pub record HostKeyOptions (A : Type 0) : Type 0 where
  pub algorithm : A
  pub passphrase : Option Text

abbrev pub new : {A : Type 0} → A → HostKeyOptions A
new algorithm = record { algorithm = algorithm; passphrase = none }

abbrev pub with_passphrase : {A : Type 0} → Text → HostKeyOptions A → HostKeyOptions A
with_passphrase passphrase options = record options { passphrase = some passphrase }

-- `0o700` and `0o600`
abbrev pub directory_mode : ℕ
directory_mode = 448

abbrev pub key_mode : ℕ
key_mode = 384

abbrev is_empty : PathBuf → Bool
is_empty empty = true
is_empty _ = Bool.false

-- `Err(Error::Io(e)) if e.kind() == AlreadyExists`
abbrev is_lost : Error → Bool
is_lost (io e) = is_kind already_exists e
is_lost _ = Bool.false

-- The directories above a key.
unfoldable pub make_parent : Option PathBuf → Disk → Disk × Result Error (Unit {0})
make_parent none d = (d, ok tt)
make_parent (some p) d =
    if is_empty p then (d, ok tt) else lift_io (create_directories directory_mode p d)

-- The key's file, by `create_new` and `write_all`.
abbrev pub store : PathBuf → List ℕ → Disk → Disk × Result Error (Unit {0})
store path pem d =
    then_do (λ _ d. lift_io (write_all pem path d)) (lift_io (create_new key_mode path d))

abbrev disturbed : (Nodes → Nodes) → Disk → Disk
disturbed others d = record d { nodes = others d.nodes }

module _ {K A : Type 0} (calls : KeyCalls K A) where
  unfoldable pub default_options : HostKeyOptions A
  default_options = record { algorithm = calls.ed25519; passphrase = none }

  -- The key as it goes to disk.
  abbrev on_disk : Option Text → K → Result Error K
  on_disk none key = ok key
  on_disk (some passphrase) key = calls.encrypt passphrase key

  abbrev pub stored_text : Option Text → K → Result Error Text
  stored_text passphrase key = on_disk passphrase key >>= calls.to_openssh

  -- `key.public_key().write_openssh_file(…)`
  abbrev publish : PathBuf → K → Disk → Disk × Result Error (Unit {0})
  publish path key d =
      let (nodes, r) = calls.write_openssh_file (push (text ".pub") path) key d.nodes in
      (record d { nodes = nodes }, r)

  unfoldable pub persist_text : PathBuf → K → Result Error Text → Disk → Disk × Result Error K
  persist_text path key (err e) d = (d, err e)
  persist_text path key (ok pem) d =
      then_do (λ _ d. then_do (λ _ d. (d, ok key)) (publish path key d))
        (store path (as_bytes pem) d)

  unfoldable pub persist : PathBuf → Option Text → Result Error K → Disk → Disk × Result Error K
  unfolding persist_text make_parent
  persist path passphrase (err e) d = (d, err e)
  persist path passphrase (ok key) d =
      then_do (λ _. persist_text path key (stored_text passphrase key))
        (make_parent (parent path) d)

  unfoldable pub generate_and_persist : PathBuf → A → Option Text → Disk → Disk × Result Error K
  unfolding persist
  generate_and_persist path algorithm passphrase d =
      persist path passphrase (calls.random algorithm) d

  abbrev load : PathBuf → Option Text → Disk → Disk × Result Error K
  load path passphrase d = (d, calls.load_secret_key path passphrase d.nodes)

  -- Where the file appeared in the meantime, it is loaded.
  unfoldable pub unless_lost : PathBuf → Option Text → Disk × Result Error K → Disk × Result Error K
  unless_lost path passphrase (d, ok key) = (d, ok key)
  unless_lost path passphrase (d, err e) = if is_lost e then load path passphrase d else (d, err e)

  -- `others` is what other processes do between the test and the new key.
  unfoldable pub load_or_generate :
      PathBuf → HostKeyOptions A → (Nodes → Nodes) → Disk → Disk × Result Error K
  unfolding generate_and_persist unless_lost
  load_or_generate path options others d =
      if exists path d
      then load path options.passphrase d
      else unless_lost path options.passphrase
          (generate_and_persist path options.algorithm options.passphrase (disturbed others d))

  abbrev decoded : Text → Option Text → Option Text → Result Error K
  decoded message passphrase none = err (config message)
  decoded message passphrase (some pem) = calls.decode_secret_key pem passphrase

  -- `message` is what `Utf8Error` prints.
  pub from_pem : Text → List ℕ → Option Text → Result Error K
  from_pem message bytes passphrase = decoded message passphrase (from_utf8 bytes)
