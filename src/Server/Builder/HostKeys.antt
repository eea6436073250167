-- ===== src/Server/Builder/HostKeys.antt =====
-- src/server/core.rs: the builder's calls that read, generate or decode a host key, and the default
-- key of `serve`, on a disk.
use shenron.Common.{ℕ, arith, sym, ◌∙◌, ◌≡◌, ap, subst, none, some, List, [], ◌∷◌, ◌++◌, Text}
use shenron.Error.{Error, Result, ok, err}
use shenron.Files.{PathBuf, empty, child, Nodes, Disk}
use shenron.Server.Builder.{Server, host_key, host_key_read, default_host_key_path}
use shenron.Server.Keygen.{KeyCalls, HostKeyOptions, default_options, load_or_generate, from_pem}
use shenron.Server.Keygen.Storing.{PublishesOnly, Reads}
use shenron.Server.Keygen.Starts.{load_or_generate-again}

abbrev pub default_path : PathBuf
default_path = child empty default_host_key_path

module _ {K A P C V : Type 0} (calls : KeyCalls K A) where
  pub host_key_file : PathBuf → Server K P C V → Disk → Result Error (Server K P C V)
  host_key_file path s d = host_key_read (calls.load_secret_key path none d.nodes) s

  pub host_key_file_with : PathBuf → Text → Server K P C V → Disk → Result Error (Server K P C V)
  host_key_file_with path passphrase s d =
      host_key_read (calls.load_secret_key path (some passphrase) d.nodes) s

  abbrev pub with_read :
      Server K P C V → Disk × Result Error K → Disk × Result Error (Server K P C V)
  with_read s (d, r) = (d, host_key_read r s)

  unfoldable pub host_key_path_with :
      PathBuf
      → HostKeyOptions A
      → (Nodes → Nodes)
      → Server K P C V
      → Disk
      → Disk × Result Error (Server K P C V)
  host_key_path_with path options others s d =
      with_read s (load_or_generate calls path options others d)

  unfoldable pub host_key_path :
      PathBuf → (Nodes → Nodes) → Server K P C V → Disk → Disk × Result Error (Server K P C V)
  unfolding host_key_path_with
  host_key_path path others s d = host_key_path_with path (default_options calls) others s d

  pub host_key_pem : Text → List ℕ → Server K P C V → Result Error (Server K P C V)
  host_key_pem message bytes s = host_key_read (from_pem calls message bytes none) s

  pub host_key_pem_with : Text → List ℕ → Text → Server K P C V → Result Error (Server K P C V)
  host_key_pem_with message bytes passphrase s =
      host_key_read (from_pem calls message bytes (some passphrase)) s

  -- `if self.keys.is_empty()`
  abbrev pub key_for :
      List K → (Nodes → Nodes) → Server K P C V → Disk → Disk × Result Error (Server K P C V)
  key_for [] others s d = host_key_path default_path others s d
  key_for (k ∷ ks) others s d = (d, ok s)

  unfoldable pub with_default_key :
      (Nodes → Nodes) → Server K P C V → Disk → Disk × Result Error (Server K P C V)
  unfolding host_key_path
  with_default_key others s d = key_for s.keys others s d

  abbrev ok_or : Server K P C V → Result Error (Server K P C V) → Server K P C V
  ok_or s (ok t) = t
  ok_or s (err e) = s

  key_of_server :
      (s s' : Server K P C V) (d' : Disk) (out : Disk × Result Error K)
      → with_read s out ≡ (d', ok s')
      → (key : K) × ((out ≡ (d', ok key)) × (s' ≡ host_key key s))
  unfolding host_key_read
  key_of_server s s' d' (d, ok key) h =
      (key, (ap (λ x. (x, ok key)) (ap (λ x. x.0) h), ap (λ x. ok_or s x.1) (sym h)))
  key_of_server s s' d' (d, err e) h = absurd (ground (arith, ap (λ x. x.1) h))

  -- A server without a host key keeps its identity across restarts: where its start got the default
  -- key, any later server without a key that starts in the same directory has the same key, and
  -- that start leaves the disk as it is.
  pub with_default_key-again :
      (others others' : Nodes → Nodes) (s s' t : Server K P C V) (d d' : Disk)
      → PublishesOnly calls
      → Reads calls
      → s.keys ≡ []
      → t.keys ≡ []
      → with_default_key others s d ≡ (d', ok s')
      → with_default_key others' t d' ≡ (d', ok (record t { keys = s'.keys }))
  unfolding with_default_key host_key_path host_key_path_with host_key_read host_key
  with_default_key-again others others' s s' t d d' only reads e f h =
      let run = load_or_generate calls default_path (default_options calls) others d in
      let (key, (g, k)) =
        key_of_server s s' d' run (subst (λ ks. key_for ks others s d ≡ (d', ok s')) e h) in
      subst (λ ks. key_for ks others' t d' ≡ (d', ok (record t { keys = s'.keys }))) (sym f)
        (ap (with_read t) (
            load_or_generate-again calls default_path (default_options calls)
              (default_options calls).algorithm others others' d d' key only reads g)
          ∙ ap (λ ks. (d', ok (record t { keys = ks })))
              (ap (λ ks. ks ++ key ∷ []) (f ∙ sym e) ∙ ap (λ x. x.keys) (sym k)))
