-- ===== src/Server/Keygen/Starts.antt =====
-- src/server/keygen.rs: what `load_or_generate` leaves on disk, and that a later start
-- finds it.
use shenron.Common.{
  ◌≡◌, ◌≢◌, inl, inr, refl, subst, Option, Text, text, true, if◌then◌else◌, Bool-cases,
  Option-cases,
}
use shenron.Error.{Error, Result, ok, err}
use shenron.Files.{PathBuf, push, Nodes, Disk, find, exists}
use shenron.Files.Growth.{Grown}
use shenron.Server.Keygen.Storing.{IsAdded, PublishesOnly, Reads, Generates, generate-Generates}
use shenron.Server.Keygen.{
  KeyCalls, HostKeyOptions, key_mode, generate_and_persist, unless_lost, load_or_generate, is_lost,
  disturbed,
}

module _ {K A : Type 0} (calls : KeyCalls K A) where
  Generates-Grown :
      (path : PathBuf) (passphrase : Option Text) (before : Nodes) (out : Disk × Result Error K)
      → Generates calls path passphrase before out
      → (q : PathBuf) → q ≢ push (text ".pub") path
      → Grown (IsAdded path) before (unless_lost calls path passphrase out).0.nodes q
  unfolding unless_lost
  Generates-Grown path passphrase before (d, ok key) h q n = h.2 q n
  Generates-Grown path passphrase before (d, err e) h q n = elim (Bool-cases (is_lost e)) [
    | inl b ↦ rw b (h q n)
    | inr b ↦ rw b (h q n)
  ]

  -- The nodes that a start finds, once other processes have done what they do.
  abbrev pub found_nodes : PathBuf → (Nodes → Nodes) → Disk → Nodes
  found_nodes path others d = if exists path d then d.nodes else others d.nodes

  -- Whether it loads or generates, succeeds or fails: a start changes no file and no directory that
  -- is there, not even a key that another process made since the test, and adds only directories
  -- with mode 0o700 and the key's file with mode 0o600. Of the public key's file, the one with .pub
  -- at the end, nothing is said: it is written over.
  pub load_or_generate-Grown :
      (path : PathBuf) (options : HostKeyOptions A) (others : Nodes → Nodes) (d : Disk)
      → PublishesOnly calls
      → (q : PathBuf) → q ≢ push (text ".pub") path
      → Grown
          (IsAdded path)
          (found_nodes path others d)
          (load_or_generate calls path options others d).0.nodes
          q
  unfolding load_or_generate
  load_or_generate-Grown path options others d only q n = elim (Bool-cases (exists path d)) [
    | inl b ↦ rw b (inl refl)
    | inr b ↦ rw b (
        Generates-Grown path options.passphrase (others d.nodes)
          (generate_and_persist calls path options.algorithm options.passphrase
            (disturbed others d))
          (generate-Generates calls path options.algorithm options.passphrase (disturbed others d)
            only)
          q n)
  ]

  -- What a start that succeeded finds again: the key's file is there, and is read as the key.
  abbrev Found : PathBuf → Option Text → Disk × Result Error K → Type 0
  Found path passphrase (d, err e) = Unit
  Found path passphrase (d, ok key) =
      (exists path d ≡ true) × (calls.load_secret_key path passphrase d.nodes ≡ ok key)

  load-Found :
      (path : PathBuf) (passphrase : Option Text) (d : Disk) (r : Result Error K)
      → Reads calls
      → calls.load_secret_key path passphrase d.nodes ≡ r
      → Found path passphrase (d, r)
  load-Found path passphrase d (err e) reads h = tt
  load-Found path passphrase d (ok key) reads h = elim (Option-cases (find path d.nodes)) [
    | inl e ↦ absurd (reads.missing path passphrase key d.nodes e h)
    | inr (node, e) ↦ (rw e refl, h)
  ]

  unless_lost-Found :
      (path : PathBuf) (passphrase : Option Text) (before : Nodes) (out : Disk × Result Error K)
      → Reads calls
      → Generates calls path passphrase before out
      → Found path passphrase (unless_lost calls path passphrase out)
  unfolding unless_lost
  unless_lost-Found path passphrase before (d, ok key) reads (e, (pem, st, f), g) =
      (rw f refl, reads.stored path passphrase key pem key_mode d.nodes st f)
  unless_lost-Found path passphrase before (d, err e) reads g = elim (Bool-cases (is_lost e)) [
    | inl b ↦
        rw b
          (load-Found path passphrase d (calls.load_secret_key path passphrase d.nodes) reads refl)
    | inr b ↦ rw b tt
  ]

  load_or_generate-Found :
      (path : PathBuf) (options : HostKeyOptions A) (others : Nodes → Nodes) (d : Disk)
      → PublishesOnly calls
      → Reads calls
      → Found path options.passphrase (load_or_generate calls path options others d)
  unfolding load_or_generate
  load_or_generate-Found path options others d only reads = elim (Bool-cases (exists path d)) [
    | inl b ↦ rw b (
        load-Found path options.passphrase d (calls.load_secret_key path options.passphrase d.nodes)
          reads refl)
    | inr b ↦ rw b (
        unless_lost-Found path options.passphrase (others d.nodes)
          (generate_and_persist calls path options.algorithm options.passphrase
            (disturbed others d))
          reads
          (generate-Generates calls path options.algorithm options.passphrase (disturbed others d)
            only))
  ]

  -- A start that gets a key leaves it on disk: a later start with the same passphrase, whatever its
  -- algorithm, gets the same key and changes nothing. So it is for a key that was loaded, generated,
  -- or made by another process in between.
  pub load_or_generate-again :
      (path : PathBuf) (options : HostKeyOptions A) (algorithm : A) (others others' : Nodes → Nodes)
      (d d' : Disk) (key : K)
      → PublishesOnly calls
      → Reads calls
      → load_or_generate calls path options others d ≡ (d', ok key)
      → load_or_generate calls path (record options { algorithm = algorithm }) others' d'
        ≡ (d', ok key)
  load_or_generate-again path options algorithm others others' d d' key only reads h =
      let (e, f) =
        subst (Found path options.passphrase) h
          (load_or_generate-Found path options others d only reads) in
      unfold load_or_generate in rw (e, f) refl
