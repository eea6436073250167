-- ===== src/Server/Keygen/Storing.antt =====
-- src/server/keygen.rs: what generating a key leaves on disk.
use shenron.Common.{
  ℕ, ◌≡◌, ◌≢◌, ◌⊎◌, inl, inr, refl, sym, ◌∙◌, ap, Option, none, some, List, [], ◌∷◌, ◌++◌, arith,
  Text, text, length, length-append,
}
use shenron.Error.{IoError, Error, Result, ok, err, then_do, lift_io}
use shenron.Utf8.{as_bytes}
use shenron.Files.{
  PathBuf, root, empty, child, parent, push, Node, file, directory, Nodes, Disk, find,
  create_directories, create_new, write_all,
}
use shenron.Files.Growth.{
  Grown, Grew, Puts, Enters, Writes, IsDirectory, Grown-trans, Grew-Puts, Puts-trans, call-Enters,
  create_directories-Grew, write_all-Writes,
}
use shenron.Server.Keygen.{
  KeyCalls, directory_mode, key_mode, make_parent, stored_text, store, persist_text, persist,
  generate_and_persist, publish,
}

-- What a start may add: private directories, and the key's file.
abbrev pub IsAdded : PathBuf → PathBuf → Node → Type 0
IsAdded path q node =
    (node ≡ directory directory_mode)
    ⊎ ((q ≡ path) × ((bytes : List ℕ) × (node ≡ file key_mode bytes)))

module _ {K A : Type 0} (calls : KeyCalls K A) where
  -- The public key's file is the only one that is written with it.
  abbrev pub PublishesOnly : Type 0
  PublishesOnly =
      (path : PathBuf) (key : K) (nodes : Nodes) (q : PathBuf)
      → q ≢ path
      → find q (calls.write_openssh_file path key nodes).0 ≡ find q nodes

  -- A key that was written is read back, and a file that is not there is not.
  pub record Reads : Type 0 where
    pub stored :
        (path : PathBuf) (passphrase : Option Text) (key : K) (pem : Text) (mode : ℕ)
        (nodes : Nodes)
        → stored_text calls passphrase key ≡ ok pem
        → find path nodes ≡ some (file mode (as_bytes pem))
        → calls.load_secret_key path passphrase nodes ≡ ok key
    pub missing :
        (path : PathBuf) (passphrase : Option Text) (key : K) (nodes : Nodes)
        → find path nodes ≡ none
        → calls.load_secret_key path passphrase nodes ≢ ok key

abbrev Stores : PathBuf → List ℕ → Nodes → Disk × Result Error (Unit {0}) → Type 0
Stores path pem before (d, ok _) =
    (find path before ≡ none) × Puts (file key_mode pem) path before d.nodes
Stores path pem before (d, err e) = Grew (IsAdded path) before d.nodes

written-Stores :
    (path : PathBuf) (pem : List ℕ) (before middle : Nodes) (out : Disk × Result IoError (Unit {0}))
    → find path before ≡ none
    → Puts (file key_mode []) path before middle
    → Writes key_mode pem path middle out
    → Stores path pem before (lift_io out)
written-Stores path pem before middle (d, ok _) e puts writes =
    (e, Puts-trans (file key_mode []) (file key_mode pem) path before middle d.nodes puts writes)
written-Stores path pem before middle (d, err _) e puts (bytes, writes) =
    Grew-Puts (IsAdded path) (file key_mode bytes) path before d.nodes (inr (refl, (bytes, refl))) e
      (Puts-trans (file key_mode []) (file key_mode bytes) path before middle d.nodes puts writes)

created-Stores :
    (path : PathBuf) (pem : List ℕ) (before : Nodes) (out : Disk × Result IoError (Unit {0}))
    → Enters (file key_mode []) path before out
    → Stores path pem before (then_do (λ _ d. lift_io (write_all pem path d)) (lift_io out))
created-Stores path pem before (d, err e) h = λ q. inl (ap (find q) h)
created-Stores path pem before (d, ok _) (e, puts) =
    written-Stores path pem before d.nodes (write_all pem path d) e puts
      (write_all-Writes key_mode pem path d puts.0)

directory-IsAdded :
    (path : PathBuf) (before : Nodes) (out : Disk × Result IoError (Unit {0})) (q : PathBuf)
    → Grown (IsDirectory directory_mode) before out.0.nodes q
    → Grown (IsAdded path) before (lift_io out).0.nodes q
directory-IsAdded path before (d, ok _) q (inl e) = inl e
directory-IsAdded path before (d, ok _) q (inr (e, (node, f, g))) = inr (e, (node, f, inl g))
directory-IsAdded path before (d, err _) q (inl e) = inl e
directory-IsAdded path before (d, err _) q (inr (e, (node, f, g))) = inr (e, (node, f, inl g))

store-Stores :
    (path : PathBuf) (pem : List ℕ) (d : Disk) → Stores path pem d.nodes (store path pem d)
store-Stores path pem d =
    created-Stores path pem d.nodes (create_new key_mode path d)
      (unfold create_new in call-Enters (file key_mode []) path d)

-- The directories above the key are made, or some of them.
made_parent-Grew :
    (path : PathBuf) (above : Option PathBuf) (d : Disk)
    → Grew (IsAdded path) d.nodes (make_parent above d).0.nodes
unfolding make_parent
made_parent-Grew path none d q = inl refl
made_parent-Grew path (some root) d q =
    directory-IsAdded path d.nodes (create_directories directory_mode root d) q
      (create_directories-Grew directory_mode root d q)
made_parent-Grew path (some empty) d q = inl refl
made_parent-Grew path (some (child p n)) d q =
    directory-IsAdded path d.nodes (create_directories directory_mode (child p n) d) q
      (create_directories-Grew directory_mode (child p n) d q)

ne-append : (n : Text) (c : ℕ) (suffix : Text) → n ≢ n ++ c ∷ suffix
ne-append n c suffix e = absurd (omega (arith, ap length e, length-append n (c ∷ suffix)))

abbrev last_name : PathBuf → Text
last_name (child p n) = n
last_name _ = []

ne-push : (path : PathBuf) → path ≢ push (text ".pub") path
ne-push root = λ e. ground (arith, e)
ne-push empty = λ e. ground (arith, e)
ne-push (child p n) = λ e. ne-append n b'.' (text "pub") (ap last_name e)

was-none :
    (path : PathBuf) (before middle : Nodes) (q : PathBuf)
    → find q middle ≡ none
    → Grown (IsAdded path) before middle q
    → find q before ≡ none
was-none path before middle q e (inl f) = sym f ∙ e
was-none path before middle q e (inr (f, _)) = f

module _ {K A : Type 0} (calls : KeyCalls K A) where
  -- What generating a key leaves: where it succeeds, the key's file, which was not there.
  abbrev pub Generates : PathBuf → Option Text → Nodes → Disk × Result Error K → Type 0
  Generates path passphrase before (d, ok key) =
      (find path before ≡ none)
      × ((pem : Text) × (stored_text calls passphrase key ≡ ok pem)
          × (find path d.nodes ≡ some (file key_mode (as_bytes pem))))
      × ((q : PathBuf) → q ≢ push (text ".pub") path → Grown (IsAdded path) before d.nodes q)
  Generates path passphrase before (d, err e) =
      (q : PathBuf) → q ≢ push (text ".pub") path → Grown (IsAdded path) before d.nodes q

  announced-Generates :
      (path : PathBuf) (passphrase : Option Text) (key : K) (pem : Text) (before middle : Nodes)
      (d : Disk) (out : Nodes × Result Error (Unit {0}))
      → stored_text calls passphrase key ≡ ok pem
      → find path before ≡ none
      → find path middle ≡ some (file key_mode (as_bytes pem))
      → Grew (IsAdded path) before middle
      → ((q : PathBuf) → q ≢ push (text ".pub") path → find q out.0 ≡ find q middle)
      → Generates path passphrase before
          (then_do (λ _ d. (d, ok key)) (record d { nodes = out.0 }, out.1))
  announced-Generates path passphrase key pem before middle d (nodes, ok _) st e f grew only = (
    e,
    (pem, st, only path (ne-push path) ∙ f),
    λ q n. Grown-trans (IsAdded path) before middle nodes q (grew q) (inl (only q n)),
  )
  announced-Generates path passphrase key pem before middle d (nodes, err _) st e f grew only =
      λ q n. Grown-trans (IsAdded path) before middle nodes q (grew q) (inl (only q n))

  published-Generates :
      (path : PathBuf) (passphrase : Option Text) (key : K) (pem : Text) (before : Nodes)
      (out : Disk × Result Error (Unit {0}))
      → PublishesOnly calls
      → stored_text calls passphrase key ≡ ok pem
      → Stores path (as_bytes pem) before out
      → Generates path passphrase before
          (then_do (λ _ d. then_do (λ _ d. (d, ok key)) (publish calls path key d)) out)
  published-Generates path passphrase key pem before (d, err e) only st h = λ q n. h q
  published-Generates path passphrase key pem before (d, ok _) only st (e, puts) =
      announced-Generates path passphrase key pem before d.nodes d
        (calls.write_openssh_file (push (text ".pub") path) key d.nodes) st e puts.0
        (Grew-Puts (IsAdded path) (file key_mode (as_bytes pem)) path before d.nodes
          (inr (refl, (as_bytes pem, refl))) e puts)
        (only (push (text ".pub") path) key d.nodes)

  persist_text-Generates :
      (path : PathBuf) (passphrase : Option Text) (key : K) (pem : Result Error Text) (d : Disk)
      → PublishesOnly calls
      → stored_text calls passphrase key ≡ pem
      → Generates path passphrase d.nodes (persist_text calls path key pem d)
  unfolding persist_text
  persist_text-Generates path passphrase key (err e) d only st = λ q n. inl refl
  persist_text-Generates path passphrase key (ok pem) d only st =
      published-Generates path passphrase key pem d.nodes (store path (as_bytes pem) d) only st
        (store-Stores path (as_bytes pem) d)

  -- What was done before it only added.
  after-Generates :
      (path : PathBuf) (passphrase : Option Text) (before middle : Nodes)
      (out : Disk × Result Error K)
      → Grew (IsAdded path) before middle
      → Generates path passphrase middle out
      → Generates path passphrase before out
  after-Generates path passphrase before middle (d, ok key) grew (e, st, g) = (
    was-none path before middle path e (grew path),
    st,
    λ q n. Grown-trans (IsAdded path) before middle d.nodes q (grew q) (g q n),
  )
  after-Generates path passphrase before middle (d, err _) grew g =
      λ q n. Grown-trans (IsAdded path) before middle d.nodes q (grew q) (g q n)

  parented-Generates :
      (path : PathBuf) (passphrase : Option Text) (key : K) (before : Nodes)
      (out : Disk × Result Error (Unit {0}))
      → PublishesOnly calls
      → Grew (IsAdded path) before out.0.nodes
      → Generates path passphrase before
          (then_do (λ _. persist_text calls path key (stored_text calls passphrase key)) out)
  parented-Generates path passphrase key before (d, err e) only grew = λ q n. grew q
  parented-Generates path passphrase key before (d, ok _) only grew =
      after-Generates path passphrase before d.nodes
        (persist_text calls path key (stored_text calls passphrase key) d) grew
        (persist_text-Generates path passphrase key (stored_text calls passphrase key) d only refl)

  persist-Generates :
      (path : PathBuf) (passphrase : Option Text) (key : Result Error K) (d : Disk)
      → PublishesOnly calls
      → Generates path passphrase d.nodes (persist calls path passphrase key d)
  unfolding persist
  persist-Generates path passphrase (err e) d only = λ q n. inl refl
  persist-Generates path passphrase (ok key) d only =
      parented-Generates path passphrase key d.nodes (make_parent (parent path) d) only
        (made_parent-Grew path (parent path) d)

  pub generate-Generates :
      (path : PathBuf) (algorithm : A) (passphrase : Option Text) (d : Disk)
      → PublishesOnly calls
      → Generates path passphrase d.nodes (generate_and_persist calls path algorithm passphrase d)
  unfolding generate_and_persist
  generate-Generates path algorithm passphrase d only =
      persist-Generates path passphrase (calls.random algorithm) d only
