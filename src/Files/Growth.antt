-- ===== src/Files/Growth.antt =====
-- What the calls on a disk leave as it was.
use shenron.Common.{
  ℕ, ◌≡◌, ◌≢◌, ◌⊎◌, inl, inr, refl, sym, ◌∙◌, ap, subst, none, some, List, [], arith, ◌==◌,
  Bool-cases, Text, beq_refl, Bool, true, false, take, Option-cases, if◌then◌else◌,
}
use shenron.Error.{not_found, other, IoError, Result, ok, err}
use shenron.HashMap.{insert, get-insert}
use shenron.Files.{
  PathBuf, root, empty, child, path_eq, Node, file, directory, Nodes, Disk, find, io_error,
  new_entry, call, made_first, make_directory, tolerated, made_again, is_kind, append_bytes,
  create_directories, write_all,
}

-- A node stays as it is, or is added where `P` allows it.
abbrev pub Grown : (PathBuf → Node → Type 0) → Nodes → Nodes → PathBuf → Type 0
Grown P before after q =
    (find q after ≡ find q before)
    ⊎ ((find q before ≡ none) × ((node : Node) × (find q after ≡ some node) × P q node))

abbrev pub Grew : (PathBuf → Node → Type 0) → Nodes → Nodes → Type 0
Grew P before after = (q : PathBuf) → Grown P before after q

-- One node is put, and the others stay.
abbrev pub Puts : Node → PathBuf → Nodes → Nodes → Type 0
Puts node p before after =
    (find p after ≡ some node) × ((q : PathBuf) → q ≢ p → find q after ≡ find q before)

-- What a call that makes an entry does: nothing where it fails.
abbrev pub Enters : Node → PathBuf → Nodes → Disk × Result IoError (Unit {0}) → Type 0
Enters node p before (d, err e) = d.nodes ≡ before
Enters node p before (d, ok _) = (find p before ≡ none) × Puts node p before d.nodes

pub Grown-trans :
    (P : PathBuf → Node → Type 0) (a b c : Nodes) (q : PathBuf)
    → Grown P a b q
    → Grown P b c q
    → Grown P a c q
Grown-trans P a b c q (inl e) (inl f) = inl (f ∙ e)
Grown-trans P a b c q (inl e) (inr (f, r)) = inr (sym e ∙ f, r)
Grown-trans P a b c q (inr (e, (node, g, p))) (inl f) = inr (e, (node, f ∙ g, p))
Grown-trans P a b c q (inr (e, (node, g, p))) (inr (f, _)) =
    absurd (let h : some node ≡ none = sym g ∙ f in ground arith)

Grew-trans : (P : PathBuf → Node → Type 0) (a b c : Nodes) → Grew P a b → Grew P b c → Grew P a c
Grew-trans P a b c ab bc q = Grown-trans P a b c q (ab q) (bc q)

pub Grew-Puts :
    (P : PathBuf → Node → Type 0) (node : Node) (p : PathBuf) (a b : Nodes)
    → P p node
    → find p a ≡ none
    → Puts node p a b
    → Grew P a b
Grew-Puts P node p a b h e (f, g) q = elim (Bool-cases (p == q)) [
  | inl t ↦
      subst
        (λ x.
          (find x b ≡ find x a) ⊎ ((find x a ≡ none) × ((m : Node) × (find x b ≡ some m) × P x m)))
        ((path_eq.same_iff p q).0 t) (inr (e, (node, f, h)))
  | inr t ↦ inl (g q (λ k. ground (arith, (path_eq.same_iff p q).1 (sym k))))
]

pub Puts-trans :
    (node node' : Node) (p : PathBuf) (a b c : Nodes)
    → Puts node p a b
    → Puts node' p b c
    → Puts node' p a c
Puts-trans node node' p a b c (_, f) (g, h) = (g, λ q n. h q n ∙ f q n)

find-insert_other :
    (p : PathBuf) (n : Text) (node : Node) (nodes : Nodes) (q : PathBuf)
    → q ≢ child p n
    → find q (insert (child p n) node nodes) ≡ find q nodes
unfolding find
find-insert_other p n node nodes root h = refl
find-insert_other p n node nodes empty h = refl
find-insert_other p n node nodes (child q m) h =
    ground (
      arith,
      get-insert (child p n) (child q m) node nodes,
      path_eq.same_iff (child p n) (child q m),
    )

pub insert-Puts :
    (p : PathBuf) (n : Text) (node : Node) (nodes : Nodes)
    → Puts node (child p n) nodes (insert (child p n) node nodes)
unfolding find
insert-Puts p n node nodes = (
  get-insert (child p n) (child p n) node nodes ∙ rw (beq_refl (child p n)) refl,
  find-insert_other p n node nodes,
)

pub call-Enters :
    (node : Node) (p : PathBuf) (d : Disk) → Enters node p d.nodes (call (new_entry node p) d)
unfolding new_entry find
call-Enters node root d = ground arith
call-Enters node empty d = ground arith
call-Enters node (child p n) d = ground (arith, insert-Puts p n node d.nodes)

Enters-Grew :
    (P : PathBuf → Node → Type 0) (node : Node) (p : PathBuf) (before : Nodes)
    (out : Disk × Result IoError (Unit {0}))
    → P p node
    → Enters node p before out
    → Grew P before out.0.nodes
Enters-Grew P node p before (d, err e) h en = λ q. inl (ap (find q) en)
Enters-Grew P node p before (d, ok _) h (e, puts) = Grew-Puts P node p before d.nodes h e puts

-- What making directories may add.
abbrev pub IsDirectory : ℕ → PathBuf → Node → Type 0
IsDirectory mode q node = node ≡ directory mode

make_directory-Grew :
    (mode : ℕ) (p : PathBuf) (d : Disk)
    → Grew (IsDirectory mode) d.nodes (make_directory mode p d).0.nodes
make_directory-Grew mode p d =
    Enters-Grew (IsDirectory mode) (directory mode) p d.nodes (make_directory mode p d) refl
      (call-Enters (directory mode) p d)

tolerated-Grew :
    (mode : ℕ) (p : PathBuf) (before : Nodes) (out : Disk × Result IoError (Unit {0}))
    → Grew (IsDirectory mode) before out.0.nodes
    → Grew (IsDirectory mode) before (tolerated p out).0.nodes
tolerated-Grew mode p before (d, ok _) h = h
tolerated-Grew mode p before (d, err e) h = h

made_again-Grew :
    (mode : ℕ) (p : PathBuf) (before : Nodes) (out : Disk × Result IoError (Unit {0}))
    → Grew (IsDirectory mode) before out.0.nodes
    → Grew (IsDirectory mode) before (made_again mode p out).0.nodes
made_again-Grew mode p before (d, ok _) h = tolerated-Grew mode p before (make_directory mode p d) (
    Grew-trans (IsDirectory mode) before d.nodes (make_directory mode p d).0.nodes h
      (make_directory-Grew mode p d))
made_again-Grew mode p before (d, err e) h = h

if-Grew :
    (P : PathBuf → Node → Type 0) (before : Nodes) (b : Bool)
    (x y : Disk × Result IoError (Unit {0}))
    → Grew P before x.0.nodes
    → Grew P before y.0.nodes
    → Grew P before (if b then x else y).0.nodes
if-Grew P before true x y h k = h
if-Grew P before false x y h k = k

made_first-Grew :
    (make_parent : Disk → Disk × Result IoError (Unit {0})) (mode : ℕ) (p : PathBuf)
    (before : Nodes) (out : Disk × Result IoError (Unit {0}))
    → ((d : Disk) → Grew (IsDirectory mode) d.nodes (make_parent d).0.nodes)
    → Grew (IsDirectory mode) before out.0.nodes
    → Grew (IsDirectory mode) before (made_first make_parent mode p out).0.nodes
unfolding made_first
made_first-Grew make_parent mode p before (d, ok _) up h = h
made_first-Grew make_parent mode p before (d, err e) up h =
    if-Grew (IsDirectory mode) before (is_kind not_found e) (made_again mode p (make_parent d))
      (tolerated p (d, err e))
      (made_again-Grew mode p before (make_parent d)
        (Grew-trans (IsDirectory mode) before d.nodes (make_parent d).0.nodes h (up d)))
      (tolerated-Grew mode p before (d, err e) h)

-- Making directories only adds directories, with the mode that is asked for.
pub create_directories-Grew :
    (mode : ℕ) (p : PathBuf) (d : Disk)
    → Grew (IsDirectory mode) d.nodes (create_directories mode p d).0.nodes
unfolding create_directories
create_directories-Grew mode root d =
    made_first-Grew (λ d. (d, err (io_error other))) mode root d.nodes (make_directory mode root d)
      (λ d q. inl refl) (make_directory-Grew mode root d)
create_directories-Grew mode empty d = λ q. inl refl
create_directories-Grew mode (child p n) d =
    made_first-Grew (create_directories mode p) mode (child p n) d.nodes
      (make_directory mode (child p n) d) (create_directories-Grew mode p)
      (make_directory-Grew mode (child p n) d)

-- What a write leaves in a file: all of the bytes, or where it fails some.
abbrev pub Writes : ℕ → List ℕ → PathBuf → Nodes → Disk × Result IoError (Unit {0}) → Type 0
Writes mode bytes p before (d, ok _) = Puts (file mode bytes) p before d.nodes
Writes mode bytes p before (d, err e) =
    (some_bytes : List ℕ) × Puts (file mode some_bytes) p before d.nodes

append_bytes-Puts :
    (mode : ℕ) (bytes : List ℕ) (p : PathBuf) (nodes : Nodes)
    → find p nodes ≡ some (file mode [])
    → Puts (file mode bytes) p nodes (append_bytes bytes p nodes)
unfolding find
append_bytes-Puts mode bytes root nodes h = absurd (ground arith)
append_bytes-Puts mode bytes empty nodes h = absurd (ground arith)
append_bytes-Puts mode bytes (child p n) nodes h = rw h (insert-Puts p n (file mode bytes) nodes)

pub write_all-Writes :
    (mode : ℕ) (bytes : List ℕ) (p : PathBuf) (d : Disk)
    → find p d.nodes ≡ some (file mode [])
    → Writes mode bytes p d.nodes (write_all bytes p d)
unfolding write_all
write_all-Writes mode bytes p d h = elim (Option-cases (d.faults d.calls)) [
  | inl f ↦ rw f (append_bytes-Puts mode bytes p d.nodes h)
  | inr ((e, count), f) ↦
      rw f (take count bytes, append_bytes-Puts mode (take count bytes) p d.nodes h)
]
