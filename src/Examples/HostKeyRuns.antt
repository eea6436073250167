-- ===== src/Examples/HostKeyRuns.antt =====
-- A host key that is generated, found again, and not overwritten. A key is a number, written as so
-- many letters, and encrypted by as many more as its passphrase has.
use shenron.Common.{
  ℕ, zero, suc, ◌+◌, ◌-◌, ◌≡◌, ◌≢◌, refl, sym, ◌∙◌, ap, Option, none, some, [], ◌∷◌, arith, Text,
  text, text_beq, length,
}
use shenron.Error.{not_found, Error, io, Result, ok, err}
use shenron.HashMap.{get, insert, get-insert}
use shenron.Utf8.{encode_char, as_bytes}
use shenron.Files.{
  PathBuf, root, empty, child, Node, file, directory, Nodes, Disk, find, io_error, path_eq,
  create_directories, create_new, write_all,
}
use shenron.Files.Growth.{Grown}
use shenron.Server.Keygen.{
  KeyCalls, HostKeyOptions, new, with_passphrase, stored_text, unless_lost, persist_text,
  make_parent, persist, generate_and_persist, load_or_generate,
}
use shenron.Server.Keygen.Storing.{IsAdded, PublishesOnly, Reads}
use shenron.Server.Keygen.Starts.{load_or_generate-Grown, load_or_generate-again}

abbrev pub letters : ℕ → Text
letters zero = []
letters (suc n) = b'a' ∷ letters n

abbrev pub extra : Option Text → ℕ
extra none = 0
extra (some passphrase) = length passphrase

abbrev pub read_node : Option Text → Option Node → Result Error ℕ
read_node passphrase (some (file mode bytes)) = ok (length bytes - extra passphrase)
read_node passphrase _ = err (io (io_error not_found))

abbrev pub published : PathBuf → Nodes → Nodes
published (child p n) nodes = insert (child p n) (file 420 []) nodes
published _ nodes = nodes

abbrev pub number_keys : KeyCalls ℕ ℕ
number_keys = record {
  ed25519 = 0;
  random = λ algorithm. ok (3 + algorithm);
  encrypt = λ passphrase key. ok (key + length passphrase);
  to_openssh = λ key. ok (letters key);
  load_secret_key = λ path passphrase nodes. read_node passphrase (find path nodes);
  decode_secret_key = λ pem passphrase. ok (length pem - extra passphrase);
  write_openssh_file = λ path key nodes. (published path nodes, ok tt);
}

length-as_bytes-letters : (n : ℕ) → length (as_bytes (letters n)) ≡ n
unfolding as_bytes encode_char
length-as_bytes-letters zero = refl
length-as_bytes-letters (suc n) = ap suc (length-as_bytes-letters n)

find-published :
    (path : PathBuf) (nodes : Nodes) (q : PathBuf)
    → q ≢ path
    → find q (published path nodes) ≡ find q nodes
unfolding find
find-published root nodes q h = refl
find-published empty nodes q h = refl
find-published (child p n) nodes root h = refl
find-published (child p n) nodes empty h = refl
find-published (child p n) nodes (child q m) h = ground (
  arith,
  get-insert (child p n) (child q m) (file 420 []) nodes,
  path_eq.same_iff (child p n) (child q m),
)

pub number_keys-PublishesOnly : PublishesOnly number_keys
number_keys-PublishesOnly path key nodes q h = find-published path nodes q h

stored-letters :
    (passphrase : Option Text) (key : ℕ)
    → stored_text number_keys passphrase key ≡ ok (letters (key + extra passphrase))
stored-letters none key = let e : key + 0 ≡ key = omega arith in rw e refl
stored-letters (some passphrase) key = refl

abbrev text_or_nil : Result Error Text → Text
text_or_nil (ok t) = t
text_or_nil (err e) = []

length-stored :
    (passphrase : Option Text) (key : ℕ) (pem : Text)
    → stored_text number_keys passphrase key ≡ ok pem
    → length (as_bytes pem) ≡ key + extra passphrase
length-stored passphrase key pem e =
    ap (λ t. length (as_bytes t)) (ap text_or_nil (sym e ∙ stored-letters passphrase key))
    ∙ length-as_bytes-letters (key + extra passphrase)

pub number_keys-Reads : Reads number_keys
number_keys-Reads = record {
  stored = λ path passphrase key pem mode nodes e f.
      let n = length-stored passphrase key pem e in
      let k : length (as_bytes pem) - extra passphrase ≡ key = omega (arith, n) in rw f (ap ok k);
  missing = λ path passphrase key nodes e. rw e (λ h. ground (arith, h));
}

-- A disk where only the root is, and where no system call fails.
abbrev pub clean : Disk
clean = record { nodes = []; calls = 0; faults = λ n. none }

abbrev key_path : PathBuf
key_path = child (child root (text "keys")) (text "id")

abbrev options : HostKeyOptions ℕ
options = with_passphrase (text "pw") (new 1)

-- What a first start leaves.
abbrev kept : Disk
kept = record {
  nodes =
      (child root (text "keys"), directory 448)
      ∷ (key_path, file 384 (text "aaaaaa"))
      ∷ (child (child root (text "keys")) (text "id.pub"), file 420 [])
      ∷ [];
  calls = 3;
  faults = λ n. none;
}

first_start : load_or_generate number_keys key_path options (λ nodes. nodes) clean ≡ (kept, ok 4)
unfolding load_or_generate generate_and_persist persist persist_text make_parent unless_lost
    create_directories create_new write_all find get insert as_bytes encode_char text_beq
first_start = refl

-- The key's file appears between the test and the write.
abbrev taken : Nodes → Nodes
taken nodes = (key_path, file 384 (text "aaa")) ∷ (child root (text "keys"), directory 493) ∷ nodes

lost_race : (load_or_generate number_keys key_path options taken clean).1 ≡ ok 1
unfolding load_or_generate generate_and_persist persist persist_text make_parent unless_lost
    create_directories create_new write_all find get insert as_bytes encode_char text_beq
lost_race = refl

load_or_generate-again_example :
    load_or_generate number_keys key_path (record options { algorithm = 7 }) (λ nodes. []) kept
    ≡ (kept, ok 4)
load_or_generate-again_example =
    load_or_generate-again number_keys key_path options 7 (λ nodes. nodes) (λ nodes. []) clean kept
      4 number_keys-PublishesOnly number_keys-Reads first_start

load_or_generate-Grown_example :
    Grown
      (IsAdded key_path)
      (taken [])
      (load_or_generate number_keys key_path options taken clean).0.nodes
      key_path
unfolding find get
load_or_generate-Grown_example =
    load_or_generate-Grown number_keys key_path options taken clean number_keys-PublishesOnly
      key_path (λ e. ground (arith, e))
