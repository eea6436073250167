-- ===== src/Examples/IdentityRuns.antt =====
-- Who logs in by a listed key, and a server that starts twice.
use shenron.Common.{
  ℕ, ◌%◌, ◌≡◌, refl, true, none, some, List, [], ◌∷◌, Text, text, text_beq, nat_eq, Bool,
}
use shenron.Error.{ok}
use shenron.HashMap.{get, insert}
use shenron.Utf8.{encode_char, as_bytes}
use shenron.Files.{empty, child, file, Disk, find, create_directories, create_new, write_all}
use shenron.Auth.{from_bool}
use shenron.Auth.AuthorizedKeys.{IsListed, authorized_keys, listed, keys_only, Reach-IsListed}
use shenron.Server.{ShenronServer, auth_publickey, finish_auth, consult, new_client}
use shenron.Server.Connection.{
  by_key, Connection, attempt, connect, after_attempt, attempts, Reach, here, next,
}
use shenron.Server.Connection.Accepting.{LetIn}
use shenron.Server.Builder.{Server, new, host_key, host_key_read, default_host_key_path}
use shenron.Server.Builder.HostKeys.{
  host_key_path, host_key_path_with, with_default_key, default_path, with_default_key-again,
}
use shenron.Server.Keygen.{
  default_options, unless_lost, persist_text, make_parent, persist, generate_and_persist,
  load_or_generate,
}
use shenron.Examples.Values.{peer, exits}
use shenron.Examples.HostKeyRuns.{number_keys, clean, number_keys-PublishesOnly, number_keys-Reads}

-- The data of a key is what is left of a comment.
abbrev data_of : ℕ → ℕ
data_of key = key % 100

abbrev entries : List ℕ
entries = 107 ∷ 209 ∷ []

abbrev by_entries : Text → ℕ → Bool
by_entries = listed data_of (7 ∷ 9 ∷ [])

abbrev keys_server : ShenronServer ℕ ℕ ℕ
keys_server = record { handler = exits 0; auth = keys_only data_of by_entries; banner = none }

abbrev key_login : Connection ℕ ℕ ℕ
key_login =
    after_attempt (connect keys_server (some peer)) (text "goku") (by_key 309)
      (attempt (λ c. 0) (text "goku") (by_key 309) (connect keys_server (some peer)).handler)

keys-fresh : (connect keys_server (some peer)).authenticated ≡ Bool.false
unfolding connect
keys-fresh = refl

entries-read : authorized_keys data_of (ok entries) ≡ ok by_entries
unfolding authorized_keys
entries-read = refl

key-authenticated : key_login.authenticated ≡ true
unfolding connect attempt auth_publickey finish_auth consult new_client from_bool keys_only listed
key-authenticated = refl

abbrev key_way : Reach (λ c. 0) (connect keys_server (some peer)) key_login
key_way =
    next here (attempts (connect keys_server (some peer)) (text "goku") (by_key 309) keys-fresh tt)

Reach-IsListed_example :
    (user : Text) × (key : ℕ) × LetIn key_way user (by_key key)
    × (key_login.handler.user ≡ some user)
    × IsListed data_of key entries
Reach-IsListed_example =
    Reach-IsListed data_of (λ c. 0) entries by_entries keys_server (some peer) entries-read refl
      key_way key-authenticated

-- A start with the default key.
abbrev started : Disk
started = record {
  nodes =
      (default_path, file 384 (text "aaa"))
      ∷ (child empty (text "id_ed25519.pub"), file 420 [])
      ∷ [];
  calls = 2;
  faults = λ n. none;
}

abbrev with_three : Server ℕ ℕ ℕ ℕ
with_three = record new { keys = 3 ∷ [] }

first_server : with_default_key number_keys (λ nodes. nodes) new clean ≡ (started, ok with_three)
unfolding with_default_key host_key_path host_key_path_with host_key_read host_key default_options
    new load_or_generate generate_and_persist persist persist_text make_parent unless_lost
    create_directories create_new write_all find get insert as_bytes encode_char text_beq
    default_host_key_path
first_server = refl

abbrev other_server : Server ℕ ℕ ℕ ℕ
other_server = record new { addr = some (text "[::]:22") }

with_default_key-again_example :
    with_default_key number_keys (λ nodes. []) other_server started
    ≡ (started, ok (record other_server { keys = 3 ∷ [] }))
unfolding new
with_default_key-again_example =
    with_default_key-again number_keys (λ nodes. nodes) (λ nodes. []) new with_three other_server
      clean started number_keys-PublishesOnly number_keys-Reads refl refl first_server
