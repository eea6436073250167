-- ===== src/Auth/TrustedCa.antt =====
-- src/auth/trusted_ca.rs: certificates of listed authorities. `K` is ssh-key's `PublicKey`, and `F`
-- its `Fingerprint`.
pub mod Listing
pub mod Login
use shenron.Common.{
  ℕ, suc, ◌+◌, Bool, true, false, Option, none, some, List, [], ◌∷◌, ◌++◌, ◌&&◌, ◌||◌,
  if◌then◌else◌, Text, text, any, ◌==◌, text_eq, nat_beq,
}
use shenron.Error.{Error, config, Result, ok, err}
use shenron.Format.{decimal}
use shenron.Lines.{lines, trim}
use shenron.Auth.{AuthOutcome, from_bool}

pub data CertType : Type 0 where
  user_cert host_cert : CertType

-- `russh::keys::Certificate`: `validate` says whether a list of fingerprints validates it, by its
-- signature, its signer and the time.
pub record Certificate (F : Type 0) : Type 0 where
  pub cert_type : CertType
  pub validate : List F → Bool
  pub valid_principals : List Text
  pub critical_options : List (Text × Text)

-- `line.is_empty() || line.starts_with('#')`
abbrev pub is_skipped : Text → Bool
is_skipped [] = true
is_skipped (c ∷ t) = nat_beq c b'#'

unfoldable pub line_error : ℕ → Text → Error
line_error n message =
    config (text "trusted CA keys line " ++ (decimal (n + 1) ++ (text ": " ++ message)))

unfoldable pub no_keys : Error
no_keys = config (text "trusted CA keys file lists no keys")

module _ {K F : Type 0} (parse_key : Text → Result Text K) (fingerprint : K → F) where
  -- What a line that is not skipped does, before the lines after it.
  unfoldable pub parsed_line :
      ℕ → Result Text K → (List F → Result Error (List F)) → List F → Result Error (List F)
  parsed_line n (ok key) rest fingerprints = rest (fingerprints ++ fingerprint key ∷ [])
  parsed_line n (err message) rest fingerprints = err (line_error n message)

  -- The loop of `parse`, from line `n` on.
  unfoldable pub parse_lines : ℕ → List Text → List F → Result Error (List F)
  parse_lines n [] fingerprints = ok fingerprints
  parse_lines n (line ∷ rest) fingerprints =
      if is_skipped (trim line)
      then parse_lines (suc n) rest fingerprints
      else parsed_line n (parse_key (trim line)) (parse_lines (suc n) rest) fingerprints

  unfoldable pub unless_empty : Result Error (List F) → Result Error (List F)
  unless_empty (err e) = err e
  unless_empty (ok []) = err no_keys
  unless_empty (ok (f ∷ fs)) = ok (f ∷ fs)

  unfoldable pub parse : Text → Result Error (List F)
  parse input = unless_empty (parse_lines 0 (lines input) [])

abbrev pub is_user_cert : CertType → Bool
is_user_cert user_cert = true
is_user_cert host_cert = false

abbrev pub is_nil : {A : Type 0} → List A → Bool
is_nil [] = true
is_nil (a ∷ rest) = false

module _ {F : Type 0} where
  unfoldable pub check : Text → Certificate F → List F → Bool
  check user cert fingerprints =
      is_user_cert cert.cert_type
      && cert.validate fingerprints
      && any (λ p. p == user) cert.valid_principals
      && is_nil cert.critical_options

  -- The handler that `trusted_ca_keys` makes of the fingerprints, as the server calls it.
  unfoldable pub trusted_ca_keys : {V : Type 0} → List F → Text → Certificate F → AuthOutcome V
  trusted_ca_keys fingerprints user cert = from_bool (check user cert fingerprints)
