-- ===== src/Sftp/Local/Sandbox.antt =====
-- src/middleware/builtins/sftp/local.rs: the paths that reach the sandbox, and what a read gives.
use shenron.Common.{
  ℕ, zero, suc, ◌≤◌, ◌≡◌, ◌≢◌, refl, ap, List, [], ◌∷◌, Text, nat_beq, length, take, length-take,
  arith, Bool-cases, inl, inr, nat_beq_iff,
}
use shenron.Error.{IoError, Result, ok, err}
use shenron.Sftp.Handler.Reads.{ReadsUpTo, Answers, read-Answers}
use shenron.Sftp.Handler.{SftpHandler, read}
use shenron.Sftp.Directory.{Dir}
use shenron.Sftp.Local.{local, rel, or_dot, trim_slashes, buffer, truncated}

-- A path that is not empty and does not start at the root.
abbrev pub IsRelative : Text → Type 0
IsRelative [] = ⊥
IsRelative (c ∷ t) = c ≢ b'/'

or_dot-trim : (t : Text) → IsRelative (or_dot (trim_slashes t))
unfolding trim_slashes or_dot
or_dot-trim [] = λ e. ground (arith, e)
or_dot-trim (c ∷ t) = elim (Bool-cases (nat_beq c b'/')) [
  | inl same ↦ rw (same, trim_slashes) (or_dot-trim t)
  | inr other ↦ rw (other, trim_slashes) (λ e. ground (arith, e, other))
]

rel-slash : (t : Text) → rel (b'/' ∷ t) ≡ rel t
unfolding rel trim_slashes
rel-slash t = refl

rel-relative : (t : Text) → IsRelative t → rel t ≡ t
unfolding rel trim_slashes or_dot
rel-relative [] h = elim h [ ]
rel-relative (c ∷ t) h = elim (Bool-cases (nat_beq c b'/')) [
  | inl same ↦ absurd (h ((nat_beq_iff c b'/').0 same))
  | inr other ↦ rw (other, rel) refl
]

-- A slash at the start of a path changes nothing, so that `/a` and `a` are the same file, and a
-- path that is relative stays as it is.
pub rel-IsRelative :
    (t : Text) → IsRelative (rel t) × (rel (b'/' ∷ t) ≡ rel t) × (rel (rel t) ≡ rel t)
rel-IsRelative t =
    let r : IsRelative (rel t) = unfold rel in or_dot-trim t in
    (r, rel-slash t, rel-relative (rel t) r)

length-buffer : (len : ℕ) (byte : ℕ → ℕ) → length (buffer len byte) ≡ len
unfolding buffer
length-buffer zero byte = refl
length-buffer (suc len) byte = omega (arith, length-buffer len (λ i. byte (suc i)))

truncated-length :
    (len : ℕ) (r : Result IoError (ℕ × (ℕ → ℕ))) (bytes : List ℕ)
    → truncated len r ≡ ok bytes
    → length bytes ≤ len
truncated-length len (ok (n, byte)) bytes e =
    let same : take n (buffer len byte) ≡ bytes = cc e in
    omega (arith, ap length same, length-take n (buffer len byte), length-buffer len byte)
truncated-length len (err x) bytes e = absurd (cc)

module _ {D F : Type 0} (dir : Dir D F) where
  -- A file on disk gives at most the bytes that are asked for, as the SFTP handler relies on.
  pub local-ReadsUpTo : ReadsUpTo (local dir)
  unfolding local
  local-ReadsUpTo offset len f d bytes e = truncated-length len (dir.read_at f offset len d) bytes e

  -- A read of a file in the directory on disk is answered with data only where there are between
  -- one byte and the length that was asked for, and never more than `max_read_len`.
  pub read-local :
      (id offset len : ℕ) (handle : Text) (h : SftpHandler D F)
      → Answers id len (read (local dir) id handle offset len h).1
  read-local id offset len handle h =
      read-Answers (local dir) id offset len handle h local-ReadsUpTo
