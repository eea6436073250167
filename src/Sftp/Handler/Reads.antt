-- ===== src/Sftp/Handler/Reads.antt =====
-- src/middleware/builtins/sftp/handler.rs: what a read answers.
use shenron.Common.{
  ℕ, ◌≤◌, List, [], ◌∷◌, ◌≡◌, refl, Text, text_eq, arith, length, min, Option-cases, inl, inr,
}
use shenron.Error.{Result, ok, err, IoError}
use shenron.HashMap
use shenron.Sftp.{Filesystem}
use shenron.Sftp.Protocol.{StatusCode, Data}
use shenron.Sftp.Handler.{
  SftpHandler, as_file, read, read_from, read_result, keep_file, max_read_len,
}

-- The answer to a read, on the bytes that were asked for.
abbrev pub Answers : ℕ → ℕ → Result StatusCode Data → Type 0
Answers id len (err e) = Unit
Answers id len (ok d) =
    (d.id ≡ id) × (1 ≤ length d.bytes) × (length d.bytes ≤ len) × (length d.bytes ≤ max_read_len)

module _ {S H : Type 0} (fs : Filesystem S H) where
  -- What the trait `FileHandle` asks of `read`: up to `len` bytes.
  abbrev pub ReadsUpTo : Type 0
  ReadsUpTo =
      (offset len : ℕ) (f : H) (s : S) (bytes : List ℕ)
      → (fs.file_read offset len f s).2 ≡ ok bytes
      → length bytes ≤ len

  result-Answers :
      (id len : ℕ) (r : Result IoError (List ℕ))
      → ((bytes : List ℕ) → r ≡ ok bytes → length bytes ≤ min len max_read_len)
      → Answers id len (read_result id r)
  unfolding read_result
  result-Answers id len (err e) h = tt
  result-Answers id len (ok []) h = tt
  result-Answers id len (ok (b ∷ bytes)) h =
      let l = h (b ∷ bytes) refl in (refl, omega arith, omega (arith, l), omega (arith, l))

  -- A read that is answered with data gives at least one byte and at most as many as were asked
  -- for, never more than `max_read_len`; the end of the file is a status, on a filesystem that
  -- reads up to the length it is asked for.
  pub read-Answers :
      (id offset len : ℕ) (handle : Text) (h : SftpHandler S H)
      → ReadsUpTo
      → Answers id len (read fs id handle offset len h).1
  unfolding read read_from keep_file
  read-Answers id offset len handle h up =
      elim (Option-cases (as_file (HashMap.get handle h.handles))) [
        | inl e ↦ rw (e, read) tt
        | inr (f, e) ↦
            rw (e, read)
              (result-Answers id len (fs.file_read offset (min len max_read_len) f h.fs).2
                (up offset (min len max_read_len) f h.fs))
      ]
