-- ===== src/Auth/TrustedCa/Listing.antt =====
-- src/auth/trusted_ca.rs: what `parse` takes from a file.
use shenron.Common.{
  ℕ, suc, List, [], ◌∷◌, ◌++◌, ◌≡◌, refl, ◌∙◌, if◌then◌else◌, Text, map, append-nil, append_assoc,
  Bool-cases, inl, inr, subst, ◌≢◌,
}
use shenron.Error.{Error, Result, ok, err}
use shenron.Lines.{lines, trim}
use shenron.Auth.TrustedCa.{is_skipped, parsed_line, parse_lines, unless_empty, parse}

-- The lines that name keys, trimmed.
abbrev pub key_lines : List Text → List Text
key_lines [] = []
key_lines (line ∷ rest) =
    if is_skipped (trim line) then key_lines rest else trim line ∷ key_lines rest

module _ {K F : Type 0} (parse_key : Text → Result Text K) (fingerprint : K → F) where
  -- All the keys parse, in this order.
  abbrev pub AllParse : List Text → List K → Type 0
  AllParse [] [] = Unit
  AllParse [] (k ∷ ks) = ⊥
  AllParse (l ∷ ls) [] = ⊥
  AllParse (l ∷ ls) (k ∷ ks) = (parse_key l ≡ ok k) × AllParse ls ks

  -- A line that is not skipped, and the lines after it.
  parsed_line-ok :
      (n : ℕ) (l : Text) (ls : List Text) (r : Result Text K) (found fps : List F)
      (rest : List F → Result Error (List F))
      → parse_key l ≡ r
      → ((more : List F)
          → rest more ≡ ok fps
          → (keys : List K) × AllParse ls keys × (fps ≡ more ++ map fingerprint keys))
      → parsed_line parse_key fingerprint n r rest found ≡ ok fps
      → (keys : List K) × AllParse (l ∷ ls) keys × (fps ≡ found ++ map fingerprint keys)
  unfolding parsed_line
  parsed_line-ok n l ls (ok k) found fps rest p ih e =
      let (keys, all, same) = ih (found ++ fingerprint k ∷ []) e in
      (k ∷ keys, (p, all), same ∙ append_assoc found (fingerprint k ∷ []) (map fingerprint keys))
  parsed_line-ok n l ls (err message) found fps rest p ih e = absurd (cc)

  parse_lines-ok :
      (n : ℕ) (ls : List Text) (found fps : List F)
      → parse_lines parse_key fingerprint n ls found ≡ ok fps
      → (keys : List K) × AllParse (key_lines ls) keys × (fps ≡ found ++ map fingerprint keys)
  unfolding parse_lines
  parse_lines-ok n [] found fps e = ([], tt, cc (append-nil found, e))
  parse_lines-ok n (l ∷ ls) found fps e = elim (Bool-cases (is_skipped (trim l))) [
    | inl skip ↦
        rw (skip, key_lines)
          (parse_lines-ok (suc n) ls found fps (
            subst
              (λ b.
                (if b
                  then parse_lines parse_key fingerprint (suc n) ls found
                  else parsed_line parse_key fingerprint n (parse_key (trim l))
                      (parse_lines parse_key fingerprint (suc n) ls) found)
                ≡ ok fps)
              skip e))
    | inr kept ↦
        rw (kept, key_lines)
          (parsed_line-ok n (trim l) (key_lines ls) (parse_key (trim l)) found fps
            (parse_lines parse_key fingerprint (suc n) ls) refl
            (λ more. parse_lines-ok (suc n) ls more fps)
            (subst
              (λ b.
                (if b
                  then parse_lines parse_key fingerprint (suc n) ls found
                  else parsed_line parse_key fingerprint n (parse_key (trim l))
                      (parse_lines parse_key fingerprint (suc n) ls) found)
                ≡ ok fps)
              kept e))
  ]

  unless_empty-ok :
      (r : Result Error (List F)) (fps : List F)
      → unless_empty parse_key fingerprint r ≡ ok fps
      → (r ≡ ok fps) × (fps ≢ [])
  unfolding unless_empty
  unless_empty-ok (err e) fps h = absurd (cc)
  unless_empty-ok (ok []) fps h = absurd (cc)
  unless_empty-ok (ok (f ∷ fs)) fps h = (h, λ z. absurd (cc (h, z)))

  -- Where a file of trusted authorities is accepted, it names at least one key, each of its lines
  -- that is not blank and no comment is a key, and the fingerprints are those of these keys, all
  -- of them and in the order of the lines.
  pub parse-ok :
      (input : Text) (fps : List F)
      → parse parse_key fingerprint input ≡ ok fps
      → (keys : List K) × AllParse (key_lines (lines input)) keys
        × (fps ≡ map fingerprint keys)
        × (fps ≢ [])
  unfolding parse
  parse-ok input fps e =
      let (read, full) =
        unless_empty-ok (parse_lines parse_key fingerprint 0 (lines input) []) fps e in
      let (keys, all, same) = parse_lines-ok 0 (lines input) [] fps read in (keys, all, same, full)
