-- ===== src/Sftp/ReadDir/Paging.antt =====
-- Reading a directory to its end.
use shenron.Common.{
  ℕ, zero, suc, ◌+◌, ◌-◌, ◌≤◌, ◌<◌, min, Bool, Option, none, some, List, [], ◌∷◌, ◌++◌, ◌≡◌, sym,
  ap, ◌∙◌, Text, leb, length, take, drop, map, concat, All, arith, text_eq, Bool-cases, inl, inr,
  length-take, length-drop, length-map, drop-drop, drop_all, take-append-drop, beq_refl, le→leb,
  leb→le, lt→leb, leb→lt,
}
use mathlib.Core.List.{map-append}
use shenron.Error.{Result, ok, err}
use shenron.HashMap
use shenron.Format.{format_016x}
use shenron.Sftp.{DirEntry, Filesystem}
use shenron.Sftp.Protocol.{StatusCode, eof, File, Name}
use shenron.Sftp.Handler.{SftpHandler, dir, put, readdir_page, opendir}
use shenron.Sftp.ReadDir.{to_file, readdir}

-- A page and the pages after it; none where the fuel runs out.
abbrev pub page_then :
    Name → Option (List (List File) × StatusCode) → Option (List (List File) × StatusCode)
page_then name none = none
page_then name (some (pages, status)) = some (name.files ∷ pages, status)

abbrev pub collect :
    {S : Type 0}
    → (S → Option (List (List File) × StatusCode))
    → S × Result StatusCode Name
    → Option (List (List File) × StatusCode)
collect again (h, err status) = some ([], status)
collect again (h, ok name) = page_then name (again h)

-- A page holds an entry at least, and `readdir_page` at most.
abbrev pub IsPage : List File → Type 0
IsPage page = (1 ≤ length page) × (length page ≤ readdir_page)

abbrev page_end : List DirEntry → ℕ → ℕ
page_end entries offset = min (offset + readdir_page) (length entries)

module _ {ℓ κ} {A : Type ℓ} {B : Type κ} (f : A → B) where
  page_split :
      (o k : ℕ) (xs : List A)
      → map f (take k (drop o xs)) ++ map f (drop (o + k) xs) ≡ map f (drop o xs)
  page_split o k xs =
      sym (map-append f (take k (drop o xs)) (drop (o + k) xs))
      ∙ ap (map f)
          (ap (◌++◌ (take k (drop o xs))) (sym (drop-drop o k xs)) ∙ take-append-drop k (drop o xs))

module _ (format_time : Bool → ℕ → Text) (now : ℕ) where
  abbrev page : List DirEntry → ℕ → List File
  page entries offset =
      map (to_file format_time now) (take (page_end entries offset - offset) (drop offset entries))

  page-IsPage :
      (entries : List DirEntry) (offset : ℕ)
      → offset < length entries
      → IsPage (page entries offset)
  page-IsPage entries offset more =
      let k = page_end entries offset - offset in
      let rest = drop offset entries in
      omega (
        arith,
        length-map (to_file format_time now) (take k rest),
        length-take k rest,
        length-drop offset entries,
      )

module _ (format_time : Bool → ℕ → Text) (now : ℕ) {S H : Type 0} where
  -- A client that asks for pages until a status comes back.
  pub read_all : ℕ → ℕ → Text → SftpHandler S H → Option (List (List File) × StatusCode)
  read_all zero id handle h = none
  read_all (suc fuel) id handle h =
      collect (read_all fuel id handle) (readdir format_time now id handle h)

  readdir_more :
      (id : ℕ) (handle : Text) (entries : List DirEntry) (offset : ℕ) (h : SftpHandler S H)
      → HashMap.get handle h.handles ≡ some (dir entries offset)
      → offset < length entries
      → readdir format_time now id handle h ≡ (
        put handle (dir entries (page_end entries offset)) h,
        ok (record { id = id; files = page format_time now entries offset }),
      )
  unfolding readdir
  readdir_more id handle entries offset h e more =
      rw (e, readdir) (rw (lt→leb offset (length entries) more))

  readdir_end :
      (id : ℕ) (handle : Text) (entries : List DirEntry) (offset : ℕ) (h : SftpHandler S H)
      → HashMap.get handle h.handles ≡ some (dir entries offset)
      → length entries ≤ offset
      → readdir format_time now id handle h ≡ (h, err eof)
  unfolding readdir
  readdir_end id handle entries offset h e done =
      rw (e, readdir) (rw (le→leb (length entries) offset done))

  read_all_from :
      (fuel id : ℕ) (handle : Text) (entries : List DirEntry) (offset : ℕ) (h : SftpHandler S H)
      → HashMap.get handle h.handles ≡ some (dir entries offset)
      → length entries - offset < fuel
      → (pages : List (List File)) × (read_all fuel id handle h ≡ some (pages, eof))
        × (concat pages ≡ map (to_file format_time now) (drop offset entries))
        × All IsPage pages
  unfolding read_all
  read_all_from zero id handle entries offset h e enough = absurd (omega arith)
  read_all_from (suc fuel) id handle entries offset h e enough =
      elim (Bool-cases (leb (length entries) offset)) [
        | inl done ↦
            let d = leb→le (length entries) offset done in
            (
              [],
              rw (readdir_end id handle entries offset h e d, read_all),
              ap (map (to_file format_time now)) (sym (drop_all offset entries d)),
              tt,
            )
        | inr more ↦
            let m = leb→lt offset (length entries) more in
            let last = page_end entries offset in
            let h' = put handle (dir entries last) h in
            let found : HashMap.get handle h'.handles ≡ some (dir entries last) =
              HashMap.get-insert handle handle (dir entries last) h.handles
              ∙ rw (beq_refl handle) in
            let (pages, all, whole, good) =
              read_all_from fuel id handle entries last h' found (omega arith) in
            let k : offset + (last - offset) ≡ last = omega arith in
            (
              page format_time now entries offset ∷ pages,
              rw (readdir_more id handle entries offset h e m, read_all) (rw all),
              ap (◌++◌ (page format_time now entries offset))
                    (whole ∙ ap (λ n. map (to_file format_time now) (drop n entries)) (sym k))
                  ∙ page_split (to_file format_time now) offset (last - offset) entries,
              (page-IsPage format_time now entries offset m, good),
            )
      ]

module _ (format_time : Bool → ℕ → Text) (now : ℕ) {S H : Type 0} (fs : Filesystem S H) where
  -- Opening a directory that the filesystem lists, and reading on until a status comes back, gives
  -- every entry once and in the order of the listing, in pages of one to `readdir_page` entries,
  -- and then the end-of-file status; one request more than there are entries is enough.
  pub read_all-opendir :
      (fuel id : ℕ) (path : Text) (h : SftpHandler S H) (s : S) (entries : List DirEntry)
      → fs.read_dir path h.fs ≡ (s, ok entries)
      → length entries < fuel
      → (handle : Text) × ((opendir fs id path h).1 ≡ ok (record { id = id; handle = handle }))
        × (pages : List (List File)) × (read_all format_time now fuel id handle
              (opendir fs id path h).0
            ≡ some (pages, eof))
        × (concat pages ≡ map (to_file format_time now) entries)
        × All IsPage pages
  unfolding opendir
  read_all-opendir fuel id path h s entries listed enough =
      let handle = format_016x h.next_handle in
      let h' = (opendir fs id path h).0 in
      let found : HashMap.get handle h'.handles ≡ some (dir entries 0) =
        rw (listed, opendir)
          (HashMap.get-insert handle handle (dir entries 0) h.handles ∙ rw (beq_refl handle)) in
      let (pages, all, whole, good) =
        read_all_from format_time now fuel id handle entries 0 h' found (omega arith) in
      (handle, rw (listed, opendir), pages, all, whole, good)
