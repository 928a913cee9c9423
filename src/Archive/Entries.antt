-- ===== src/Archive/Entries.antt =====
-- `extractionState`, `pageCandidate`, `consumeEntry`, `extractZIP` and `extractRAR` of
-- internal/archive/archive.go. The archive libraries are parameters.
pub mod Bounds
pub mod Rar
pub mod Zip
pub mod Tracked
use bloem_community_crowquil.Prelude.{
  ℕ, zero, suc, ◌+◌, ◌-◌, ◌%◌, Bool, true, false, ◌||◌, not, Bytes, List, [], ◌∷◌, ◌++◌, Option,
  none, some, Result, ok, err, length, ltb, ◌==◌, if◌then◌else◌,
}
use bloem_community_crowquil.Archive.Errors.{
  Error, sentinel, eof, is_eof, invalid_output, entry_limit_exceeded, encrypted_archive,
  unsafe_entry, normalize_archive_error, corrupt_archive,
}
use bloem_community_crowquil.Archive.Readers.{World, EntryLimits}
use bloem_community_crowquil.Archive.Readers.Copy.{copy_entry}

pub record PageCandidate : Type 0 where
  pub name : Bytes
  pub temp_path : Bytes
  pub size : ℕ
  pub media_type : Bytes

-- The outside world `files`, and the files that the extraction made, the last one first.
pub record Extraction (S : Type 0) : Type 0 where
  pub files : S
  pub created : List Bytes

-- `os.CreateTemp`, `os.Remove`, and `inspectImage` on a file with the name of its entry.
pub record Disk (S : Type 0) : Type 0 where
  pub create_temp : S → S × Option Bytes
  pub remove : S → Bytes → S
  pub inspect : S → Bytes → Bytes → S × Result Error (Option Bytes)

unfoldable pub track : {S : Type 0} → Extraction S → Bytes → Extraction S
track x path = record x { created = path ∷ x.created }

-- Every tracked file is removed, the last one first.
unfoldable pub remove_all : {S : Type 0} → Disk S → S → List Bytes → S
remove_all d s [] = s
remove_all d s (path ∷ paths) = remove_all d (d.remove s path) paths

unfoldable pub cleanup : {S : Type 0} → Disk S → Extraction S → Extraction S
unfolding remove_all
cleanup d x = record x { files = remove_all d x.files x.created }

-- A processed entry: the world, the total budget left, and the candidate if the entry is an image.
abbrev pub Consumed : Type 0 → Type 0
Consumed S = (Extraction S × ℕ) × Result Error (Option PageCandidate)

module _ {S : Type 0} (w : World S) (d : Disk S) (max_page_bytes : ℕ) where
  -- After the copy of an entry; the deferred removal of its file runs on every path but the last.
  unfoldable pub judge_copy : Extraction S → Bytes → Bytes → ℕ → ℕ → Consumed S
  judge_copy x name path total size =
      let (s, verdict) = d.inspect x.files path name in
      elim verdict [
        | err e ↦ ((record x { files = d.remove s path }, total), err e)
        | ok none ↦ ((record x { files = d.remove s path }, total), ok none)
        | ok (some media_type) ↦ (
          (record x { files = s }, total),
          ok (
              some
                (record { name = name; temp_path = path; size = size; media_type = media_type })),
        )
      ]

  unfoldable pub end_copy :
      Extraction S → Bytes → Bytes → (S × EntryLimits) × Result Error ℕ → Consumed S
  end_copy x name path ((s, r), err e) =
      ((record x { files = d.remove s path }, r.total_remaining), err e)
  end_copy x name path ((s, r), ok size) =
      judge_copy (record x { files = s }) name path r.total_remaining size

  -- The fuel of the copy is enough for a reader that makes progress; for another reader the code runs
  -- on, and the model answers with an end of file that the code does not give.
  unfoldable pub copy_to : Extraction S → Bytes → Bytes → ℕ → Consumed S
  copy_to x name path total =
      elim (copy_entry w (suc max_page_bytes) x.files
        (record { page_remaining = max_page_bytes; total_remaining = total }) 0) [
          | none ↦ ((x, total), err eof)
          | some o ↦ end_copy x name path o
        ]

  -- `total` is `*totalRemaining`.
  unfoldable pub consume_entry : Extraction S → Bytes → ℕ → Consumed S
  consume_entry x name total =
      let (s, done) = w.check_context x.files in
      elim done [
        | some e ↦ ((record x { files = s }, total), err e)
        | none ↦
            let (s', temp) = d.create_temp s in
            elim temp [
              | none ↦ ((record x { files = s' }, total), err (sentinel invalid_output))
              | some path ↦ copy_to (track (record x { files = s' }) path) name path total
            ]
      ]

-- `append`, for a candidate that there is.
abbrev pub append_candidate : List PageCandidate → Option PageCandidate → List PageCandidate
append_candidate candidates none = candidates
append_candidate candidates (some c) = candidates ++ c ∷ []

abbrev pub normalized : Error → Error
normalized e = elim (normalize_archive_error (some e)) [ none ↦ e | some e' ↦ e' ]

-- What an extraction loop returns, with the total budget left.
abbrev pub Extracted : Type 0 → Type 0
Extracted S = (Extraction S × ℕ) × Result Error (List PageCandidate)

-- What `file.Flags`, `file.Mode()` and the name of a ZIP entry say.
pub record ZipFile : Type 0 where
  pub name : Bytes
  pub flags : ℕ
  pub is_symlink : Bool
  pub has_other_type : Bool
  pub is_dir : Bool
  pub ends_with_slash : Bool

-- `file.Open` gives the world from which the entry reads; `close_entry` closes it.
pub record ZipEntries (S : Type 0) : Type 0 where
  pub open_entry : S → ZipFile → S × Result Error (World S)
  pub close_entry : S → ZipFile → S × Option Error

module _ {S : Type 0} (check_context : S → S × Option Error) (d : Disk S) (z : ZipEntries S)
    (max_entries max_page_bytes : ℕ) where
  -- A regular entry: opened, copied, inspected and closed.
  unfoldable pub zip_entry : Extraction S → ZipFile → ℕ → Consumed S
  zip_entry x file total =
      let (s, opened) = z.open_entry x.files file in
      elim opened [
        | err e ↦ ((record x { files = s }, total), err (normalized e))
        | ok w ↦
            let ((x', total'), processed) =
              consume_entry w d max_page_bytes (record x { files = s }) file.name total in
            let (s', closed) = z.close_entry x'.files file in
            elim processed [
              | err e ↦ ((record x' { files = s' }, total'), err (normalized e))
              | ok candidate ↦ elim closed [
                | some e ↦ ((record x' { files = s' }, total'), err (normalized e))
                | none ↦ ((record x' { files = s' }, total'), ok candidate)
              ]
            ]
      ]

  -- The tests on an entry before it is opened; `some none` skips it.
  unfoldable pub refuse_zip : ℕ → ZipFile → Option (Option Error)
  refuse_zip index file =
      if ltb max_entries (index + 1)
      then some (some (sentinel entry_limit_exceeded))
      else if not (file.flags % 2 == 0)
      then some (some (sentinel encrypted_archive))
      else if file.is_symlink || file.has_other_type
      then some (some (sentinel unsafe_entry))
      else if file.is_dir || file.ends_with_slash
      then some none
      else none

  -- The loop over `zr.File`.
  unfoldable pub zip_loop : ℕ → List ZipFile → Extraction S → ℕ → List PageCandidate → Extracted S
  zip_loop index [] x total candidates = ((x, total), ok candidates)
  zip_loop index (file ∷ rest) x total candidates =
      let (s, done) = check_context x.files in
      elim done [
        | some e ↦ ((record x { files = s }, total), err e)
        | none ↦ elim (refuse_zip index file) [
          | some (some e) ↦ ((record x { files = s }, total), err e)
          | some none ↦ zip_loop (index + 1) rest (record x { files = s }) total candidates
          | none ↦
              let ((x', total'), processed) = zip_entry (record x { files = s }) file total in
              elim processed [
                | err e ↦ ((x', total'), err e)
                | ok candidate ↦
                    zip_loop (index + 1) rest x' total' (append_candidate candidates candidate)
              ]
        ]
      ]

-- What `rdr.Next` says of an entry.
pub record RarHeader : Type 0 where
  pub name : Bytes
  pub is_encrypted : Bool
  pub is_link : Bool
  pub is_dir : Bool

module _ {S : Type 0} (w : World S) (d : Disk S) (next : S → S × Result Error RarHeader)
    (max_entries max_page_bytes : ℕ) where
  unfoldable pub refuse_rar : ℕ → RarHeader → Option (Option Error)
  refuse_rar index header =
      if ltb max_entries (index + 1)
      then some (some (sentinel entry_limit_exceeded))
      else if header.is_encrypted
      then some (some (sentinel encrypted_archive))
      else if header.is_link
      then some (some (sentinel unsafe_entry))
      else if header.is_dir
      then some none
      else none

  -- The loop over the headers, on fuel: none when the fuel runs out.
  unfoldable pub rar_loop : ℕ → ℕ → Extraction S → ℕ → List PageCandidate → Option (Extracted S)
  rar_loop zero index x total candidates = none
  rar_loop (suc fuel) index x total candidates =
      let (s, done) = w.check_context x.files in
      elim done [
        | some e ↦ some ((record x { files = s }, total), err e)
        | none ↦
            let (s', header) = next s in
            elim header [
              | err e ↦
                  if is_eof e
                  then some ((record x { files = s' }, total), ok candidates)
                  else some ((record x { files = s' }, total), err (normalized e))
              | ok h ↦ elim (refuse_rar index h) [
                | some (some e) ↦ some ((record x { files = s' }, total), err e)
                | some none ↦ rar_loop fuel (index + 1) (record x { files = s' }) total candidates
                | none ↦
                    let ((x', total'), processed) =
                      consume_entry w d max_page_bytes (record x { files = s' }) h.name total in
                    elim processed [
                      | err e ↦ some ((x', total'), err (normalized e))
                      | ok candidate ↦
                          rar_loop fuel (index + 1) x' total'
                            (append_candidate candidates candidate)
                    ]
              ]
            ]
      ]
