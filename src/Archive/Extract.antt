-- ===== src/Archive/Extract.antt =====
-- `Extract`, `validateInput`, `prepareOutputDir`, `detectArchiveKind` and the frames of `extractZIP`
-- and `extractRAR` of internal/archive/archive.go.
pub mod Bounds
pub mod Cleanup
pub mod Kept
use bloem_community_crowquil.Prelude.{
  ℕ, zero, suc, ◌+◌, Bool, true, false, ◌||◌, not, Bytes, List, [], ◌∷◌, Option, none, some, Result,
  ok, err, ◌>>=◌, ◌>>◌, reject_if, length, has_prefix, codes, ◌==◌, if◌then◌else◌,
}
use bloem_community_crowquil.Prelude.Int.{ℤ, pos, pos_part, ltb_ℤ}
use bloem_community_crowquil.Archive.Errors.{
  ArchiveError, Error, sentinel, eof, unexpected_eof, invalid_limits, invalid_input, invalid_output,
  archive_too_large, unsupported_archive,
}
use bloem_community_crowquil.Archive.Limits.{Limits, LimitError, normalize_limits}
use bloem_community_crowquil.Archive.Readers.{World}
use bloem_community_crowquil.Archive.Zip.{preflight_zip}
use bloem_community_crowquil.Archive.Entries.{
  PageCandidate, Extraction, Disk, cleanup, Extracted, ZipFile, ZipEntries, zip_loop, RarHeader,
  rar_loop, normalized,
}
use bloem_community_crowquil.Archive.Pages.{Page, Output, materialize_pages}

pub data ArchiveKind : Type 0 where
  zip rar : ArchiveKind

-- What `os.Lstat` says of a path: `is_regular` and `is_dir` are false of a link.
pub record PathInfo : Type 0 where
  pub is_regular : Bool
  pub is_dir : Bool
  pub size : ℤ

-- A ZIP input that was opened: its size, and its bytes for `ReadAt`.
pub record ZipInput : Type 0 where
  pub size : ℕ
  pub read_at : ℕ → ℕ → Result Error Bytes

-- Everything outside: the context, the input path, the output directory and the archive libraries.
-- `read_signature` is `io.ReadFull` of eight bytes of the input that `open_input` opened; `open_zip`
-- and `open_rar` open it and ask for its size; `list_files` is `zip.NewReader`, and `start_rar` is
-- `rardecode.NewReader`.
pub record Environment (S : Type 0) : Type 0 where
  pub check_context : S → S × Option Error
  pub to_lower : Bytes → Bytes
  pub lstat : S → Bytes → S × Option PathInfo
  pub make_dir : S → Bytes → S × Bool
  pub open_input : S → Bytes → S × Bool
  pub read_signature : S → S × Bytes × Option Error
  pub open_zip : S → Bytes → S × Result Error ZipInput
  pub list_files : S → ZipInput → S × Result Error (List ZipFile)
  pub zip_entries : ZipEntries S
  pub open_rar : S → Bytes → S × Result Error ℕ
  pub start_rar : S → Limits → S × Result Error (World S)
  pub next_rar : S → S × Result Error RarHeader
  pub disk : Disk S
  pub output : Output S

unfoldable pub check_input : Limits → Option PathInfo → Result Error (Unit {0})
check_input limits none = err (sentinel invalid_input)
check_input limits (some info) = do
  reject_if (not info.is_regular) (sentinel invalid_input)
  reject_if (ltb_ℤ limits.max_archive_bytes info.size) (sentinel archive_too_large)

unfoldable pub detect_kind : Bytes → Result Error ArchiveKind
detect_kind header =
    if has_prefix header (80 ∷ 75 ∷ 3 ∷ 4 ∷ [])
    then ok zip
    else if has_prefix header (80 ∷ 75 ∷ 5 ∷ 6 ∷ [])
    then ok zip
    else if has_prefix header (82 ∷ 97 ∷ 114 ∷ 33 ∷ 26 ∷ 7 ∷ [])
    then ok rar
    else err (sentinel unsupported_archive)

-- A short input is judged by what it has.
unfoldable pub judge_signature : Bytes → Option Error → Result Error ArchiveKind
judge_signature header none = detect_kind header
judge_signature header (some eof) = detect_kind header
judge_signature header (some unexpected_eof) = detect_kind header
judge_signature header (some e) = err e

module _ {S : Type 0} (env : Environment S) where
  unfoldable pub validate_input : S → Bytes → Limits → S × Result Error (Unit {0})
  validate_input s path limits =
      if length path == 0
      then (s, err (sentinel invalid_input))
      else let (s', info) = env.lstat s path in (s', check_input limits info)

  unfoldable pub check_output : Option PathInfo → Result Error (Unit {0})
  check_output none = err (sentinel invalid_output)
  check_output (some info) = reject_if (not info.is_dir) (sentinel invalid_output)

  unfoldable pub prepare_output_dir : S → Bytes → S × Result Error (Unit {0})
  prepare_output_dir s path =
      if length path == 0
      then (s, err (sentinel invalid_output))
      else let (s1, made) = env.make_dir s path in
        if not made
        then (s1, err (sentinel invalid_output))
        else let (s2, info) = env.lstat s1 path in (s2, check_output info)

  unfoldable pub detect_archive_kind : S → Bytes → S × Result Error ArchiveKind
  detect_archive_kind s path =
      let (s1, opened) = env.open_input s path in
      if not opened
      then (s1, err (sentinel invalid_input))
      else let (s2, header, failed) = env.read_signature s1 in (s2, judge_signature header failed)

  abbrev pub max_entries_of : Limits → ℕ
  max_entries_of limits = pos_part limits.max_entries

  -- `preflightZIP` returns whatever the bytes are, so the case of `none` is not reached.
  unfoldable pub preflight : Limits → ZipInput → Result Error (Unit {0})
  preflight limits input = elim (preflight_zip input.read_at (max_entries_of limits) input.size) [
    | none ↦ err eof
    | some (err e) ↦ err (normalized e)
    | some (ok done) ↦ ok tt
  ]

  unfoldable pub read_zip : Limits → Extraction S → ZipInput → Extracted S
  read_zip limits x input =
      let total = pos_part limits.max_total_bytes in
      let (s, files) = env.list_files x.files input in
      elim files [
        | err e ↦ ((record x { files = s }, total), err (normalized e))
        | ok files' ↦
            zip_loop env.check_context env.disk env.zip_entries (max_entries_of limits)
              (pos_part limits.max_page_bytes) 0 files' (record x { files = s }) total []
      ]

  unfoldable pub extract_zip : Limits → Bytes → Extraction S → Extracted S
  extract_zip limits path x =
      let total = pos_part limits.max_total_bytes in
      let (s, opened) = env.open_zip x.files path in
      elim opened [
        | err e ↦ ((record x { files = s }, total), err (sentinel invalid_input))
        | ok input ↦
            if ltb_ℤ limits.max_archive_bytes (pos input.size)
            then ((record x { files = s }, total), err (sentinel archive_too_large))
            else elim (preflight limits input) [
              | err e ↦ ((record x { files = s }, total), err e)
              | ok done ↦ read_zip limits (record x { files = s }) input
            ]
      ]

  -- The entry limit ends the loop before its fuel, so the case of `none` is not reached.
  unfoldable pub read_rar : Limits → Extraction S → World S → Extracted S
  read_rar limits x w =
      let total = pos_part limits.max_total_bytes in
      elim (rar_loop w env.disk env.next_rar (max_entries_of limits)
        (pos_part limits.max_page_bytes) (suc (max_entries_of limits)) 0 x total []) [
          | none ↦ ((x, total), err eof)
          | some o ↦ o
        ]

  unfoldable pub extract_rar : Limits → Bytes → Extraction S → Extracted S
  extract_rar limits path x =
      let total = pos_part limits.max_total_bytes in
      let (s, opened) = env.open_rar x.files path in
      elim opened [
        | err e ↦ ((record x { files = s }, total), err (sentinel invalid_input))
        | ok size ↦
            if ltb_ℤ limits.max_archive_bytes (pos size)
            then ((record x { files = s }, total), err (sentinel archive_too_large))
            else let (s', started) = env.start_rar s limits in
              elim started [
                | err e ↦ ((record x { files = s' }, total), err (normalized e))
                | ok w ↦ read_rar limits (record x { files = s' }) w
              ]
      ]

  unfoldable pub extract_kind : ArchiveKind → Limits → Bytes → Extraction S → Extracted S
  extract_kind zip limits path x = extract_zip limits path x
  extract_kind rar limits path x = extract_rar limits path x

  -- From the first tracked file on, where an error cleans up.
  unfoldable pub extract_pages :
      ArchiveKind → Limits → Bytes → Extraction S → Extraction S × Result Error (List Page)
  extract_pages kind limits path x =
      let ((x1, left), candidates) = extract_kind kind limits path x in
      elim candidates [
        | err e ↦ (x1, err e)
        | ok cs ↦
            let (s, done) = env.check_context x1.files in
            elim done [
              | some e ↦ (record x1 { files = s }, err e)
              | none ↦ materialize_pages env.output env.to_lower cs (record x1 { files = s })
            ]
      ]

  -- The deferred function of `Extract`.
  unfoldable pub with_cleanup :
      Extraction S × Result Error (List Page) → Extraction S × Result Error (List Page)
  with_cleanup (x, err e) = (cleanup env.disk x, err e)
  with_cleanup (x, ok pages) = (x, ok pages)

  abbrev pub started : S → Extraction S
  started s = record { files = s; created = [] }

  unfoldable pub extract_validated :
      Bytes → Bytes → Limits → S → Extraction S × Result Error (List Page)
  extract_validated input_path output_dir limits s =
      let (s1, valid) = validate_input s input_path limits in
      elim valid [
        | err e ↦ (started s1, err e)
        | ok done ↦
            let (s2, prepared) = prepare_output_dir s1 output_dir in
            elim prepared [
              | err e ↦ (started s2, err e)
              | ok done' ↦
                  let (s3, kind) = detect_archive_kind s2 input_path in
                  elim kind [
                    | err e ↦ (started s3, err e)
                    | ok k ↦ with_cleanup (extract_pages k limits input_path (started s3))
                  ]
            ]
      ]

  unfoldable pub extract : Bytes → Bytes → Limits → S → Extraction S × Result Error (List Page)
  extract input_path output_dir limits s =
      let (s', done) = env.check_context s in
      elim done [
        | some e ↦ (started s', err e)
        | none ↦ elim (normalize_limits limits) [
          | err e ↦ (started s', err (sentinel invalid_limits))
          | ok limits' ↦ extract_validated input_path output_dir limits' s'
        ]
      ]
