-- ===== src/Archive/Extract/Bounds.antt =====
-- Lemmas on the pages that `Extract` of internal/archive/archive.go returns.
use mathlib.Core.Path.{subst}
use bloem_community_crowquil.Prelude.{
  ℕ, suc, ◌≡◌, sym, ap, ◌∙◌, Bytes, List, [], some, Result, ok, err, arith, Option-cases,
  Result-cases, Bool-cases, inl, inr,
}
use bloem_community_crowquil.Prelude.Int.{pos, pos_part, ltb_ℤ}
use bloem_community_crowquil.Archive.Errors.{Error}
use bloem_community_crowquil.Archive.Limits.{Limits, normalize_limits}
use bloem_community_crowquil.Archive.Readers.{World, IsReader}
use bloem_community_crowquil.Archive.Entries.{PageCandidate, Extraction, Extracted, rar_loop}
use bloem_community_crowquil.Archive.Entries.Bounds.{sizes, IsWithin}
use bloem_community_crowquil.Archive.Entries.Zip.{OpensReaders, zip_loop-IsWithin}
use bloem_community_crowquil.Archive.Entries.Rar.{rar_loop-IsWithin}
use bloem_community_crowquil.Archive.Pages.{Page, sort_candidates, materialize_pages}
use bloem_community_crowquil.Archive.Pages.Sorted.{write_pages-pages_from}
use bloem_community_crowquil.Archive.Pages.Limits.{ArePages, ArePages-of}
use bloem_community_crowquil.Archive.Extract.{
  Environment, ArchiveKind, zip, rar, ZipInput, max_entries_of, preflight, read_zip, extract_zip,
  read_rar, extract_rar, extract_kind, extract_pages, with_cleanup, extract_validated, extract,
  validate_input, prepare_output_dir, detect_archive_kind, started,
}

-- The readers of the archive libraries keep to their buffers.
pub record HasReaders {S : Type 0} (env : Environment S) : Type 0 where
  pub zip_readers : OpensReaders env.zip_entries
  pub rar_reader :
      (s : S) (limits : Limits) (w : World S) → (env.start_rar s limits).1 ≡ ok w → IsReader w

module _ {S : Type 0} (env : Environment S) (readers : HasReaders env) where
  IsWithin-start : (max_entries max_page total : ℕ) → IsWithin max_entries max_page total total []
  unfolding sizes
  IsWithin-start max_entries max_page total = record {
    few = omega arith;
    pages = tt;
    bytes = omega arith;
  }

  abbrev Within : Limits → Extracted S → Type 0
  Within limits o =
      (cs : List PageCandidate)
      → o.1 ≡ ok cs
      → IsWithin (pos_part limits.max_entries) (pos_part limits.max_page_bytes)
          (pos_part limits.max_total_bytes) o.0.1 cs

  read_zip-Within :
      (limits : Limits) (x : Extraction S) (input : ZipInput)
      → Within limits (read_zip env limits x input)
  unfolding read_zip
  read_zip-Within limits x input cs h = elim (Result-cases (env.list_files x.files input).1) [
    | inl (e, failed) ↦ absurd (ground arith)
    | inr (files, listed) ↦
        rw (listed, read_zip)
          (zip_loop-IsWithin env.check_context env.disk env.zip_entries (max_entries_of env limits)
            (pos_part limits.max_page_bytes) readers.zip_readers 0 files
            (record x { files = (env.list_files x.files input).0 })
            (pos_part limits.max_total_bytes) (pos_part limits.max_total_bytes) [] cs (omega arith)
            (IsWithin-start 0 (pos_part limits.max_page_bytes) (pos_part limits.max_total_bytes))
            (ground (arith, listed, h)))
  ]

  extract_zip-Within :
      (limits : Limits) (path : Bytes) (x : Extraction S)
      → Within limits (extract_zip env limits path x)
  unfolding extract_zip
  extract_zip-Within limits path x cs h =
      let s = (env.open_zip x.files path).0 in
      elim (Result-cases (env.open_zip x.files path).1) [
        | inl (e, failed) ↦ absurd (ground arith)
        | inr (input, opened) ↦
            elim (Bool-cases (ltb_ℤ limits.max_archive_bytes (pos input.size))) [
              | inl large ↦ absurd (ground (arith, opened, large, h))
              | inr fits ↦ elim (Result-cases (preflight env limits input)) [
                | inl (e, failed) ↦ absurd (ground (arith, opened, fits, failed, h))
                | inr (done, passed) ↦
                    rw (opened, fits, passed, extract_zip)
                      (read_zip-Within limits (record x { files = s }) input cs
                        (ground (arith, opened, fits, passed, h)))
              ]
            ]
      ]

  read_rar-Within :
      (limits : Limits) (x : Extraction S) (w : World S)
      → IsReader w
      → Within limits (read_rar env limits x w)
  unfolding read_rar
  read_rar-Within limits x w reader cs h =
      let max_entries = max_entries_of env limits in
      let max_page = pos_part limits.max_page_bytes in
      let total = pos_part limits.max_total_bytes in
      let loop =
        rar_loop w env.disk env.next_rar max_entries max_page (suc max_entries) 0 x total [] in
      elim (Option-cases loop) [
        | inl out ↦ absurd (ground (arith, out, h))
        | inr (((x', left), result), ended) ↦
            let good : result ≡ ok cs = ground (arith, ended, h) in
            rw (ended, read_rar)
              (rar_loop-IsWithin w env.disk env.next_rar max_entries max_page reader
                (suc max_entries) 0 x total total [] cs x' left (omega arith)
                (IsWithin-start 0 max_page total) (ended ∙ ap (λ r. some ((x', left), r)) good))
      ]

  extract_rar-Within :
      (limits : Limits) (path : Bytes) (x : Extraction S)
      → Within limits (extract_rar env limits path x)
  unfolding extract_rar
  extract_rar-Within limits path x cs h =
      let s = (env.open_rar x.files path).0 in
      elim (Result-cases (env.open_rar x.files path).1) [
        | inl (e, failed) ↦ absurd (ground arith)
        | inr (size, opened) ↦ elim (Bool-cases (ltb_ℤ limits.max_archive_bytes (pos size))) [
          | inl large ↦ absurd (ground (arith, opened, large, h))
          | inr fits ↦ elim (Result-cases (env.start_rar s limits).1) [
            | inl (e, failed) ↦ absurd (ground (arith, opened, fits, failed, h))
            | inr (w, begun) ↦
                rw (opened, fits, begun, extract_rar)
                  (read_rar-Within limits (record x { files = (env.start_rar s limits).0 }) w
                    (readers.rar_reader s limits w begun) cs
                    (ground (arith, opened, fits, begun, h)))
          ]
        ]
      ]

  extract_kind-Within :
      (kind : ArchiveKind) (limits : Limits) (path : Bytes) (x : Extraction S)
      → Within limits (extract_kind env kind limits path x)
  unfolding extract_kind
  extract_kind-Within zip limits path x = extract_zip-Within limits path x
  extract_kind-Within rar limits path x = extract_rar-Within limits path x

  extract_pages-ArePages :
      (kind : ArchiveKind) (limits : Limits) (path : Bytes) (x : Extraction S) (pages : List Page)
      → (extract_pages env kind limits path x).1 ≡ ok pages
      → ArePages env.to_lower limits pages
  unfolding extract_pages materialize_pages
  extract_pages-ArePages kind limits path x pages h =
      let o = extract_kind env kind limits path x in
      let s = (env.check_context o.0.0.files).0 in
      elim (Result-cases o.1) [
        | inl (e, failed) ↦ absurd (ground (arith, failed, h))
        | inr (cs, extracted) ↦ elim (Option-cases (env.check_context o.0.0.files).1) [
          | inr (e, done) ↦ absurd (ground (arith, extracted, done, h))
          | inl free ↦
              let same =
                write_pages-pages_from env.output 0 (sort_candidates env.to_lower cs)
                  (record o.0.0 { files = s }) [] pages (ground (arith, extracted, free, h)) in
              subst (ArePages env.to_lower limits) (sym same) (
                ArePages-of env.to_lower env.output.page_path limits o.0.1 cs
                  (extract_kind-Within kind limits path x cs extracted))
        ]
      ]

  extract_validated-ArePages :
      (input_path output_dir : Bytes) (limits : Limits) (s : S) (pages : List Page)
      → (extract_validated env input_path output_dir limits s).1 ≡ ok pages
      → ArePages env.to_lower limits pages
  unfolding extract_validated with_cleanup
  extract_validated-ArePages input_path output_dir limits s pages h =
      let s1 = (validate_input env s input_path limits).0 in
      let s2 = (prepare_output_dir env s1 output_dir).0 in
      let s3 = (detect_archive_kind env s2 input_path).0 in
      elim (Result-cases (validate_input env s input_path limits).1) [
        | inl (e, failed) ↦ absurd (ground (arith, failed, h))
        | inr (u, valid) ↦ elim (Result-cases (prepare_output_dir env s1 output_dir).1) [
          | inl (e, failed) ↦ absurd (ground (arith, valid, failed, h))
          | inr (u', prepared) ↦ elim (Result-cases (detect_archive_kind env s2 input_path).1) [
            | inl (e, failed) ↦ absurd (ground (arith, valid, prepared, failed, h))
            | inr (kind, detected) ↦
                let o = extract_pages env kind limits input_path (started env s3) in
                extract_pages-ArePages kind limits input_path (started env s3) pages (
                  let h' : (with_cleanup env o).1 ≡ ok pages =
                    ground (arith, valid, prepared, detected, h) in
                  cleaned o pages h')
          ]
        ]
      ]
    where
      cleaned :
          (o : Extraction S × Result Error (List Page)) (pages : List Page)
          → (with_cleanup env o).1 ≡ ok pages
          → o.1 ≡ ok pages
      cleaned (x, err e) pages h = cc
      cleaned (x, ok ps) pages h = h

  -- Where the extraction returns pages, over archive libraries whose readers keep to their buffers,
  -- the limits with their defaults are usable, and the pages are at most as many as they allow
  -- entries, each no larger than they allow a page, together no larger than they allow in total,
  -- and in natural order of their names.
  pub extract-ArePages :
      (input_path output_dir : Bytes) (limits : Limits) (s : S) (pages : List Page)
      → (extract env input_path output_dir limits s).1 ≡ ok pages
      → (limits' : Limits) × (normalize_limits limits ≡ ok limits')
        × ArePages env.to_lower limits' pages
  unfolding extract
  extract-ArePages input_path output_dir limits s pages h =
      elim (Option-cases (env.check_context s).1) [
        | inr (e, done) ↦ absurd (ground (arith, done, h))
        | inl free ↦ elim (Result-cases (normalize_limits limits)) [
          | inl (e, failed) ↦ absurd (ground (arith, free, failed, h))
          | inr (limits', usable) ↦ (
            limits',
            usable,
            extract_validated-ArePages input_path output_dir limits' (env.check_context s).0 pages
                (ground (arith, free, usable, h)),
          )
        ]
      ]
