-- ===== src/Archive/Extract/Kept.antt =====
-- Lemmas on the files that `Extract` of internal/archive/archive.go makes before its cleanup.
use mathlib.Core.Path.{subst}
use bloem_community_crowquil.Prelude.{
  suc, ◌≡◌, ◌==◌, inl, inr, not, Bool, Bytes, [], Result, ok, length, if_cases, Option-cases,
  Result-cases,
}
use bloem_community_crowquil.Prelude.Int.{pos, pos_part, ltb_ℤ}
use bloem_community_crowquil.Archive.Errors.{Error}
use bloem_community_crowquil.Archive.Limits.{Limits}
use bloem_community_crowquil.Archive.Readers.{World}
use bloem_community_crowquil.Archive.Readers.Copy.Quiet.{NoNew, IsQuiet}
use bloem_community_crowquil.Archive.Entries.{Extraction, Extracted, rar_loop}
use bloem_community_crowquil.Archive.Entries.Tracked.{
  Tracks, Tracks-behind, IsPlainDisk, RarTracks, rar_loop-RarTracks,
}
use bloem_community_crowquil.Archive.Pages.Tracked.{
  IsQuietZip, zip_loop-Tracks, IsPlainOutput, materialize_pages-Tracks,
}
use bloem_community_crowquil.Archive.Extract.{
  ArchiveKind, zip, rar, Environment, ZipInput, max_entries_of, preflight, read_zip, extract_zip,
  read_rar, extract_rar, extract_kind, extract_pages, validate_input, prepare_output_dir,
  detect_archive_kind, started,
}

-- What the calls of the outside make of the files: `is_there` tells files, not directories. Only
-- `os.CreateTemp` and a rename make files, and only those that they name.
pub record IsPlain {S : Type 0} (is_there : S → Bytes → Bool) (env : Environment S) : Type 0 where
  pub check_context : (s : S) → NoNew is_there s (env.check_context s).0
  pub lstat : (s : S) (path : Bytes) → NoNew is_there s (env.lstat s path).0
  pub make_dir : (s : S) (path : Bytes) → NoNew is_there s (env.make_dir s path).0
  pub open_input : (s : S) (path : Bytes) → NoNew is_there s (env.open_input s path).0
  pub read_signature : (s : S) → NoNew is_there s (env.read_signature s).0
  pub open_zip : (s : S) (path : Bytes) → NoNew is_there s (env.open_zip s path).0
  pub list_files : (s : S) (input : ZipInput) → NoNew is_there s (env.list_files s input).0
  pub zip_entries : IsQuietZip is_there env.zip_entries
  pub open_rar : (s : S) (path : Bytes) → NoNew is_there s (env.open_rar s path).0
  pub start_rar : (s : S) (limits : Limits) → NoNew is_there s (env.start_rar s limits).0
  pub rar_world :
      (s : S) (limits : Limits) (w : World S)
      → (env.start_rar s limits).1 ≡ ok w
      → IsQuiet is_there w
  pub next_rar : (s : S) → NoNew is_there s (env.next_rar s).0
  pub disk : IsPlainDisk is_there env.disk
  pub output : (before : S) → IsPlainOutput is_there before env.output

module _ {S : Type 0} (env : Environment S) (is_there : S → Bytes → Bool)
    (plain : IsPlain is_there env) where
  module _ (before : S) where
    abbrev pub Keeps : Extraction S → Type 0
    Keeps x = Tracks is_there before x

    pub same-Keeps : (s : S) → NoNew is_there before s → Keeps (started env s)
    same-Keeps s same p h = inl (same p h)

    read_zip-Keeps :
        (limits : Limits) (x : Extraction S) (input : ZipInput)
        → Keeps x
        → Keeps (read_zip env limits x input).0.0
    unfolding read_zip
    read_zip-Keeps limits x input v =
        let s = (env.list_files x.files input).0 in
        let listed = Tracks-behind is_there before x s v (plain.list_files x.files input) in
        elim (Result-cases (env.list_files x.files input).1) [
          | inl (e, failed) ↦ rw (failed, read_zip) listed
          | inr (files, found) ↦
              rw (found, read_zip)
                (zip_loop-Tracks is_there before env.disk plain.disk env.check_context
                  plain.check_context env.zip_entries plain.zip_entries (max_entries_of env limits)
                  (pos_part limits.max_page_bytes) 0 files (record x { files = s })
                  (pos_part limits.max_total_bytes) [] listed)
        ]

    extract_zip-Keeps :
        (limits : Limits) (path : Bytes) (x : Extraction S)
        → Keeps x
        → Keeps (extract_zip env limits path x).0.0
    unfolding extract_zip
    extract_zip-Keeps limits path x v =
        let s = (env.open_zip x.files path).0 in
        let opened = Tracks-behind is_there before x s v (plain.open_zip x.files path) in
        elim (Result-cases (env.open_zip x.files path).1) [
          | inl (e, failed) ↦ rw (failed, extract_zip) opened
          | inr (input, found) ↦
              rw (found, extract_zip)
                (if_cases (λ (o : Extracted S). Keeps o.0.0)
                  (ltb_ℤ limits.max_archive_bytes (pos input.size)) (λ b. opened)
                  (λ b. elim (Result-cases (preflight env limits input)) [
                    | inl (e, refused) ↦ rw refused opened
                    | inr (u, fine) ↦
                        rw fine (read_zip-Keeps limits (record x { files = s }) input opened)
                  ]))
        ]

    read_rar-Keeps :
        (limits : Limits) (x : Extraction S) (w : World S)
        → IsQuiet is_there w
        → Keeps x
        → Keeps (read_rar env limits x w).0.0
    unfolding read_rar
    read_rar-Keeps limits x w quiet v =
        let most = max_entries_of env limits in
        let total = pos_part limits.max_total_bytes in
        let page = pos_part limits.max_page_bytes in
        let looped =
          rar_loop-RarTracks is_there before env.disk plain.disk page w quiet env.next_rar
            plain.next_rar most (suc most) 0 x total [] v in
        elim (Option-cases (rar_loop w env.disk env.next_rar most page (suc most) 0 x total [])) [
          | inl out ↦ rw (out, read_rar) v
          | inr (o, done) ↦
              rw (done, read_rar)
                (subst
                  (RarTracks is_there before env.disk plain.disk page w quiet env.next_rar
                    plain.next_rar most)
                  done looped)
        ]

    extract_rar-Keeps :
        (limits : Limits) (path : Bytes) (x : Extraction S)
        → Keeps x
        → Keeps (extract_rar env limits path x).0.0
    unfolding extract_rar
    extract_rar-Keeps limits path x v =
        let s = (env.open_rar x.files path).0 in
        let s' = (env.start_rar s limits).0 in
        let opened : Keeps (record x { files = s }) =
          Tracks-behind is_there before x s v (plain.open_rar x.files path) in
        let begun : Keeps (record x { files = s' }) =
          Tracks-behind is_there before (record x { files = s }) s' opened
            (plain.start_rar s limits) in
        elim (Result-cases (env.open_rar x.files path).1) [
          | inl (e, failed) ↦ rw (failed, extract_rar) opened
          | inr (size, found) ↦
              rw (found, extract_rar)
                (if_cases (λ (o : Extracted S). Keeps o.0.0)
                  (ltb_ℤ limits.max_archive_bytes (pos size)) (λ b. opened)
                  (λ b. elim (Result-cases (env.start_rar s limits).1) [
                    | inl (e, failed) ↦ rw failed begun
                    | inr (w, is) ↦ rw is (
                        read_rar-Keeps limits (record x { files = s' }) w
                          (plain.rar_world s limits w is) begun)
                  ]))
        ]

    extract_kind-Keeps :
        (kind : ArchiveKind) (limits : Limits) (path : Bytes) (x : Extraction S)
        → Keeps x
        → Keeps (extract_kind env kind limits path x).0.0
    unfolding extract_kind
    extract_kind-Keeps zip limits path x v = extract_zip-Keeps limits path x v
    extract_kind-Keeps rar limits path x v = extract_rar-Keeps limits path x v

    pub extract_pages-Keeps :
        (kind : ArchiveKind) (limits : Limits) (path : Bytes) (x : Extraction S)
        → Keeps x
        → Keeps (extract_pages env kind limits path x).0
    unfolding extract_pages
    extract_pages-Keeps kind limits path x v =
        let o = extract_kind env kind limits path x in
        let s = (env.check_context o.0.0.files).0 in
        let found = extract_kind-Keeps kind limits path x v in
        let checked : Keeps (record o.0.0 { files = s }) =
          Tracks-behind is_there before o.0.0 s found (plain.check_context o.0.0.files) in
        elim (Result-cases o.1) [
          | inl (e, failed) ↦ rw (failed, extract_pages) found
          | inr (cs, candidates) ↦ elim (Option-cases (env.check_context o.0.0.files).1) [
            | inr (e, done) ↦ rw (candidates, done, extract_pages) checked
            | inl free ↦
                rw (candidates, free, extract_pages)
                  (materialize_pages-Tracks is_there before env.output (plain.output before)
                    env.to_lower cs (record o.0.0 { files = s }) checked)
          ]
        ]

    pub validate_input-NoNew :
        (path : Bytes) (limits : Limits)
        → NoNew is_there before (validate_input env before path limits).0
    unfolding validate_input
    validate_input-NoNew path limits =
        if_cases (λ (o : S × Result Error (Unit {0})). NoNew is_there before o.0) (length path == 0)
          (λ b p h. h) (λ b. plain.lstat before path)

    pub prepare_output_dir-NoNew :
        (s : S) (path : Bytes) → NoNew is_there s (prepare_output_dir env s path).0
    unfolding prepare_output_dir
    prepare_output_dir-NoNew s path =
        let P = λ (o : S × Result Error (Unit {0})). NoNew is_there s o.0 in
        let s' = (env.make_dir s path).0 in
        if_cases P (length path == 0) (λ b p h. h)
          (λ b.
            if_cases P (not (env.make_dir s path).1) (λ b'. plain.make_dir s path)
              (λ b' p h. plain.make_dir s path p (plain.lstat s' path p h)))

    pub detect_archive_kind-NoNew :
        (s : S) (path : Bytes) → NoNew is_there s (detect_archive_kind env s path).0
    unfolding detect_archive_kind
    detect_archive_kind-NoNew s path =
        let s' = (env.open_input s path).0 in
        if_cases (λ (o : S × Result Error ArchiveKind). NoNew is_there s o.0)
          (not (env.open_input s path).1) (λ b. plain.open_input s path)
          (λ b p h. plain.open_input s path p (plain.read_signature s' p h))
