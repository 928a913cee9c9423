-- ===== src/Archive/Extract/Cleanup.antt =====
-- Lemmas on the files that a failed `Extract` of internal/archive/archive.go leaves behind.
use mathlib.Core.Path.{subst}
use bloem_community_crowquil.Prelude.{
  ◌≡◌, ◌⊎◌, inl, inr, sym, true, Bool, Bytes, List, [], ◌∷◌, Result, ok, err, arith, Option-cases,
  Result-cases,
}
use bloem_community_crowquil.Archive.Errors.{Error}
use bloem_community_crowquil.Archive.Limits.{Limits, normalize_limits}
use bloem_community_crowquil.Archive.Readers.Copy.Quiet.{NoNew}
use bloem_community_crowquil.Archive.Entries.{Extraction, remove_all, cleanup}
use bloem_community_crowquil.Archive.Entries.Tracked.{IsIn}
use bloem_community_crowquil.Archive.Pages.{Page}
use bloem_community_crowquil.Archive.Extract.{
  Environment, extract_pages, with_cleanup, extract_validated, extract, validate_input,
  prepare_output_dir, detect_archive_kind, started,
}
use bloem_community_crowquil.Archive.Extract.Kept.{
  IsPlain, Keeps, same-Keeps, extract_pages-Keeps, validate_input-NoNew, prepare_output_dir-NoNew,
  detect_archive_kind-NoNew,
}

module _ {S : Type 0} (env : Environment S) (is_there : S → Bytes → Bool)
    (plain : IsPlain is_there env) where
  -- The run ended with removals, one of which was of the file and has left it.
  abbrev pub IsStuck : S → Bytes → Type 0
  IsStuck after p =
      (s : S) × (paths : List Bytes) × (after ≡ remove_all env.disk (env.disk.remove s p) paths)
      × (is_there (env.disk.remove s p) p ≡ true)

  -- Every file that is there was there before, or could not be removed.
  abbrev pub IsClean : S → S → Type 0
  IsClean before after =
      (p : Bytes) → is_there after p ≡ true → (is_there before p ≡ true) ⊎ IsStuck after p

  remove_all-NoNew : (s : S) (paths : List Bytes) → NoNew is_there s (remove_all env.disk s paths)
  unfolding remove_all
  remove_all-NoNew s [] p h = h
  remove_all-NoNew s (path ∷ paths) p h =
      plain.disk.remove s path p (remove_all-NoNew (env.disk.remove s path) paths p h)

  remove_all-IsStuck :
      (s : S) (paths : List Bytes) (p : Bytes)
      → is_there (remove_all env.disk s paths) p ≡ true
      → IsIn p paths
      → IsStuck (remove_all env.disk s paths) p
  unfolding remove_all
  remove_all-IsStuck s [] p h member = absurd member
  remove_all-IsStuck s (path ∷ paths) p h (inl same) = (
    s,
    paths,
    cc (same),
    subst (λ q. is_there (env.disk.remove s q) p ≡ true) (sym same)
        (remove_all-NoNew (env.disk.remove s path) paths p h),
  )
  remove_all-IsStuck s (path ∷ paths) p h (inr later) =
      remove_all-IsStuck (env.disk.remove s path) paths p h later

  module _ (before : S) where
    abbrev CleanError : Extraction S × Result Error (List Page) → Type 0
    CleanError o = (e : Error) → o.1 ≡ err e → IsClean before o.0.files

    with_cleanup-CleanError :
        (o : Extraction S × Result Error (List Page))
        → Keeps env is_there plain before o.0
        → CleanError (with_cleanup env o)
    unfolding with_cleanup cleanup
    with_cleanup-CleanError (x, err e) v e' h p there =
        elim (v p (remove_all-NoNew x.files x.created p there)) [
          | inl old ↦ inl old
          | inr tracked ↦ inr (remove_all-IsStuck x.files x.created p there tracked)
        ]
    with_cleanup-CleanError (x, ok pages) v e' h p there = absurd (ground arith)

  extract_validated-CleanError :
      (before : S) (input_path output_dir : Bytes) (limits : Limits) (s : S)
      → NoNew is_there before s
      → CleanError before (extract_validated env input_path output_dir limits s)
  unfolding extract_validated
  extract_validated-CleanError before input_path output_dir limits s same =
      let s1 = (validate_input env s input_path limits).0 in
      let s2 = (prepare_output_dir env s1 output_dir).0 in
      let s3 = (detect_archive_kind env s2 input_path).0 in
      let same1 : NoNew is_there before s1 =
        λ p h. same p (validate_input-NoNew env is_there plain s input_path limits p h) in
      let same2 : NoNew is_there before s2 =
        λ p h. same1 p (prepare_output_dir-NoNew env is_there plain before s1 output_dir p h) in
      let same3 : NoNew is_there before s3 =
        λ p h. same2 p (detect_archive_kind-NoNew env is_there plain before s2 input_path p h) in
      elim (Result-cases (validate_input env s input_path limits).1) [
        | inl (e, failed) ↦ rw (failed, extract_validated) (λ e' h p there. inl (same1 p there))
        | inr (u, valid) ↦ elim (Result-cases (prepare_output_dir env s1 output_dir).1) [
          | inl (e, failed) ↦
              rw (valid, failed, extract_validated) (λ e' h p there. inl (same2 p there))
          | inr (u', prepared) ↦ elim (Result-cases (detect_archive_kind env s2 input_path).1) [
            | inl (e, failed) ↦
                rw (valid, prepared, failed, extract_validated)
                  (λ e' h p there. inl (same3 p there))
            | inr (kind, detected) ↦
                rw (valid, prepared, detected, extract_validated)
                  (with_cleanup-CleanError before
                    (extract_pages env kind limits input_path (started env s3))
                    (extract_pages-Keeps env is_there plain before kind limits input_path
                      (started env s3) (same-Keeps env is_there plain before s3 same3)))
          ]
        ]
      ]

  extract-CleanError :
      (input_path output_dir : Bytes) (limits : Limits) (s : S)
      → CleanError s (extract env input_path output_dir limits s)
  unfolding extract
  extract-CleanError input_path output_dir limits s =
      let same = plain.check_context s in
      elim (Option-cases (env.check_context s).1) [
        | inr (e, done) ↦ rw (done, extract) (λ e' h p there. inl (same p there))
        | inl free ↦ elim (Result-cases (normalize_limits limits)) [
          | inl (e, failed) ↦ rw (free, failed, extract) (λ e' h p there. inl (same p there))
          | inr (limits', usable) ↦
              rw (free, usable, extract)
                (extract_validated-CleanError s input_path output_dir limits'
                  (env.check_context s).0 same)
        ]
      ]

  -- Over calls of the outside that make no file but the one that os.CreateTemp or a rename names,
  -- where the extraction returns an error, every file that is there at its end was there before it,
  -- or is one of those that it removed last, and its removal has left it.
  pub extract-IsClean :
      (input_path output_dir : Bytes) (limits : Limits) (s : S) (e : Error)
      → (extract env input_path output_dir limits s).1 ≡ err e
      → (p : Bytes) → is_there (extract env input_path output_dir limits s).0.files p ≡ true
      → (is_there s p ≡ true) ⊎ IsStuck (extract env input_path output_dir limits s).0.files p
  extract-IsClean = extract-CleanError
