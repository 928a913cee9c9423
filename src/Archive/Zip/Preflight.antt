-- ===== src/Archive/Zip/Preflight.antt =====
-- What `preflightZIP` of internal/archive/zip_preflight.go accepts.
use mathlib.Core.Path.{subst}
use bloem_community_crowquil.Prelude.{
  ℕ, suc, ◌-◌, ◌≡◌, ◌≢◌, ◌↔◌, ap, ◌∙◌, Bytes, none, some, Option-cases, inl, inr, Result, ok, arith,
  Result-cases,
}
use bloem_community_crowquil.Archive.Errors.{Error}
use bloem_community_crowquil.Archive.Zip.{Eocd, walk, locate_end, preflight_zip, check_count}
use bloem_community_crowquil.Archive.Zip.End.{IsClassic, IsEnd, locate_end-IsEnd, locate_end_ok}
use bloem_community_crowquil.Archive.Zip.Directory.{
  IsDirectory, walk-ends, walk-IsDirectory, walk_ok,
}

module _ (read_at : ℕ → ℕ → Result Error Bytes) (max_entries : ℕ) where
  -- The end record of an archive and its directory, as the preflight demands them.
  pub record IsPlain (size : ℕ) (e : Eocd) (end_offset : ℕ) : Type 0 where
    pub at_end : IsEnd read_at max_entries size e end_offset
    pub directory : IsDirectory read_at end_offset e.directory_offset e.count

  walk-count :
      (e : Eocd) (end_offset : ℕ)
      → IsClassic max_entries e end_offset
      → walk read_at max_entries
          (suc (end_offset - e.directory_offset))
          end_offset
          e.directory_offset
          0
        ≡ some (ok e.count)
      → IsDirectory read_at end_offset e.directory_offset e.count
  walk-count e end_offset c h =
      let (n, d, sum, bound) =
        walk-IsDirectory read_at max_entries (suc (end_offset - e.directory_offset)) end_offset
          e.directory_offset 0 e.count (omega (arith, c.directory)) (omega arith) h in
      let exact : n ≡ e.count = omega (arith, sum) in
      subst (IsDirectory read_at end_offset e.directory_offset) exact d

  -- The preflight of an archive ends: the walk over the directory never runs out of its fuel,
  -- whatever the bytes are.
  pub preflight_zip-ends : (size : ℕ) → preflight_zip read_at max_entries size ≢ none
  unfolding preflight_zip
  preflight_zip-ends size h = elim (Result-cases (locate_end read_at max_entries size)) [
    | inl (x, failed) ↦ ground arith
    | inr ((e, end_offset), located) ↦
        let ends =
          walk-ends read_at max_entries (suc (end_offset - e.directory_offset)) end_offset
            e.directory_offset 0 (omega arith) in
        ground arith
  ]

  preflight_zip-IsPlain :
      (size : ℕ)
      → preflight_zip read_at max_entries size ≡ some (ok tt)
      → (e : Eocd) × (end_offset : ℕ) × IsPlain size e end_offset
  unfolding preflight_zip check_count
  preflight_zip-IsPlain size h = elim (Result-cases (locate_end read_at max_entries size)) [
    | inl (x, failed) ↦ absurd (ground arith)
    | inr ((e, end_offset), located) ↦
        let at_end = locate_end-IsEnd read_at max_entries size e end_offset located in
        elim (Option-cases (
          walk read_at max_entries (suc (end_offset - e.directory_offset)) end_offset
            e.directory_offset 0)) [
              | inl out ↦ absurd (ground arith)
              | inr (walked, w) ↦ elim (Result-cases walked) [
                | inl (x, failed) ↦ absurd (ground arith)
                | inr (actual, counted) ↦
                    let same : actual ≡ e.count = ground arith in
                    (
                      e,
                      end_offset,
                      record {
                        at_end = at_end;
                        directory =
                            walk-count e end_offset at_end.is_record.classic
                              (w ∙ ap some (counted ∙ ap ok same));
                      },
                    )
              ]
            ]
  ]

  preflight_zip_ok :
      (size : ℕ) (e : Eocd) (end_offset : ℕ)
      → IsPlain size e end_offset
      → preflight_zip read_at max_entries size ≡ some (ok tt)
  unfolding preflight_zip check_count
  preflight_zip_ok size e end_offset p =
      let located = locate_end_ok read_at max_entries size e end_offset p.at_end in
      let few = p.at_end.is_record.classic.few in
      let walked =
        walk_ok read_at max_entries (suc (end_offset - e.directory_offset)) end_offset
          e.directory_offset 0 e.count p.directory (omega arith) (omega arith) in
      ground arith

  -- The preflight accepts an archive exactly where the bytes at its end can be read, the last
  -- signature of an end record in them that leaves room for the record begins a classic one on one
  -- disk, whose comment reaches up to the end of the archive, with a count within the limit and a
  -- directory that ends where the record begins, no locator of a ZIP64 record stands before it, and
  -- as many headers as the count says follow each other from the start of the directory up to its
  -- end.
  pub preflight_zip_iff :
      (size : ℕ)
      → (preflight_zip read_at max_entries size ≡ some (ok tt))
        ↔ ((e : Eocd) × (end_offset : ℕ) × IsPlain size e end_offset)
  preflight_zip_iff size = (preflight_zip-IsPlain size, λ p. preflight_zip_ok size p.0 p.1 p.2)
