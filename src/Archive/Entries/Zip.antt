-- ===== src/Archive/Entries/Zip.antt =====
-- Lemmas on the loop of `extractZIP` of internal/archive/archive.go.
use bloem_community_crowquil.Prelude.{
  ℕ, ◌+◌, ◌≤◌, ◌≡◌, List, [], ◌∷◌, Option, none, some, ok, arith, Option-cases, Result-cases, inl,
  inr, ok-injective,
}
use mathlib.Core.Path.{subst}
use bloem_community_crowquil.Archive.Errors.{Error}
use bloem_community_crowquil.Archive.Readers.{World, IsReader}
use bloem_community_crowquil.Archive.Entries.{
  PageCandidate, Extraction, Disk, consume_entry, append_candidate, ZipFile, ZipEntries, zip_entry,
  refuse_zip, zip_loop,
}
use bloem_community_crowquil.Archive.Entries.Bounds.{
  IsCharged, IsWithin, IsWithin-append, IsWithin-more, consume_entry-IsCharged,
}

-- Every reader that an entry opens keeps to its buffer.
pub record OpensReaders {S : Type 0} (z : ZipEntries S) : Type 0 where
  pub reader : (s : S) (file : ZipFile) (w : World S) → (z.open_entry s file).1 ≡ ok w → IsReader w

module _ {S : Type 0} (check_context : S → S × Option Error) (d : Disk S) (z : ZipEntries S)
    (max_entries max : ℕ) (readers : OpensReaders z) where
  zip_entry-IsCharged :
      (x : Extraction S) (file : ZipFile) (total : ℕ) (candidate : Option PageCandidate)
      → (zip_entry check_context d z max_entries max x file total).1 ≡ ok candidate
      → IsCharged max total (zip_entry check_context d z max_entries max x file total).0.1 candidate
  unfolding zip_entry
  zip_entry-IsCharged x file total candidate h = elim (Result-cases (z.open_entry x.files file).1) [
    | inl (e, failed) ↦ absurd (ground arith)
    | inr (w, opened) ↦
        let s = (z.open_entry x.files file).0 in
        let o = consume_entry w d max (record x { files = s }) file.name total in
        elim (Result-cases o.1) [
          | inl (e, failed) ↦ absurd (ground arith)
          | inr (c, processed) ↦ elim (Option-cases (z.close_entry o.0.0.files file).1) [
            | inr (e, failed) ↦ absurd (ground arith)
            | inl closed ↦
                let same : c ≡ candidate = ground arith in
                let charged =
                  consume_entry-IsCharged w d (readers.reader x.files file w opened) max
                    (record x { files = s }) file.name total c processed in
                rw (opened, processed, closed, zip_entry)
                  (subst (IsCharged max total o.0.1) same charged)
          ]
        ]
  ]

  refuse_zip-limit :
      (index : ℕ) (file : ZipFile)
      → (refuse_zip check_context d z max_entries max index file ≡ none → index + 1 ≤ max_entries)
        × (refuse_zip check_context d z max_entries max index file ≡ some none
            → index + 1 ≤ max_entries)
  unfolding refuse_zip
  refuse_zip-limit index file = ground arith

  pub zip_loop-IsWithin :
      (index : ℕ) (files : List ZipFile) (x : Extraction S) (start total : ℕ)
      (cs out : List PageCandidate)
      → index ≤ max_entries
      → IsWithin index max start total cs
      → (zip_loop check_context d z max_entries max index files x total cs).1 ≡ ok out
      → IsWithin max_entries max start
          (zip_loop check_context d z max_entries max index files x total cs).0.1
          out
  unfolding zip_loop
  zip_loop-IsWithin index [] x start total cs out below v h =
      subst (IsWithin max_entries max start total) (ok-injective h)
        (IsWithin-more max_entries below v)
  zip_loop-IsWithin index (file ∷ rest) x start total cs out below v h =
      let s = (check_context x.files).0 in
      elim (Option-cases (check_context x.files).1) [
        | inr (e, done) ↦ absurd (ground arith)
        | inl free ↦
            let limit = refuse_zip-limit index file in
            elim (Option-cases (refuse_zip check_context d z max_entries max index file)) [
              | inr (some e, refused) ↦ absurd (ground arith)
              | inr (none, skipped) ↦
                  let h' =
                    zip_loop-IsWithin (index + 1) rest (record x { files = s }) start total cs out
                      (limit.1 skipped) (IsWithin-more (index + 1) (omega arith) v)
                      (ground (arith, free, skipped, h)) in
                  rw (free, skipped, zip_loop) h'
              | inl wanted ↦
                  let o =
                    zip_entry check_context d z max_entries max (record x { files = s }) file
                      total in
                  elim (Result-cases o.1) [
                    | inl (e, failed) ↦ absurd (ground arith)
                    | inr (c, processed) ↦
                        let charged =
                          zip_entry-IsCharged (record x { files = s }) file total c processed in
                        let h' =
                          zip_loop-IsWithin (index + 1) rest o.0.0 start o.0.1
                            (append_candidate cs c) out (limit.0 wanted)
                            (IsWithin-append index max start total o.0.1 cs c v charged)
                            (ground (arith, free, wanted, processed, h)) in
                        rw (free, wanted, processed, zip_loop) h'
                  ]
            ]
      ]
