-- ===== src/Archive/Pages/Tracked.antt =====
-- Lemmas on the files that the ZIP loop and the last step of an extraction in internal/archive/archive.go
-- make, all of which they track.
use bloem_community_crowquil.Prelude.{
  ℕ, ◌+◌, ◌≡◌, ◌⊎◌, inl, inr, refl, Bool, true, Bytes, List, [], ◌∷◌, ◌++◌, Option, some, ok,
  Option-cases, Result-cases,
}
use bloem_community_crowquil.Archive.Errors.{Error}
use bloem_community_crowquil.Archive.Readers.{World}
use bloem_community_crowquil.Archive.Readers.Copy.Quiet.{NoNew, IsQuiet}
use bloem_community_crowquil.Archive.Entries.{
  PageCandidate, Extraction, Disk, track, consume_entry, append_candidate, ZipFile, ZipEntries,
  zip_entry, refuse_zip, zip_loop,
}
use bloem_community_crowquil.Archive.Entries.Tracked.{
  Tracks, Tracks-behind, IsPlainDisk, consume_entry-Tracks, track-Tracks,
}
use bloem_community_crowquil.Archive.Pages.{
  Presence, present, missing, unknown, Output, Page, page_of, write_pages, materialize_pages,
  sort_candidates,
}

-- The ZIP library makes no file, and neither does an entry that it opens.
pub record IsQuietZip {S : Type 0} (is_there : S → Bytes → Bool) (z : ZipEntries S) : Type 0 where
  pub open_entry : (s : S) (file : ZipFile) → NoNew is_there s (z.open_entry s file).0
  pub close_entry : (s : S) (file : ZipFile) → NoNew is_there s (z.close_entry s file).0
  pub entry :
      (s : S) (file : ZipFile) (w : World S) → (z.open_entry s file).1 ≡ ok w → IsQuiet is_there w

module _ {S : Type 0} (is_there : S → Bytes → Bool) (before : S) where
  module _ (d : Disk S) (plain : IsPlainDisk is_there d) (check_context : S → S × Option Error)
      (checks : (s : S) → NoNew is_there s (check_context s).0) (z : ZipEntries S)
      (quiet : IsQuietZip is_there z) (max_entries max_page_bytes : ℕ) where
    zip_entry-Tracks :
        (x : Extraction S) (file : ZipFile) (total : ℕ)
        → Tracks is_there before x
        → Tracks is_there before
            (zip_entry check_context d z max_entries max_page_bytes x file total).0.0
    unfolding zip_entry
    zip_entry-Tracks x file total v =
        let s = (z.open_entry x.files file).0 in
        let opened = Tracks-behind is_there before x s v (quiet.open_entry x.files file) in
        elim (Result-cases (z.open_entry x.files file).1) [
          | inl (e, failed) ↦ rw (failed, zip_entry) opened
          | inr (w, found) ↦
              let o = consume_entry w d max_page_bytes (record x { files = s }) file.name total in
              let consumed =
                consume_entry-Tracks is_there before d plain max_page_bytes w
                  (quiet.entry x.files file w found) (record x { files = s }) file.name total
                  opened in
              let s' = (z.close_entry o.0.0.files file).0 in
              let closed =
                Tracks-behind is_there before o.0.0 s' consumed
                  (quiet.close_entry o.0.0.files file) in
              elim (Result-cases o.1) [
                | inl (e, failed) ↦ rw (found, failed, zip_entry) closed
                | inr (c, processed) ↦ elim (Option-cases (z.close_entry o.0.0.files file).1) [
                  | inr (e, failed) ↦ rw (found, processed, failed, zip_entry) closed
                  | inl fine ↦ rw (found, processed, fine, zip_entry) closed
                ]
              ]
        ]

    pub zip_loop-Tracks :
        (index : ℕ) (files : List ZipFile) (x : Extraction S) (total : ℕ) (cs : List PageCandidate)
        → Tracks is_there before x
        → Tracks is_there before
            (zip_loop check_context d z max_entries max_page_bytes index files x total cs).0.0
    unfolding zip_loop
    zip_loop-Tracks index [] x total cs v = v
    zip_loop-Tracks index (file ∷ rest) x total cs v =
        let s = (check_context x.files).0 in
        let checked = Tracks-behind is_there before x s v (checks x.files) in
        elim (Option-cases (check_context x.files).1) [
          | inr (e, done) ↦ rw (done, zip_loop) checked
          | inl free ↦
              elim (Option-cases
                (refuse_zip check_context d z max_entries max_page_bytes index file)) [
                  | inr (refusal, refused) ↦ elim (Option-cases refusal) [
                    | inr (e, why) ↦ rw (free, refused, why, zip_loop) checked
                    | inl skip ↦
                        rw (free, refused, skip, zip_loop)
                          (zip_loop-Tracks (index + 1) rest (record x { files = s }) total cs
                            checked)
                  ]
                  | inl fine ↦
                      let o =
                        zip_entry check_context d z max_entries max_page_bytes
                          (record x { files = s }) file total in
                      let consumed = zip_entry-Tracks (record x { files = s }) file total checked in
                      elim (Result-cases o.1) [
                        | inl (e, failed) ↦ rw (free, fine, failed, zip_loop) consumed
                        | inr (c, processed) ↦
                            rw (free, fine, processed, zip_loop)
                              (zip_loop-Tracks (index + 1) rest o.0.0 o.0.1 (append_candidate cs c)
                                consumed)
                      ]
                ]
        ]

  -- `os.Lstat` and the context make no file, and a rename only its target, and that where it succeeds.
  module _ (out : Output S) where
    pub record IsPlainOutput : Type 0 where
      pub check_context : (s : S) → NoNew is_there s (out.check_context s).0
      pub lstat : (s : S) (path : Bytes) → NoNew is_there s (out.lstat s path).0
      pub renamed :
          (s : S) (from to p : Bytes)
          → is_there (out.rename s from to).0 p ≡ true
          → (is_there s p ≡ true) ⊎ (p ≡ to)
      pub not_renamed :
          (s : S) (from to : Bytes) (e : Error)
          → (out.rename s from to).1 ≡ some e
          → NoNew is_there s (out.rename s from to).0

    presence_cases : (m : Presence) → (m ≡ present) ⊎ ((m ≡ missing) ⊎ (m ≡ unknown))
    presence_cases present = inl refl
    presence_cases missing = inr (inl refl)
    presence_cases unknown = inr (inr refl)

    module _ (plain : IsPlainOutput) where
      write_pages-Tracks :
          (index : ℕ) (cs : List PageCandidate) (x : Extraction S) (pages : List Page)
          → Tracks is_there before x
          → Tracks is_there before (write_pages out index cs x pages).0
      unfolding write_pages
      write_pages-Tracks index [] x pages v = v
      write_pages-Tracks index (c ∷ cs) x pages v =
          let path = out.page_path (index + 1) in
          let s = (out.check_context x.files).0 in
          let s1 = (out.lstat s path).0 in
          let s2 = (out.rename s1 c.temp_path path).0 in
          let checked = Tracks-behind is_there before x s v (plain.check_context x.files) in
          let looked : Tracks is_there before (record x { files = s1 }) =
            Tracks-behind is_there before (record x { files = s }) s1 checked
              (plain.lstat s path) in
          elim (Option-cases (out.check_context x.files).1) [
            | inr (e, done) ↦ rw (done, write_pages) checked
            | inl free ↦ elim (presence_cases (out.lstat s path).1) [
              | inl there ↦ rw (free, there, write_pages) looked
              | inr (inr unsure) ↦ rw (free, unsure, write_pages) looked
              | inr (inl absent) ↦ elim (Option-cases (out.rename s1 c.temp_path path).1) [
                | inr (e, failed) ↦
                    rw (free, absent, failed, write_pages)
                      (Tracks-behind is_there before (record x { files = s1 }) s2 looked
                        (plain.not_renamed s1 c.temp_path path e failed))
                | inl moved ↦
                    rw (free, absent, moved, write_pages)
                      (write_pages-Tracks (index + 1) cs (track (record x { files = s2 }) path)
                        (pages ++ page_of path c ∷ [])
                        (track-Tracks is_there before (record x { files = s1 }) s2 path looked
                          (plain.renamed s1 c.temp_path path)))
              ]
            ]
          ]

      pub materialize_pages-Tracks :
          (to_lower : Bytes → Bytes) (cs : List PageCandidate) (x : Extraction S)
          → Tracks is_there before x
          → Tracks is_there before (materialize_pages out to_lower cs x).0
      unfolding materialize_pages
      materialize_pages-Tracks to_lower cs x v =
          write_pages-Tracks 0 (sort_candidates to_lower cs) x [] v
