-- ===== src/Archive/Entries/Tracked.antt =====
-- Lemmas on the files that the loops of `extractZIP` and `extractRAR` of internal/archive/archive.go make,
-- all of which they track.
use mathlib.Core.Path.{subst}
use bloem_community_crowquil.Prelude.{
  ℕ, zero, suc, ◌+◌, ◌≡◌, ◌⊎◌, inl, inr, Bool, true, Bytes, List, [], ◌∷◌, Option, none, some,
  Result, ok, err, if_cases, Option-cases, Result-cases,
}
use bloem_community_crowquil.Archive.Errors.{Error, is_eof}
use bloem_community_crowquil.Archive.Readers.{World, EntryLimits}
use bloem_community_crowquil.Archive.Readers.Copy.{copy_entry}
use bloem_community_crowquil.Archive.Readers.Copy.Quiet.{NoNew, IsQuiet, Copied, copy_entry-Copied}
use bloem_community_crowquil.Archive.Entries.{
  PageCandidate, Extraction, Disk, track, judge_copy, end_copy, copy_to, consume_entry,
  append_candidate, Extracted, RarHeader, refuse_rar, rar_loop,
}

abbrev pub IsIn : Bytes → List Bytes → Type 0
IsIn p [] = ⊥
IsIn p (q ∷ qs) = (p ≡ q) ⊎ IsIn p qs

-- A file that is there was there before, or is tracked.
abbrev pub Tracks : {S : Type 0} → (S → Bytes → Bool) → S → Extraction S → Type 0
Tracks is_there before x =
    (p : Bytes) → is_there x.files p ≡ true → (is_there before p ≡ true) ⊎ IsIn p x.created

pub Tracks-behind :
    {S : Type 0} (is_there : S → Bytes → Bool) (before : S) (x : Extraction S) (s : S)
    → Tracks is_there before x
    → NoNew is_there x.files s
    → Tracks is_there before (record x { files = s })
Tracks-behind is_there before x s v same p h = v p (same p h)

pub track-Tracks :
    {S : Type 0} (is_there : S → Bytes → Bool) (before : S) (x : Extraction S) (s : S)
    (path : Bytes)
    → Tracks is_there before x
    → ((p : Bytes) → is_there s p ≡ true → (is_there x.files p ≡ true) ⊎ (p ≡ path))
    → Tracks is_there before (track (record x { files = s }) path)
unfolding track
track-Tracks is_there before x s path v made p h = elim (made p h) [
  | inr fresh ↦ inr (inl fresh)
  | inl there ↦ elim (v p there) [ inl old ↦ inl old | inr tracked ↦ inr (inr tracked) ]
]

-- `os.CreateTemp` makes the file that it answers, and no other; `os.Remove` and an inspection make none.
pub record IsPlainDisk {S : Type 0} (is_there : S → Bytes → Bool) (d : Disk S) : Type 0 where
  pub create_temp :
      (s : S) (path p : Bytes)
      → (d.create_temp s).1 ≡ some path
      → is_there (d.create_temp s).0 p ≡ true
      → (is_there s p ≡ true) ⊎ (p ≡ path)
  pub no_temp : (s : S) → (d.create_temp s).1 ≡ none → NoNew is_there s (d.create_temp s).0
  pub remove : (s : S) (path : Bytes) → NoNew is_there s (d.remove s path)
  pub inspect : (s : S) (path name : Bytes) → NoNew is_there s (d.inspect s path name).0

module _ {S : Type 0} (is_there : S → Bytes → Bool) (before : S) (d : Disk S)
    (plain : IsPlainDisk is_there d) (max_page_bytes : ℕ) where
  module _ (w : World S) (quiet : IsQuiet is_there w) where
    judge_copy-Tracks :
        (x : Extraction S) (name path : Bytes) (total size : ℕ)
        → Tracks is_there before x
        → Tracks is_there before (judge_copy w d max_page_bytes x name path total size).0.0
    unfolding judge_copy
    judge_copy-Tracks x name path total size v =
        let s = (d.inspect x.files path name).0 in
        let seen : NoNew is_there x.files s = plain.inspect x.files path name in
        let removed : NoNew is_there x.files (d.remove s path) =
          λ p h. seen p (plain.remove s path p h) in
        elim (Result-cases (d.inspect x.files path name).1) [
          | inl (e, failed) ↦ rw (failed, judge_copy) (Tracks-behind is_there before x _ v removed)
          | inr (verdict, judged) ↦ elim (Option-cases verdict) [
            | inl no_image ↦
                rw (judged, no_image, judge_copy) (Tracks-behind is_there before x _ v removed)
            | inr (media_type, image) ↦
                rw (judged, image, judge_copy) (Tracks-behind is_there before x _ v seen)
          ]
        ]

    end_copy-Tracks :
        (x : Extraction S) (name path : Bytes) (o : (S × EntryLimits) × Result Error ℕ)
        → Tracks is_there before x
        → NoNew is_there x.files o.0.0
        → Tracks is_there before (end_copy w d max_page_bytes x name path o).0.0
    unfolding end_copy
    end_copy-Tracks x name path ((s, r), err e) v same =
        Tracks-behind is_there before x (d.remove s path) v
          (λ p h. same p (plain.remove s path p h))
    end_copy-Tracks x name path ((s, r), ok size) v same =
        judge_copy-Tracks (record x { files = s }) name path r.total_remaining size
          (Tracks-behind is_there before x s v same)

    copy_to-Tracks :
        (x : Extraction S) (name path : Bytes) (total : ℕ)
        → Tracks is_there before x
        → Tracks is_there before (copy_to w d max_page_bytes x name path total).0.0
    unfolding copy_to
    copy_to-Tracks x name path total v =
        let limits : EntryLimits = record {
          page_remaining = max_page_bytes;
          total_remaining = total;
        } in
        let copy = copy_entry w (suc max_page_bytes) x.files limits 0 in
        let copied = copy_entry-Copied is_there w quiet (suc max_page_bytes) x.files limits 0 in
        elim (Option-cases copy) [
          | inl out ↦ rw (out, copy_to) v
          | inr (o, done) ↦
              let same : NoNew is_there x.files o.0.0 =
                subst (λ c. Copied is_there w quiet x.files c) done copied in
              rw (done, copy_to) (end_copy-Tracks x name path o v same)
        ]

    pub consume_entry-Tracks :
        (x : Extraction S) (name : Bytes) (total : ℕ)
        → Tracks is_there before x
        → Tracks is_there before (consume_entry w d max_page_bytes x name total).0.0
    unfolding consume_entry
    consume_entry-Tracks x name total v =
        let s = (w.check_context x.files).0 in
        let checked = Tracks-behind is_there before x s v (quiet.check_context x.files) in
        elim (Option-cases (w.check_context x.files).1) [
          | inr (e, done) ↦ rw (done, consume_entry) checked
          | inl free ↦ elim (Option-cases (d.create_temp s).1) [
            | inl missing ↦
                rw (free, missing, consume_entry)
                  (Tracks-behind is_there before (record x { files = s }) (d.create_temp s).0
                    checked (plain.no_temp s missing))
            | inr (path, made) ↦
                rw (free, made, consume_entry)
                  (copy_to-Tracks (track (record x { files = (d.create_temp s).0 }) path) name path
                    total
                    (track-Tracks is_there before (record x { files = s }) (d.create_temp s).0 path
                      checked (λ p. plain.create_temp s path p made)))
          ]
        ]

    module _ (next : S → S × Result Error RarHeader)
        (next_quiet : (s : S) → NoNew is_there s (next s).0) (max_entries : ℕ) where
      abbrev pub RarTracks : Option (Extracted S) → Type 0
      RarTracks none = Unit {0}
      RarTracks (some o) = Tracks is_there before o.0.0

      pub rar_loop-RarTracks :
          (fuel index : ℕ) (x : Extraction S) (total : ℕ) (cs : List PageCandidate)
          → Tracks is_there before x
          → RarTracks (rar_loop w d next max_entries max_page_bytes fuel index x total cs)
      unfolding rar_loop
      rar_loop-RarTracks zero index x total cs v = tt
      rar_loop-RarTracks (suc fuel) index x total cs v =
          let s = (w.check_context x.files).0 in
          let s' = (next s).0 in
          let checked = Tracks-behind is_there before x s v (quiet.check_context x.files) in
          let read : Tracks is_there before (record x { files = s' }) =
            Tracks-behind is_there before (record x { files = s }) s' checked (next_quiet s) in
          elim (Option-cases (w.check_context x.files).1) [
            | inr (e, done) ↦ rw (done, rar_loop) checked
            | inl free ↦ elim (Result-cases (next s).1) [
              | inl (e, ended) ↦
                  rw (free, ended, rar_loop) (if_cases RarTracks (is_eof e) (λ b. read) (λ b. read))
              | inr (h, header) ↦
                  elim (Option-cases (refuse_rar w d next max_entries max_page_bytes index h)) [
                    | inr (refusal, refused) ↦ elim (Option-cases refusal) [
                      | inr (e, why) ↦ rw (free, header, refused, why, rar_loop) read
                      | inl skip ↦
                          rw (free, header, refused, skip, rar_loop)
                            (rar_loop-RarTracks fuel (index + 1) (record x { files = s' }) total cs
                              read)
                    ]
                    | inl fine ↦
                        let o =
                          consume_entry w d max_page_bytes (record x { files = s' }) h.name total in
                        let consumed =
                          consume_entry-Tracks (record x { files = s' }) h.name total read in
                        elim (Result-cases o.1) [
                          | inl (e, failed) ↦ rw (free, header, fine, failed, rar_loop) consumed
                          | inr (c, processed) ↦
                              rw (free, header, fine, processed, rar_loop)
                                (rar_loop-RarTracks fuel (index + 1) o.0.0 o.0.1
                                  (append_candidate cs c) consumed)
                        ]
                  ]
            ]
          ]
