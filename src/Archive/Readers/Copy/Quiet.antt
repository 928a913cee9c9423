-- ===== src/Archive/Readers/Copy/Quiet.antt =====
-- Lemmas on the files that the copy loop of `consumeEntry` of internal/archive/archive.go makes, which
-- are none.
use bloem_community_crowquil.Prelude.{
  ℕ, zero, suc, ◌+◌, ◌≡◌, ◌||◌, Bool, true, Bytes, Option, none, some, Result, length, ltb, ◌==◌,
  if_cases, Option-cases, inl, inr,
}
use bloem_community_crowquil.Archive.Errors.{Error, is_eof}
use bloem_community_crowquil.Archive.Readers.{
  World, EntryLimits, entry_read, probe_entry, take_entry, is_none, min_of,
}
use bloem_community_crowquil.Archive.Readers.Copy.{
  buffer_size, close_with, store_chunk, finish_copy, copy_entry,
}

-- Every file that is there behind was there before.
abbrev pub NoNew : {S : Type 0} → (S → Bytes → Bool) → S → S → Type 0
NoNew is_there s s' = (p : Bytes) → is_there s' p ≡ true → is_there s p ≡ true

-- Reads, writes to an open file, its close and the context make no file.
pub record IsQuiet {S : Type 0} (is_there : S → Bytes → Bool) (w : World S) : Type 0 where
  pub check_context : (s : S) → NoNew is_there s (w.check_context s).0
  pub read : (s : S) (n : ℕ) → NoNew is_there s (w.read s n).0
  pub write : (s : S) (got : Bytes) → NoNew is_there s (w.write s got).0
  pub close : (s : S) → NoNew is_there s (w.close s).0

module _ {S : Type 0} (is_there : S → Bytes → Bool) (w : World S) (quiet : IsQuiet is_there w) where
  probe_entry-NoNew : (s : S) (r : EntryLimits) → NoNew is_there s (probe_entry w s r).0.0
  unfolding probe_entry
  probe_entry-NoNew s r =
      if_cases (λ (o : (S × EntryLimits) × Bytes × Option Error). NoNew is_there s o.0.0)
        (ltb 0 (length (w.read s 1).1) || is_none (w.read s 1).2) (λ b. quiet.read s 1)
        (λ b. quiet.read s 1)

  entry_read-NoNew : (s : S) (r : EntryLimits) (n : ℕ) → NoNew is_there s (entry_read w s r n).0.0
  unfolding entry_read take_entry
  entry_read-NoNew s r n =
      let P = λ (o : (S × EntryLimits) × Bytes × Option Error). NoNew is_there s o.0.0 in
      let s' = (w.check_context s).0 in
      let limit = min_of (min_of n r.page_remaining) r.total_remaining in
      elim (Option-cases (w.check_context s).1) [
        | inr (e, done) ↦ rw (done, entry_read) (quiet.check_context s)
        | inl free ↦
            rw (free, entry_read)
              (if_cases P (n == 0) (λ b. quiet.check_context s)
                (λ b.
                  if_cases P (limit == 0)
                    (λ b p h. quiet.check_context s p (probe_entry-NoNew s' r p h))
                    (λ b p h. quiet.check_context s p (quiet.read s' limit p h))))
      ]

  store_chunk-NoNew : (s : S) (got : Bytes) → NoNew is_there s (store_chunk w s got).0
  unfolding store_chunk close_with
  store_chunk-NoNew s got =
      let P = λ (o : S × Option Error). NoNew is_there s o.0 in
      let s' = (w.check_context s).0 in
      let s'' = (w.write s' got).0 in
      let written : NoNew is_there s s'' =
        λ p h. quiet.check_context s p (quiet.write s' got p h) in
      if_cases P (length got == 0) (λ b p h. h)
        (λ b. elim (Option-cases (w.check_context s).1) [
          | inr (e, done) ↦
              rw (done, store_chunk) (λ p h. quiet.check_context s p (quiet.close s' p h))
          | inl free ↦ elim (Option-cases (w.write s' got).2) [
            | inr (e, failed) ↦
                rw (free, failed, store_chunk) (λ p h. written p (quiet.close s'' p h))
            | inl fine ↦
                rw (free, fine, store_chunk)
                  (if_cases P ((w.write s' got).1 == length got) (λ b. written)
                    (λ b p h. written p (quiet.close s'' p h)))
          ]
        ])

  finish_copy-NoNew : (s : S) (e : Error) (size : ℕ) → NoNew is_there s (finish_copy w s e size).0
  unfolding finish_copy
  finish_copy-NoNew s e size =
      if_cases (λ (o : S × Result Error ℕ). NoNew is_there s o.0) (is_eof e)
        (λ b. elim (Option-cases (w.close s).1) [
          | inr (e', failed) ↦ rw (failed, finish_copy) (quiet.close s)
          | inl closed ↦ rw (closed, finish_copy) (quiet.close s)
        ])
        (λ b. quiet.close s)

  abbrev pub Copied : S → Option ((S × EntryLimits) × Result Error ℕ) → Type 0
  Copied s none = Unit {0}
  Copied s (some o) = NoNew is_there s o.0.0

  Copied-behind :
      (s s' : S) (o : Option ((S × EntryLimits) × Result Error ℕ))
      → NoNew is_there s s'
      → Copied s' o
      → Copied s o
  Copied-behind s s' none before v = tt
  Copied-behind s s' (some o) before v = λ p h. before p (v p h)

  pub copy_entry-Copied :
      (fuel : ℕ) (s : S) (r : EntryLimits) (size : ℕ) → Copied s (copy_entry w fuel s r size)
  unfolding copy_entry close_with
  copy_entry-Copied zero s r size = tt
  copy_entry-Copied (suc fuel) s r size =
      let s' = (w.check_context s).0 in
      let read = entry_read w s' r buffer_size in
      let stored = store_chunk w read.0.0 read.1 in
      let behind : NoNew is_there s stored.0 = λ p h.
        quiet.check_context s p
          (entry_read-NoNew s' r buffer_size p (store_chunk-NoNew read.0.0 read.1 p h)) in
      elim (Option-cases (w.check_context s).1) [
        | inr (e, done) ↦
            rw (done, copy_entry) (λ p h. quiet.check_context s p (quiet.close s' p h))
        | inl free ↦ elim (Option-cases stored.1) [
          | inr (e, failed) ↦ rw (free, failed, copy_entry) behind
          | inl fine ↦ elim (Option-cases read.2) [
            | inr (e, ended) ↦
                rw (free, fine, ended, copy_entry)
                  (λ p h. behind p (finish_copy-NoNew stored.0 e (size + length read.1) p h))
            | inl more ↦
                rw (free, fine, more, copy_entry)
                  (Copied-behind s stored.0 _ behind
                    (copy_entry-Copied fuel stored.0 read.0.1 (size + length read.1)))
          ]
        ]
      ]
