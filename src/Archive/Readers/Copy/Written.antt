-- ===== src/Archive/Readers/Copy/Written.antt =====
-- Lemmas on the bytes that a whole copy of an entry in `consumeEntry` of internal/archive/archive.go wrote.
use bloem_community_crowquil.Prelude.{
  ℕ, zero, suc, ◌+◌, ◌<◌, ◌≡◌, refl, sym, ap, ◌∙◌, true, Bytes, [], ◌++◌, append_assoc, append-nil,
  Option, none, some, Result, ok, err, length, length-append, arith, Option-cases, Bool-cases, inl,
  inr,
}
use bloem_community_crowquil.Archive.Errors.{Error, eof, is_eof}
use bloem_community_crowquil.Archive.Readers.Copy.Termination.{copy_entry-IsCopied}
use bloem_community_crowquil.Archive.Readers.{
  World, IsReader, MakesProgress, EntryLimits, entry_read,
}
use bloem_community_crowquil.Archive.Readers.Copy.{
  buffer_size, store_chunk, finish_copy, copy_entry,
}
use bloem_community_crowquil.Archive.Readers.Copy.Contents.{
  Streams, Reads, entry_read-IsRead, store_chunk-stored, IsRead-Reads, some-injective,
}

module _ {S : Type 0} (w : World S) (source stored : S → Bytes)
    (streams : Streams w source stored) where
  copied_same :
      (a s' : S) (b r' : EntryLimits) (c size : ℕ)
      → ◌≡◌ {A = Option ((S × EntryLimits) × Result Error ℕ)}
          (some ((a, b), ok c))
          (some ((s', r'), ok size))
      → (a ≡ s') × (c ≡ size)
  copied_same a s' b r' c size h = (cc, cc)

  is_eof→eof : (e : Error) → is_eof e ≡ true → e ≡ eof
  is_eof→eof eof h = refl
  is_eof→eof _ h = cc

  -- The end of the loop behind the last chunk.
  finish_copy-Contents :
      (s : S) (r r' : EntryLimits) (e : Error) (size : ℕ) (s' : S) (size' : ℕ)
      → ◌≡◌ {A = Option ((S × EntryLimits) × Result Error ℕ)}
          (some (((finish_copy w s e size).0, r), (finish_copy w s e size).1))
          (some ((s', r'), ok size'))
      → (e ≡ eof) × (stored s' ≡ stored s) × (size ≡ size')
  unfolding finish_copy
  finish_copy-Contents s r r' e size s' size' h = elim (Bool-cases (is_eof e)) [
    | inr other ↦ absurd (ground (arith, other, h))
    | inl ended ↦ elim (Option-cases (w.close s).1) [
      | inr (f, failed) ↦ absurd (ground (arith, ended, failed, h))
      | inl closed ↦
          let (same, sizes) =
            copied_same (w.close s).0 s' r r' size size' (ground (arith, ended, closed, h)) in
          (is_eof→eof e ended, ap stored (sym same) ∙ streams.close_stored s, sizes)
    ]
  ]

  -- A round that stored a chunk, with what the rest of the loop stored behind it.
  round-Contents :
      (s s1 s' : S) (got : Bytes) (from size : ℕ)
      → stored s1 ≡ stored s ++ got
      → source s ≡ got ++ source s1
      → (stored s' ≡ stored s1 ++ source s1) × (size ≡ from + length got + length (source s1))
      → (stored s' ≡ stored s ++ source s) × (size ≡ from + length (source s))
  round-Contents s s1 s' got from size kept given (rest, sizes) = (
    rest
        ∙ ap (λ x. x ++ source s1) kept
        ∙ append_assoc (stored s) got (source s1)
        ∙ ap (◌++◌ (stored s)) (sym given),
    omega (arith, sizes, ap length given, length-append got (source s1)),
  )

  -- The last round, behind which nothing is left to read.
  last-Contents :
      (s1 s' : S) (from size : ℕ)
      → source s1 ≡ []
      → stored s' ≡ stored s1
      → from ≡ size
      → (stored s' ≡ stored s1 ++ source s1) × (size ≡ from + length (source s1))
  last-Contents s1 s' from size nothing same sizes = (
    same ∙ sym (append-nil (stored s1)) ∙ ap (◌++◌ (stored s1)) (sym nothing),
    omega (arith, sizes, ap length nothing),
  )

  -- The round of a read that did not fail and whose chunk was stored.
  read-Contents :
      (s s' : S) (r : EntryLimits) (from size : ℕ)
      → let s1 = (w.check_context s).0 in
        let read = entry_read w s1 r buffer_size in
        let chunk = store_chunk w read.0.0 read.1 in
        Reads w source stored streams s1 read
        → chunk.1 ≡ none
        → (stored s' ≡ stored chunk.0 ++ source chunk.0)
          × (size ≡ from + length read.1 + length (source chunk.0))
        → (stored s' ≡ stored s ++ source s) × (size ≡ from + length (source s))
  read-Contents s s' r from size reads kept rest =
      let s1 = (w.check_context s).0 in
      let read = entry_read w s1 r buffer_size in
      let chunk = store_chunk w read.0.0 read.1 in
      let (stored_more, source_same) =
        store_chunk-stored w source stored streams read.0.0 read.1 kept in
      round-Contents s chunk.0 s' read.1 from size
        (stored_more ∙ ap (λ x. x ++ read.1) (reads.kept ∙ streams.context_stored s))
        (sym (streams.context_source s) ∙ reads.from ∙ ap (◌++◌ read.1) (sym source_same)) rest

  copy_entry-from :
      (fuel : ℕ) (s : S) (r : EntryLimits) (from : ℕ) (s' : S) (r' : EntryLimits) (size : ℕ)
      → copy_entry w fuel s r from ≡ some ((s', r'), ok size)
      → (stored s' ≡ stored s ++ source s) × (size ≡ from + length (source s))
  unfolding copy_entry
  copy_entry-from zero s r from s' r' size h = cc
  copy_entry-from (suc fuel) s r from s' r' size h =
      let s1 = (w.check_context s).0 in
      let read = entry_read w s1 r buffer_size in
      let chunk = store_chunk w read.0.0 read.1 in
      let is_read = entry_read-IsRead w source stored streams s1 r buffer_size in
      elim (Option-cases (w.check_context s).1) [
        | inr (e, done) ↦ absurd (ground (arith, done, h))
        | inl going ↦ elim (Option-cases chunk.1) [
          | inr (e, failed) ↦ absurd (ground (arith, going, failed, h))
          | inl kept ↦ elim (Option-cases read.2) [
            | inl more ↦
                read-Contents s s' r from size
                  (IsRead-Reads w source stored streams s1 read is_read
                    (λ e p. absurd (ground (arith, more, p))))
                  kept
                  (copy_entry-from fuel chunk.0 read.0.1 (from + length read.1) s' r' size
                    (ground (arith, going, kept, more, h)))
            | inr (e, ended) ↦
                let (is_end, same, sizes) =
                  finish_copy-Contents chunk.0 read.0.1 r' e (from + length read.1) s' size
                    (ground (arith, going, kept, ended, h)) in
                let ended' : read.2 ≡ some eof = ended ∙ ap some is_end in
                let reads =
                  IsRead-Reads w source stored streams s1 read is_read
                    (λ f p. some-injective w source stored streams (sym p ∙ ended')) in
                let source_same =
                  (store_chunk-stored w source stored streams read.0.0 read.1 kept).1 in
                read-Contents s s' r from size reads kept (
                  last-Contents chunk.0 s' (from + length read.1) size
                    (source_same ∙ reads.ended ended') same sizes)
          ]
        ]
      ]

  -- What a copy leaves: a success wrote what there was to read.
  pub data IsWritten (s : S) : (S × EntryLimits) × Result Error ℕ → Type 0 where
    written :
        (s' : S) (r' : EntryLimits) (size : ℕ)
        → stored s' ≡ stored s ++ source s
        → size ≡ length (source s)
        → IsWritten s ((s', r'), ok size)
    failed : (s' : S) (r' : EntryLimits) (e : Error) → IsWritten s ((s', r'), err e)

  IsWritten-of :
      (fuel : ℕ) (s : S) (r : EntryLimits) (o : (S × EntryLimits) × Result Error ℕ)
      → copy_entry w fuel s r 0 ≡ some o
      → IsWritten s o
  IsWritten-of fuel s r ((s', r'), ok size) h =
      let (contents, sizes) = copy_entry-from fuel s r 0 s' r' size h in
      written s' r' size contents (omega (arith, sizes))
  IsWritten-of fuel s r ((s', r'), err e) h = failed s' r' e

  -- Over a reader that keeps to its buffer, makes progress and answers with an end of file only at
  -- the end of the entry, the copy loop of an entry ends with fuel above the page's budget; when it
  -- succeeds, the file holds what it held before and behind it all bytes of the entry, and the size
  -- that it reports is their number, so an entry above a budget is never cut short.
  pub copy_entry-IsWritten :
      (reader : IsReader w) (progress : MakesProgress w) (fuel : ℕ) (s : S) (r : EntryLimits)
      → r.page_remaining < fuel
      → (o : (S × EntryLimits) × Result Error ℕ) × (copy_entry w fuel s r 0 ≡ some o)
        × IsWritten s o
  copy_entry-IsWritten reader progress fuel s r enough =
      let (o, copied, budgets) = copy_entry-IsCopied w reader progress fuel s r enough in
      (o, copied, IsWritten-of fuel s r o copied)
