-- ===== src/Archive/Readers/Copy/Contents.antt =====
-- Lemmas on the bytes that one round of the copy loop of `consumeEntry` of internal/archive/archive.go
-- reads and stores.
use bloem_community_crowquil.Prelude.{
  ℕ, ◌≡◌, ◌≢◌, refl, sym, ap, ◌∙◌, false, Bytes, [], ◌∷◌, ◌++◌, append-nil, Option, none, some,
  length, take, take_all, arith, ltb, ◌==◌, Option-cases, if_cases, ◌⊎◌, ◌||◌, if◌then◌else◌,
  Bool-cases, inl, inr,
}
use bloem_community_crowquil.Archive.Errors.{Error, eof, is_eof, sentinel}
use bloem_community_crowquil.Archive.Readers.{
  World, EntryLimits, entry_read, probe_entry, take_entry, min_of, is_none,
}
use bloem_community_crowquil.Archive.Readers.Copy.{store_chunk, close_with}

-- A world with an entry to read, which is given from its front and whose end is an end of file, and a
-- file to write, which grows at its end; the context fails with its own errors.
pub record Streams {S : Type 0} (w : World S) (source stored : S → Bytes) : Type 0 where
  pub context_source : (s : S) → source (w.check_context s).0 ≡ source s
  pub context_stored : (s : S) → stored (w.check_context s).0 ≡ stored s
  pub context_error : (s : S) → (w.check_context s).1 ≢ some eof
  pub read_source : (s : S) (n : ℕ) → source s ≡ (w.read s n).1 ++ source (w.read s n).0
  pub read_stored : (s : S) (n : ℕ) → stored (w.read s n).0 ≡ stored s
  pub read_end : (s : S) (n : ℕ) → (w.read s n).2 ≡ some eof → source (w.read s n).0 ≡ []
  pub write_source : (s : S) (chunk : Bytes) → source (w.write s chunk).0 ≡ source s
  pub write_stored :
      (s : S) (chunk : Bytes)
      → stored (w.write s chunk).0 ≡ stored s ++ take (w.write s chunk).1 chunk
  pub close_source : (s : S) → source (w.close s).0 ≡ source s
  pub close_stored : (s : S) → stored (w.close s).0 ≡ stored s

module _ {S : Type 0} (w : World S) (source stored : S → Bytes)
    (streams : Streams w source stored) where
  -- What a read through the budgets did, where it did not fail.
  pub record Reads (s : S) (o : (S × EntryLimits) × Bytes × Option Error) : Type 0 where
    pub from : source s ≡ o.1 ++ source o.0.0
    pub kept : stored o.0.0 ≡ stored s
    pub ended : o.2 ≡ some eof → source o.0.0 ≡ []

  abbrev pub IsFailure : Option Error → Type 0
  IsFailure failed = (e : Error) × (failed ≡ some e) × (is_eof e ≡ false)

  abbrev pub IsRead : S → (S × EntryLimits) × Bytes × Option Error → Type 0
  IsRead s o = IsFailure o.2 ⊎ Reads s o

  take_entry-IsRead : (s : S) (r : EntryLimits) (n : ℕ) → IsRead s (take_entry w s r n)
  unfolding take_entry
  take_entry-IsRead s r n = inr (record {
    from = streams.read_source s n;
    kept = streams.read_stored s n;
    ended = streams.read_end s n;
  })

  empty : (s : Bytes) → ltb 0 (length s) ≡ false → s ≡ []
  empty [] h = refl
  empty (c ∷ s) h = absurd (ground (arith, h))

  probe_entry-IsRead : (s : S) (r : EntryLimits) → IsRead s (probe_entry w s r)
  unfolding probe_entry
  probe_entry-IsRead s r =
      if_cases (IsRead s) (ltb 0 (length (w.read s 1).1) || is_none (w.read s 1).2)
        (λ over. inl (sentinel _, refl, refl))
        (λ within.
          let nothing = empty (w.read s 1).1 (ground (arith, within)) in
          inr (record {
            from = streams.read_source s 1 ∙ ap (λ got. got ++ source (w.read s 1).0) nothing;
            kept = streams.read_stored s 1;
            ended = streams.read_end s 1;
          }))

  not_eof : (e : Error) → e ≢ eof → is_eof e ≡ false
  not_eof eof h = absurd (h refl)
  not_eof _ h = refl

  IsRead-from :
      (s s' : S) (o : (S × EntryLimits) × Bytes × Option Error)
      → source s' ≡ source s
      → stored s' ≡ stored s
      → IsRead s' o
      → IsRead s o
  IsRead-from s s' o same same' (inl failed) = inl failed
  IsRead-from s s' o same same' (inr r) =
      inr (record { from = sym same ∙ r.from; kept = r.kept ∙ same'; ended = r.ended })

  pub entry_read-IsRead : (s : S) (r : EntryLimits) (n : ℕ) → IsRead s (entry_read w s r n)
  unfolding entry_read
  entry_read-IsRead s r n = by_context (w.check_context s).1 refl
    where
      s' : S
      s' = (w.check_context s).0

      limit : ℕ
      limit = min_of (min_of n r.page_remaining) r.total_remaining

      by_context :
          (done : Option Error)
          → (w.check_context s).1 ≡ done
          → IsRead s (elim done [
            | some e ↦ ((s', r), [], some e)
            | none ↦
                if n == 0
                then ((s', r), [], none)
                else if limit == 0
                then probe_entry w s' r
                else take_entry w s' r limit
          ])
      by_context (some e) h =
          inl (e, refl, not_eof e (λ p. streams.context_error s (h ∙ ap some p)))
      by_context none h = IsRead-from s s' _ (streams.context_source s) (streams.context_stored s) (
          if_cases (IsRead s') (n == 0)
            (λ nothing. inr (record { from = refl; kept = refl; ended = λ p. cc }))
            (λ something.
              if_cases (IsRead s') (limit == 0) (λ at_end. probe_entry-IsRead s' r)
                (λ left. take_entry-IsRead s' r limit)))

  -- A chunk that was stored without an error is behind what was stored before.
  pub store_chunk-stored :
      (s : S) (got : Bytes)
      → (store_chunk w s got).1 ≡ none
      → (stored (store_chunk w s got).0 ≡ stored s ++ got)
        × (source (store_chunk w s got).0 ≡ source s)
  unfolding store_chunk close_with
  store_chunk-stored s got h =
      let s' = (w.check_context s).0 in
      elim (Bool-cases (length got == 0)) [
        | inl nothing ↦
            let none_got : got ≡ [] = empty got (ground (arith, nothing)) in
            let unchanged : (store_chunk w s got).0 ≡ s = ground (arith, nothing) in
            (
              ap stored unchanged
                  ∙ sym (append-nil (stored s))
                  ∙ ap (◌++◌ (stored s)) (sym none_got),
              ap source unchanged,
            )
        | inr something ↦ elim (Option-cases (w.check_context s).1) [
          | inr (e, done) ↦ absurd (ground (arith, something, done, h))
          | inl going ↦ elim (Option-cases (w.write s' got).2) [
            | inr (e, failed) ↦ absurd (ground (arith, something, going, failed, h))
            | inl written ↦ elim (Bool-cases ((w.write s' got).1 == length got)) [
              | inr short ↦ absurd (ground (arith, something, going, written, short, h))
              | inl whole ↦
                  let changed : (store_chunk w s got).0 ≡ (w.write s' got).0 =
                    ground (arith, something, going, written, whole) in
                  (
                    ap stored changed
                        ∙ streams.write_stored s' got
                        ∙ ap (λ x. x ++ take (w.write s' got).1 got) (streams.context_stored s)
                        ∙ ap (◌++◌ (stored s))
                            (take_all (w.write s' got).1 got (ground (arith, whole))),
                    ap source changed ∙ streams.write_source s' got ∙ streams.context_source s,
                  )
            ]
          ]
        ]
      ]

  pub some-injective : {e f : Error} → some e ≡ some f → e ≡ f
  some-injective h = cc

  eof_fails : is_eof eof ≢ false
  eof_fails h = cc

  -- A read that ends at most with an end of file did not fail.
  pub IsRead-Reads :
      (s : S) (o : (S × EntryLimits) × Bytes × Option Error)
      → IsRead s o
      → ((e : Error) → o.2 ≡ some e → e ≡ eof)
      → Reads s o
  IsRead-Reads s o (inl (e, failed, other)) h =
      absurd (eof_fails (sym (ap is_eof (h e failed)) ∙ other))
  IsRead-Reads s o (inr r) h = r
