-- ===== src/Archive/Readers/Copy/Termination.antt =====
-- Lemmas on the copy loop of `consumeEntry` of internal/archive/archive.go.
use bloem_community_crowquil.Prelude.{
  ℕ, zero, suc, ◌+◌, ◌<◌, ◌≡◌, none, some, ◌≢◌, ◌⊎◌, inl, inr, Option-cases, Result, ok, err,
  length, arith,
}
use bloem_community_crowquil.Archive.Errors.{Error}
use bloem_community_crowquil.Archive.Readers.{
  World, IsReader, MakesProgress, EntryLimits, entry_read, probe_entry, take_entry, min_of,
}
use bloem_community_crowquil.Archive.Readers.Bounds.{entry_read-IsExact}
use bloem_community_crowquil.Archive.Readers.Copy.{
  buffer_size, store_chunk, finish_copy, copy_entry,
}

-- What a copy left of the budgets: a success took its size from both.
pub data IsCopied {S : Type 0} (r : EntryLimits) : (S × EntryLimits) × Result Error ℕ → Type 0 where
  copied :
      (s' : S) (r' : EntryLimits) (size : ℕ)
      → r'.page_remaining + size ≡ r.page_remaining
      → r'.total_remaining + size ≡ r.total_remaining
      → IsCopied r ((s', r'), ok size)
  failed : (s' : S) (r' : EntryLimits) (e : Error) → IsCopied r ((s', r'), err e)

module _ {S : Type 0} (w : World S) where
  probe_entry-ends : (s : S) (r : EntryLimits) → (probe_entry w s r).2 ≡ none → ⊥
  unfolding probe_entry
  probe_entry-ends s r h = ground arith

  module _ (reader : IsReader w) (progress : MakesProgress w) where
    take_entry-advances :
        (s : S) (r : EntryLimits) (limit : ℕ)
        → 0 < limit
        → (take_entry w s r limit).2 ≡ none
        → 0 < length (take_entry w s r limit).1
    unfolding take_entry
    take_entry-advances s r limit some_left h = progress.advances s limit some_left h

    -- A read that does not end the loop returns something.
    entry_read-advances :
        (s : S) (r : EntryLimits) (n : ℕ)
        → 0 < n
        → (entry_read w s r n).2 ≡ none
        → 0 < length (entry_read w s r n).1
    unfolding entry_read
    entry_read-advances s r n positive h =
        let ends = probe_entry-ends (w.check_context s).0 r in
        let advances =
          take_entry-advances (w.check_context s).0 r
            (min_of (min_of n r.page_remaining) r.total_remaining) in
        ground arith

    copy_entry-ends :
        (fuel : ℕ) (s : S) (r : EntryLimits) (from : ℕ)
        → r.page_remaining < fuel
        → copy_entry w fuel s r from ≢ none
    unfolding copy_entry
    copy_entry-ends zero s r from enough h = omega arith
    copy_entry-ends (suc fuel) s r from enough h =
        let s' = (w.check_context s).0 in
        let exact = entry_read-IsExact w reader s' r buffer_size in
        let advances = entry_read-advances s' r buffer_size (omega arith) in
        let rest =
          copy_entry-ends fuel
            (store_chunk w (entry_read w s' r buffer_size).0.0 (entry_read w s' r buffer_size).1).0
            (entry_read w s' r buffer_size).0.1 (from + length (entry_read w s' r buffer_size).1) in
        ground arith

  module _ (reader : IsReader w) where
    pub copy_entry-exact :
        (fuel : ℕ) (s : S) (r : EntryLimits) (from : ℕ) (s' : S) (r' : EntryLimits) (size : ℕ)
        → copy_entry w fuel s r from ≡ some ((s', r'), ok size)
        → (r'.page_remaining + size ≡ r.page_remaining + from)
          × (r'.total_remaining + size ≡ r.total_remaining + from)
    unfolding copy_entry finish_copy
    copy_entry-exact zero s r from s' r' size h = ground arith
    copy_entry-exact (suc fuel) s r from s' r' size h =
        let s1 = (w.check_context s).0 in
        let exact = entry_read-IsExact w reader s1 r buffer_size in
        let read = entry_read w s1 r buffer_size in
        let stored = store_chunk w read.0.0 read.1 in
        let rest = copy_entry-exact fuel stored.0 read.0.1 (from + length read.1) s' r' size in
        ground arith

    IsCopied-of :
        (fuel : ℕ) (s : S) (r : EntryLimits) (o : (S × EntryLimits) × Result Error ℕ)
        → copy_entry w fuel s r 0 ≡ some o
        → IsCopied r o
    IsCopied-of fuel s r ((s', r'), ok size) h =
        let (page, total) = copy_entry-exact fuel s r 0 s' r' size h in
        copied s' r' size (omega arith) (omega arith)
    IsCopied-of fuel s r ((s', r'), err e) h = failed s' r' e

  -- Over a reader that keeps to its buffer and makes progress, the copy loop of an entry ends with
  -- fuel above the page's budget; when it succeeds, the size it reports is what it took from the
  -- page's budget and from the total budget.
  pub copy_entry-IsCopied :
      (reader : IsReader w) (progress : MakesProgress w) (fuel : ℕ) (s : S) (r : EntryLimits)
      → r.page_remaining < fuel
      → (o : (S × EntryLimits) × Result Error ℕ) × (copy_entry w fuel s r 0 ≡ some o) × IsCopied r o
  copy_entry-IsCopied reader progress fuel s r enough =
      by_cases (Option-cases (copy_entry w fuel s r 0))
    where
      by_cases :
          (copy_entry w fuel s r 0 ≡ none)
            ⊎ ((o : (S × EntryLimits) × Result Error ℕ) × (copy_entry w fuel s r 0 ≡ some o))
          → (o : (S × EntryLimits) × Result Error ℕ) × (copy_entry w fuel s r 0 ≡ some o)
            × IsCopied r o
      by_cases (inl h) = absurd (copy_entry-ends reader progress fuel s r 0 enough h)
      by_cases (inr (o, h)) = (o, h, IsCopied-of reader fuel s r o h)
