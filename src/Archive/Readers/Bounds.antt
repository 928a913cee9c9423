-- ===== src/Archive/Readers/Bounds.antt =====
-- Lemmas on the budgets of the limited readers of internal/archive/archive.go.
use bloem_community_crowquil.Prelude.{ℕ, ◌+◌, ◌≤◌, ◌≡◌, Bytes, Option, length, arith}
use bloem_community_crowquil.Archive.Errors.{Error}
use bloem_community_crowquil.Archive.Readers.{
  World, IsReader, EntryLimits, probe_entry, take_entry, entry_read, archive_read, min_of,
  probe_archive, take_archive,
}

-- What a read did with the budgets of an entry.
pub record IsExact {S : Type 0} (r : EntryLimits) (n : ℕ)
    (o : (S × EntryLimits) × Bytes × Option Error) : Type 0 where
  pub page : o.0.1.page_remaining + length o.1 ≡ r.page_remaining
  pub total : o.0.1.total_remaining + length o.1 ≡ r.total_remaining
  pub fits : length o.1 ≤ n

module _ {S : Type 0} (w : World S) (reader : IsReader w) where
  probe_entry-IsExact : (s : S) (r : EntryLimits) (n : ℕ) → IsExact r n (probe_entry w s r)
  unfolding probe_entry
  probe_entry-IsExact s r n = ground arith

  take_entry-IsExact :
      (s : S) (r : EntryLimits) (n : ℕ)
      → IsExact r n (take_entry w s r (min_of (min_of n r.page_remaining) r.total_remaining))
  unfolding take_entry
  take_entry-IsExact s r n =
      let at_most = reader.at_most s (min_of (min_of n r.page_remaining) r.total_remaining) in
      ground arith

  -- A read through the entry's limits takes exactly the bytes that it returns from the page's
  -- budget and from the total budget, and returns no more than the buffer holds, over a reader that
  -- keeps to its buffer.
  pub entry_read-IsExact : (s : S) (r : EntryLimits) (n : ℕ) → IsExact r n (entry_read w s r n)
  unfolding entry_read
  entry_read-IsExact s r n =
      let probe = probe_entry-IsExact (w.check_context s).0 r n in
      let take = take_entry-IsExact (w.check_context s).0 r n in ground arith

  -- The same for `archiveLimitReader`.
  archive_probe_exact :
      (s : S) (remaining n : ℕ)
      → let o = probe_archive w s remaining in (o.0.1 + length o.1 ≡ remaining) × (length o.1 ≤ n)
  unfolding probe_archive
  archive_probe_exact s remaining n = ground arith

  archive_take_exact :
      (s : S) (remaining n : ℕ)
      → let o = take_archive w s remaining (min_of n remaining) in
        (o.0.1 + length o.1 ≡ remaining) × (length o.1 ≤ n)
  unfolding take_archive
  archive_take_exact s remaining n =
      let at_most = reader.at_most s (min_of n remaining) in ground arith

  -- A read through the archive's limit takes exactly the bytes that it returns from the budget, and
  -- returns no more than the buffer holds, over a reader that keeps to its buffer.
  pub archive_read_exact :
      (s : S) (remaining n : ℕ)
      → let o = archive_read w s remaining n in (o.0.1 + length o.1 ≡ remaining) × (length o.1 ≤ n)
  unfolding archive_read
  archive_read_exact s remaining n =
      let probe = archive_probe_exact (w.check_context s).0 remaining n in
      let take = archive_take_exact (w.check_context s).0 remaining n in ground arith
