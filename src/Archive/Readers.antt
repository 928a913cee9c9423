-- ===== src/Archive/Readers.antt =====
-- `archiveLimitReader`, `entryLimitReader` and the copy loop of `consumeEntry` of
-- internal/archive/archive.go, over the streams, files and contexts that they are given.
pub mod Bounds
pub mod Copy
use bloem_community_crowquil.Prelude.{
  ℕ, zero, suc, ◌+◌, ◌-◌, ◌*◌, ◌^◌, ◌≤◌, ◌<◌, ◌≡◌, Bool, true, false, ◌||◌, not, Bytes, List, [],
  ◌∷◌, Option, none, some, Result, ok, err, length, ltb, ◌==◌, if◌then◌else◌,
}
use bloem_community_crowquil.Archive.Errors.{
  Error, sentinel, eof, short_write, archive_too_large, page_too_large, total_bytes_exceeded,
}

-- The world outside: the context's error if it is done, an `io.Reader`, and the temporary file.
pub record World (S : Type 0) : Type 0 where
  pub check_context : S → S × Option Error
  pub read : S → ℕ → S × Bytes × Option Error
  pub write : S → Bytes → S × ℕ × Option Error
  pub close : S → S × Option Error

-- `io.Reader`: a read returns at most the bytes that it was asked for.
pub record IsReader {S : Type 0} (w : World S) : Type 0 where
  pub at_most : (s : S) (n : ℕ) → length (w.read s n).1 ≤ n

-- A reader that also returns no empty read without an error, as `io.Reader` asks of it.
pub record MakesProgress {S : Type 0} (w : World S) : Type 0 where
  pub advances : (s : S) (n : ℕ) → 0 < n → (w.read s n).2 ≡ none → 0 < length (w.read s n).1

-- The budgets begin at positive limits, and a read takes no more than is left, so they are naturals.
pub record EntryLimits : Type 0 where
  pub page_remaining : ℕ
  pub total_remaining : ℕ

abbrev pub is_none {ℓ} : {A : Type ℓ} → Option A → Bool
is_none none = true
is_none (some a) = false

abbrev pub min_of : ℕ → ℕ → ℕ
min_of a b = if ltb b a then b else a

module _ {S : Type 0} (w : World S) where
  -- At the end of the budget one byte more decides between the end of the stream and an excess.
  unfoldable pub probe_entry : S → EntryLimits → (S × EntryLimits) × Bytes × Option Error
  probe_entry s r =
      let (s', got, e) = w.read s 1 in
      if ltb 0 (length got) || is_none e
      then (
        (s', r),
        [],
        some (sentinel (if r.page_remaining == 0 then page_too_large else total_bytes_exceeded)),
      )
      else ((s', r), [], e)

  unfoldable pub take_entry : S → EntryLimits → ℕ → (S × EntryLimits) × Bytes × Option Error
  take_entry s r limit =
      let (s', got, e) = w.read s limit in
      (
        (
          s',
          record {
            page_remaining = r.page_remaining - length got;
            total_remaining = r.total_remaining - length got;
          },
        ),
        got,
        e,
      )

  -- `entryLimitReader.Read` into a buffer of `n` bytes.
  unfoldable pub entry_read : S → EntryLimits → ℕ → (S × EntryLimits) × Bytes × Option Error
  entry_read s r n =
      let (s', done) = w.check_context s in
      elim done [
        | some e ↦ ((s', r), [], some e)
        | none ↦
            if n == 0
            then ((s', r), [], none)
            else let limit = min_of (min_of n r.page_remaining) r.total_remaining in
              if limit == 0 then probe_entry s' r else take_entry s' r limit
      ]

  -- The same two cases of `archiveLimitReader`.
  pub probe_archive : S → ℕ → (S × ℕ) × Bytes × Option Error
  probe_archive s remaining =
      let (s', got, e) = w.read s 1 in
      if ltb 0 (length got) || is_none e
      then ((s', remaining), [], some (sentinel archive_too_large))
      else ((s', remaining), [], e)

  pub take_archive : S → ℕ → ℕ → (S × ℕ) × Bytes × Option Error
  take_archive s remaining limit =
      let (s', got, e) = w.read s limit in ((s', remaining - length got), got, e)

  -- `archiveLimitReader.Read`, whose budget is one number.
  unfoldable pub archive_read : S → ℕ → ℕ → (S × ℕ) × Bytes × Option Error
  archive_read s remaining n =
      let (s', done) = w.check_context s in
      elim done [
        | some e ↦ ((s', remaining), [], some e)
        | none ↦
            if n == 0
            then ((s', remaining), [], none)
            else if remaining == 0
            then probe_archive s' remaining
            else take_archive s' remaining (min_of n remaining)
      ]
