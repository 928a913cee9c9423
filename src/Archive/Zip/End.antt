-- ===== src/Archive/Zip/End.antt =====
-- The end record that `preflightZIP` of internal/archive/zip_preflight.go finds at the end of an
-- archive, described apart from the search.
use mathlib.Core.Path.{subst}
use bloem_community_crowquil.Prelude.{
  ℕ, ◌+◌, ◌-◌, ◌≤◌, ◌<◌, ◌≡◌, inl, inr, false, Bool-cases, Bytes, Option-cases, Result, ok, arith,
  Result-cases, length, drop, has_prefix, ltb,
}
use bloem_community_crowquil.Archive.Errors.{Error}
use bloem_community_crowquil.Archive.Zip.{
  Eocd, eocd_size, locator_signature, u16, locate_end, check_eocd, check_locator, end_record,
  tail_length, search_tail, parse_eocd, is_zip64, find_end,
}
use bloem_community_crowquil.Archive.Zip.Search.{IsLast, find_end-IsLast, find_end_last}

-- A classic end record on one disk, whose directory ends where the record begins.
pub record IsClassic (max_entries : ℕ) (e : Eocd) (end_offset : ℕ) : Type 0 where
  pub few : e.count ≤ max_entries
  pub directory : e.directory_offset + e.directory_size ≡ end_offset
  pub disk : e.disk ≡ 0
  pub directory_disk : e.directory_disk ≡ 0
  pub disk_count : e.disk_count ≡ e.count
  pub small : is_zip64 e ≡ false

module _ (read_at : ℕ → ℕ → Result Error Bytes) (max_entries : ℕ) where
  -- No locator of a ZIP64 end record stands before an offset.
  pub data HasNoLocator (end_offset : ℕ) : Type 0 where
    no_room : end_offset < 20 → HasNoLocator end_offset
    other :
        {signature : Bytes}
        → 20 ≤ end_offset
        → read_at (end_offset - 20) 4 ≡ ok signature
        → has_prefix signature locator_signature ≡ false
        → HasNoLocator end_offset

  -- A classic end record in the bytes from its signature on, whose comment reaches up to the end of
  -- the archive.
  pub record IsRecord (size : ℕ) (eocd : Bytes) (e : Eocd) (end_offset : ℕ) : Type 0 where
    pub comment : eocd_size + u16 eocd 20 ≡ length eocd
    pub fields : parse_eocd eocd ≡ e
    pub offset : size - length eocd ≡ end_offset
    pub locator : HasNoLocator end_offset
    pub classic : IsClassic max_entries e end_offset

  -- The end record stands in the bytes at the end of the archive, at the last place where its
  -- signature does.
  pub record IsEnd (size : ℕ) (e : Eocd) (end_offset : ℕ) : Type 0 where
    pub large : eocd_size ≤ size
    pub tail : Bytes
    pub last : ℕ
    pub read : read_at (size - tail_length size) (tail_length size) ≡ ok tail
    pub is_last : IsLast tail (tail_length size - eocd_size) last
    pub is_record : IsRecord size (drop last tail) e end_offset

  check_locator-HasNoLocator :
      (end_offset : ℕ)
      → check_locator read_at max_entries end_offset ≡ ok tt
      → HasNoLocator end_offset
  unfolding check_locator
  check_locator-HasNoLocator end_offset h = elim (Bool-cases (ltb end_offset 20)) [
    | inl low ↦ no_room (ground (arith, low))
    | inr high ↦ elim (Result-cases (read_at (end_offset - 20) 4)) [
      | inl (x, failed) ↦ absurd (ground (arith, high, failed, h))
      | inr (signature, read) ↦ other (ground (arith, high)) read (ground (arith, high, read, h))
    ]
  ]

  check_locator_ok :
      (end_offset : ℕ)
      → HasNoLocator end_offset
      → check_locator read_at max_entries end_offset ≡ ok tt
  unfolding check_locator
  check_locator_ok end_offset (no_room low) = ground (arith, low)
  check_locator_ok end_offset (other high read differs) = ground (arith, high, read, differs)

  check_eocd_ok :
      (end_offset : ℕ) (e : Eocd)
      → HasNoLocator end_offset
      → IsClassic max_entries e end_offset
      → check_eocd read_at max_entries end_offset e ≡ ok tt
  unfolding check_eocd
  check_eocd_ok end_offset e l c =
      let located = check_locator_ok end_offset l in
      ground (arith, located, c.few, c.directory, c.disk, c.directory_disk, c.disk_count, c.small)

  check_eocd-IsClassic :
      (end_offset : ℕ) (e : Eocd)
      → check_eocd read_at max_entries end_offset e ≡ ok tt
      → HasNoLocator end_offset × IsClassic max_entries e end_offset
  unfolding check_eocd
  check_eocd-IsClassic end_offset e h =
      elim (Result-cases (check_locator read_at max_entries end_offset)) [
        | inl (x, failed) ↦ absurd (ground arith)
        | inr (x, located) ↦ (
          check_locator-HasNoLocator end_offset located,
          record {
            few = ground arith;
            directory = ground arith;
            disk = ground arith;
            directory_disk = ground arith;
            disk_count = ground arith;
            small = ground arith;
          },
        )
      ]

  end_record-IsRecord :
      (size : ℕ) (eocd : Bytes) (e : Eocd) (end_offset : ℕ)
      → end_record read_at max_entries size eocd ≡ ok (e, end_offset)
      → IsRecord size eocd e end_offset
  unfolding end_record
  end_record-IsRecord size eocd e end_offset h =
      elim (Result-cases (check_eocd read_at max_entries (size - length eocd) (parse_eocd eocd))) [
        | inl (x, failed) ↦ absurd (ground arith)
        | inr (x, checked) ↦
            let (located, classic) =
              check_eocd-IsClassic (size - length eocd) (parse_eocd eocd) checked in
            let fields : parse_eocd eocd ≡ e = ground arith in
            let offset : size - length eocd ≡ end_offset = ground arith in
            record {
              comment = ground arith;
              fields = fields;
              offset = offset;
              locator = subst HasNoLocator offset located;
              classic =
                  subst (λ z. IsClassic max_entries z end_offset) fields
                    (subst (IsClassic max_entries (parse_eocd eocd)) offset classic);
            }
      ]

  end_record_ok :
      (size : ℕ) (eocd : Bytes) (e : Eocd) (end_offset : ℕ)
      → IsRecord size eocd e end_offset
      → end_record read_at max_entries size eocd ≡ ok (e, end_offset)
  unfolding end_record
  end_record_ok size eocd e end_offset p =
      let checked = check_eocd_ok end_offset e p.locator p.classic in
      rw (p.fields, p.offset, checked) (ground (arith, p.comment))

  pub locate_end-IsEnd :
      (size : ℕ) (e : Eocd) (end_offset : ℕ)
      → locate_end read_at max_entries size ≡ ok (e, end_offset)
      → IsEnd size e end_offset
  unfolding locate_end search_tail
  locate_end-IsEnd size e end_offset h =
      elim (Result-cases (read_at (size - tail_length size) (tail_length size))) [
        | inl (x, failed) ↦ absurd (ground arith)
        | inr (tail, read) ↦ elim (Option-cases (find_end tail (tail_length size - eocd_size))) [
          | inl nowhere ↦ absurd (ground arith)
          | inr (last, found) ↦ record {
            large = ground arith;
            tail = tail;
            last = last;
            read = read;
            is_last = find_end-IsLast tail (tail_length size - eocd_size) last found;
            is_record = end_record-IsRecord size (drop last tail) e end_offset (ground arith);
          }
        ]
      ]

  pub locate_end_ok :
      (size : ℕ) (e : Eocd) (end_offset : ℕ)
      → IsEnd size e end_offset
      → locate_end read_at max_entries size ≡ ok (e, end_offset)
  unfolding locate_end search_tail
  locate_end_ok size e end_offset p =
      let found = find_end_last p.tail (tail_length size - eocd_size) p.last p.is_last in
      let whole = end_record_ok size (drop p.last p.tail) e end_offset p.is_record in
      ground (arith, p.large, p.read, found, whole)
