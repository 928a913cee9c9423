-- ===== src/Archive/Zip/Directory.antt =====
-- What the walk over the directory accepts: headers that follow each other up to the end record.
use bloem_community_crowquil.Prelude.{
  ℕ, zero, suc, ◌+◌, ◌-◌, ◌≤◌, ◌<◌, ◌≡◌, ◌≢◌, true, Bytes, none, some, inl, inr, Result, ok, arith,
  has_prefix, dec_lt, Result-cases,
}
use bloem_community_crowquil.Archive.Errors.{Error}
use bloem_community_crowquil.Archive.Zip.{
  header_base, header_signature, header_size, u16, check_header, walk,
}

module _ (read_at : ℕ → ℕ → Result Error Bytes) where
  -- A header at an offset, for which its size is right.
  pub record IsHeader (end_offset offset : ℕ) (header : Bytes) : Type 0 where
    pub read : read_at offset header_base ≡ ok header
    pub signature : has_prefix header header_signature ≡ true
    pub one_disk : u16 header 34 ≡ 0
    pub within : offset + header_size header ≤ end_offset

  -- As many headers as the second index says, the first at the offset and the last up to the end.
  pub data IsDirectory (end_offset : ℕ) : ℕ → ℕ → Type 0 where
    finished : {offset : ℕ} → offset ≡ end_offset → IsDirectory end_offset offset 0
    one_more :
        {offset n : ℕ} (header : Bytes)
        → IsHeader end_offset offset header
        → IsDirectory end_offset (offset + header_size header) n
        → IsDirectory end_offset offset (suc n)

  header_size-positive : (header : Bytes) → 0 < header_size header
  unfolding header_size
  header_size-positive header = omega arith

  module _ (max_entries : ℕ) where
    check_header-IsHeader :
        (end_offset offset actual size : ℕ)
        → check_header read_at max_entries end_offset offset actual ≡ ok size
        → (header : Bytes) × IsHeader end_offset offset header
          × (size ≡ header_size header)
          × (actual + 1 ≤ max_entries)
    unfolding check_header
    check_header-IsHeader end_offset offset actual size h =
        elim (Result-cases (read_at offset header_base)) [
          | inl (e, failed) ↦ absurd (ground arith)
          | inr (header, read) ↦ (
            header,
            record {
              read = read;
              signature = ground arith;
              one_disk = ground arith;
              within = ground (arith, header_size-positive header);
            },
            ground arith,
            ground arith,
          )
        ]

    check_header_ok :
        (end_offset offset actual : ℕ) (header : Bytes)
        → IsHeader end_offset offset header
        → actual + 1 ≤ max_entries
        → check_header read_at max_entries end_offset offset actual ≡ ok (header_size header)
    unfolding check_header header_size
    check_header_ok end_offset offset actual header h few = let r = h.read in ground arith

    -- The loop ends: every header takes some of what is left of the directory.
    pub walk-ends :
        (fuel end_offset offset actual : ℕ)
        → end_offset - offset < fuel
        → walk read_at max_entries fuel end_offset offset actual ≢ none
    unfolding walk
    walk-ends zero end_offset offset actual enough h = omega arith
    walk-ends (suc fuel) end_offset offset actual enough h =
        elim (Result-cases (check_header read_at max_entries end_offset offset actual)) [
          | inl (e, failed) ↦ ground arith
          | inr (size, checked) ↦
              let (header, is_header, same, few) =
                check_header-IsHeader end_offset offset actual size checked in
              let positive : 0 < size = omega (arith, same, header_size-positive header) in
              let rest = walk-ends fuel end_offset (offset + size) (actual + 1) in ground arith
        ]

    pub walk-IsDirectory :
        (fuel end_offset offset actual count : ℕ)
        → offset ≤ end_offset
        → actual ≤ max_entries
        → walk read_at max_entries fuel end_offset offset actual ≡ some (ok count)
        → (n : ℕ) × IsDirectory end_offset offset n × (actual + n ≡ count) × (count ≤ max_entries)
    unfolding walk
    walk-IsDirectory zero end_offset offset actual count below few h = absurd (ground arith)
    walk-IsDirectory (suc fuel) end_offset offset actual count below few h =
        elim (dec_lt offset end_offset) [
          | no q ↦ (0, finished (omega arith), ground arith, ground arith)
          | yes q ↦
              elim (Result-cases (check_header read_at max_entries end_offset offset actual)) [
                | inl (e, failed) ↦ absurd (ground arith)
                | inr (size, checked) ↦
                    let (header, is_header, same, few') =
                      check_header-IsHeader end_offset offset actual size checked in
                    let h' : walk read_at max_entries fuel end_offset (offset + header_size header)
                          (actual + 1)
                        ≡ some (ok count) =
                      ground (arith, same) in
                    let (n, rest, sum, bound) =
                      walk-IsDirectory fuel end_offset (offset + header_size header) (actual + 1)
                        count is_header.within few' h' in
                    (suc n, one_more header is_header rest, omega (arith, sum), bound)
              ]
        ]

    pub walk_ok :
        (fuel end_offset offset actual n : ℕ)
        → IsDirectory end_offset offset n
        → actual + n ≤ max_entries
        → end_offset - offset < fuel
        → walk read_at max_entries fuel end_offset offset actual ≡ some (ok (actual + n))
    unfolding walk
    walk_ok zero end_offset offset actual n d few enough = absurd (omega arith)
    walk_ok (suc fuel) end_offset offset actual zero (finished same) few enough = ground arith
    walk_ok (suc fuel) end_offset offset actual (suc n) (one_more header h rest) few enough =
        let checked = check_header_ok end_offset offset actual header h (omega arith) in
        let positive = header_size-positive header in
        let within = h.within in
        let later =
          walk_ok fuel end_offset (offset + header_size header) (actual + 1) n rest (omega arith)
            (omega arith) in
        ground arith
