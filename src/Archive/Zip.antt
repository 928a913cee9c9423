-- ===== src/Archive/Zip.antt =====
-- `preflightZIP` of internal/archive/zip_preflight.go, which walks the directory of a ZIP archive
-- before the archive library reads it.
pub mod Directory
pub mod End
pub mod Preflight
pub mod Search
use bloem_community_crowquil.Prelude.{
  ℕ, zero, suc, ◌+◌, ◌-◌, ◌*◌, ◌^◌, Bool, true, false, ◌&&◌, ◌||◌, not, Bytes, List, [], ◌∷◌,
  Option, none, some, Result, ok, err, ◌>>=◌, ◌>>◌, reject_if, length, get_elem?, take, drop, codes,
  ltb, ◌==◌, if◌then◌else◌, has_prefix,
}
use bloem_community_crowquil.Archive.Errors.{
  ArchiveError, Error, sentinel, corrupt_archive, unsupported_archive, entry_limit_exceeded,
}

abbrev pub eocd_size : ℕ
eocd_size = 22

abbrev pub header_base : ℕ
header_base = 46

or_zero : Option ℕ → ℕ
or_zero none = 0
or_zero (some b) = b

-- The little-endian numbers at an index, which lies inside the bytes wherever the code reads one.
unfoldable pub u16 : Bytes → ℕ → ℕ
unfolding or_zero
u16 s i = or_zero (get_elem? s i) + 256 * or_zero (get_elem? s (i + 1))

unfoldable pub u32 : Bytes → ℕ → ℕ
u32 s i = u16 s i + 65536 * u16 s (i + 2)

abbrev pub eocd_signature : Bytes
eocd_signature = 80 ∷ 75 ∷ 5 ∷ 6 ∷ []

abbrev pub locator_signature : Bytes
locator_signature = 80 ∷ 75 ∷ 6 ∷ 7 ∷ []

abbrev pub header_signature : Bytes
header_signature = 80 ∷ 75 ∷ 1 ∷ 2 ∷ []

-- The last index, from one on downwards, at which the signature of the end record stands.
unfoldable pub find_end : Bytes → ℕ → Option ℕ
find_end tail zero = if has_prefix tail eocd_signature then some zero else none
find_end tail (suc i) =
    if has_prefix (drop (suc i) tail) eocd_signature then some (suc i) else find_end tail i

-- The fields of the end record.
pub record Eocd : Type 0 where
  pub disk : ℕ
  pub directory_disk : ℕ
  pub disk_count : ℕ
  pub count : ℕ
  pub directory_size : ℕ
  pub directory_offset : ℕ

unfoldable pub parse_eocd : Bytes → Eocd
parse_eocd eocd = record {
  disk = u16 eocd 4;
  directory_disk = u16 eocd 6;
  disk_count = u16 eocd 8;
  count = u16 eocd 10;
  directory_size = u32 eocd 12;
  directory_offset = u32 eocd 16;
}

unfoldable pub is_zip64 : Eocd → Bool
is_zip64 e =
    e.count == 65535
    || e.disk_count == 65535
    || e.directory_size == 4294967295
    || e.directory_offset == 4294967295

unfoldable pub header_size : Bytes → ℕ
header_size header = header_base + u16 header 28 + u16 header 30 + u16 header 32

-- `tail := make([]byte, min(size, zipEOCDSize+65535))`
unfoldable pub tail_length : ℕ → ℕ
tail_length size = if ltb (eocd_size + 65535) size then eocd_size + 65535 else size

-- `read_at offset n` is `ReadAt` into `n` bytes at the offset: the bytes if it filled them.
module _ (read_at : ℕ → ℕ → Result Error Bytes) (max_entries : ℕ) where
  -- The body of the loop over the directory, up to the step: the size of the header.
  unfoldable pub check_header : ℕ → ℕ → ℕ → Result Error ℕ
  check_header end_offset offset actual = do
    reject_if (ltb (end_offset - offset) header_base) (sentinel corrupt_archive)
    header ← read_at offset header_base
    reject_if (not (has_prefix header header_signature)) (sentinel corrupt_archive)
    reject_if (ltb max_entries (actual + 1)) (sentinel entry_limit_exceeded)
    reject_if (not (u16 header 34 == 0)) (sentinel unsupported_archive)
    reject_if (ltb (end_offset - offset) (header_size header)) (sentinel corrupt_archive)
    ok (header_size header)

  -- The loop on fuel: none when the fuel runs out, else the number of headers.
  unfoldable pub walk : ℕ → ℕ → ℕ → ℕ → Option (Result Error ℕ)
  walk zero end_offset offset actual = none
  walk (suc fuel) end_offset offset actual =
      if ltb offset end_offset
      then elim (check_header end_offset offset actual) [
        | err e ↦ some (err e)
        | ok size ↦ walk fuel end_offset (offset + size) (actual + 1)
      ]
      else some (ok actual)

  -- The tests on the end record.
  unfoldable pub check_locator : ℕ → Result Error (Unit {0})
  check_locator end_offset = if ltb end_offset 20 then ok tt else do
    signature ← read_at (end_offset - 20) 4
    reject_if (has_prefix signature locator_signature) (sentinel unsupported_archive)

  unfoldable pub check_eocd : ℕ → Eocd → Result Error (Unit {0})
  check_eocd end_offset e = do
    reject_if (is_zip64 e) (sentinel unsupported_archive)
    check_locator end_offset
    reject_if (not (e.disk == 0) || not (e.directory_disk == 0) || not (e.disk_count == e.count))
        (sentinel unsupported_archive)
    reject_if (ltb max_entries e.count) (sentinel entry_limit_exceeded)
    reject_if
        (ltb end_offset e.directory_offset
          || not (e.directory_size == end_offset - e.directory_offset))
        (sentinel corrupt_archive)

  -- From the bytes of the end record on, up to the walk: the record and its offset.
  unfoldable pub end_record : ℕ → Bytes → Result Error (Eocd × ℕ)
  end_record size eocd = do
    reject_if (not (eocd_size + u16 eocd 20 == length eocd)) (sentinel corrupt_archive)
    check_eocd (size - length eocd) (parse_eocd eocd)
    ok (parse_eocd eocd, size - length eocd)

  unfoldable pub search_tail : ℕ → Bytes → Result Error (Eocd × ℕ)
  search_tail size tail = elim (find_end tail (tail_length size - eocd_size)) [
    | none ↦ err (sentinel corrupt_archive)
    | some last ↦ end_record size (drop last tail)
  ]

  unfoldable pub locate_end : ℕ → Result Error (Eocd × ℕ)
  locate_end size = do
    reject_if (ltb size eocd_size) (sentinel corrupt_archive)
    tail ← read_at (size - tail_length size) (tail_length size)
    search_tail size tail

  unfoldable pub check_count : ℕ → Result Error ℕ → Result Error (Unit {0})
  check_count count walked = do
    actual ← walked
    reject_if (not (actual == count)) (sentinel corrupt_archive)

  unfoldable pub preflight_zip : ℕ → Option (Result Error (Unit {0}))
  preflight_zip size = elim (locate_end size) [
    | err e ↦ some (err e)
    | ok (e, end_offset) ↦
        elim (walk (suc (end_offset - e.directory_offset)) end_offset e.directory_offset 0) [
          | none ↦ none
          | some walked ↦ some (check_count e.count walked)
        ]
  ]
