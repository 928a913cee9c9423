-- ===== src/Examples/Zip.antt =====
-- The preflight of an archive with one entry, of which only the directory stands in the bytes.
use bloem_community_crowquil.Prelude.{
  ℕ, zero, suc, ◌≡◌, ◌↔◌, refl, Bytes, [], ◌∷◌, ◌++◌, some, Result, ok, take, drop, ℕ_discrete,
  has_prefix,
}
use bloem_community_crowquil.Archive.Errors.{Error}
use bloem_community_crowquil.Archive.Zip.{
  Eocd, preflight_zip, locate_end, walk, search_tail, find_end, tail_length, end_record, check_eocd,
  check_locator, check_header, check_count, parse_eocd, u16, u32, is_zip64, header_size,
}
use bloem_community_crowquil.Archive.Zip.Preflight.{IsPlain, preflight_zip_iff}

abbrev zeros : ℕ → Bytes
zeros zero = []
zeros (suc n) = 0 ∷ zeros n

abbrev archive : Bytes
archive =
    (80 ∷ 75 ∷ 1 ∷ 2 ∷ [])
    ++ zeros 42
    ++ (80 ∷ 75 ∷ 5 ∷ 6 ∷ 0 ∷ 0 ∷ 0 ∷ 0 ∷ 1 ∷ 0 ∷ 1 ∷ 0 ∷ 46 ∷ [])
    ++ zeros 9

abbrev read_archive : ℕ → ℕ → Result Error Bytes
read_archive offset n = ok (take n (drop offset archive))

archive_accepted : preflight_zip read_archive 10 68 ≡ some (ok tt)
unfolding preflight_zip locate_end walk search_tail find_end tail_length has_prefix ℕ_discrete
    end_record check_eocd check_locator check_header check_count parse_eocd u16 u32 is_zip64
    header_size
archive_accepted = refl

preflight_zip_iff_example :
    (preflight_zip read_archive 10 68 ≡ some (ok tt))
    ↔ ((e : Eocd) × (end_offset : ℕ) × IsPlain read_archive 10 68 e end_offset)
preflight_zip_iff_example = preflight_zip_iff read_archive 10 68
