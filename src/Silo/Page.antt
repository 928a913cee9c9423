-- ===== src/Silo/Page.antt =====
-- The part of `Page` of internal/silo/backend.go that serves a chunk of a page of a looked-up entry.
pub mod Reads
pub mod Chunk
use bloem_community_crowquil.Prelude.{
  ℕ, zero, suc, ◌+◌, ◌-◌, ◌*◌, ◌%◌, ◌^◌, ◌||◌, not, Bytes, FilePath, List, [], ◌∷◌, Option, none,
  some, Result, ok, err, ◌>>=◌, ◌>>◌, reject_if, length, get_elem?, take, drop, ltb, leb, ◌==◌,
  if◌then◌else◌,
}
use bloem_community_crowquil.Prelude.Int.{ℤ, pos, negsuc, pos_part, ltb_ℤ, leb_ℤ}
use bloem_community_crowquil.Silo.Constants.{chunk_bytes}
use bloem_community_crowquil.Silo.Cache.State.{CachedPage}

pub data PageError : Type 0 where
  invalid_offset cache_missing : PageError

-- `uint64(x)`
abbrev pub to_u64 : ℤ → ℕ
to_u64 (pos n) = n % 2 ^ 64
to_u64 (negsuc n) = 2 ^ 64 - 1 - n % 2 ^ 64

-- `handle.entry.pages[index]`, for an index inside the list.
unfoldable pub page_at : List CachedPage → ℤ → Result PageError CachedPage
page_at pages index =
    if leb_ℤ (pos (length pages)) index
    then err invalid_offset
    else elim (get_elem? pages (pos_part index)) [ none ↦ err invalid_offset | some page ↦ ok page ]

-- `io.ReadFull` of a section of a file, which has the bytes or is none if it cannot be opened.
unfoldable pub read_section : Option Bytes → ℕ → ℕ → Result PageError Bytes
read_section none offset n = err cache_missing
read_section (some contents) offset n =
    if ltb (length contents) (offset + n)
    then err cache_missing
    else ok (take n (drop offset contents))

unfoldable pub chunk_size : ℕ → ℕ → ℕ
chunk_size size offset = if ltb (size - offset) chunk_bytes then size - offset else chunk_bytes

unfoldable pub serve_chunk : (FilePath → Option Bytes) → CachedPage → ℕ → Result PageError Bytes
serve_chunk open_file page offset =
    if leb (to_u64 page.size) offset
    then err invalid_offset
    else read_section (open_file page.file) offset (chunk_size (to_u64 page.size) offset)

unfoldable pub serve_page :
    (FilePath → Option Bytes) → List CachedPage → ℤ → ℕ → Result PageError Bytes
serve_page open_file pages index offset = do
  reject_if (ltb_ℤ index (pos 0) || not (offset % chunk_bytes == 0)) invalid_offset
  page ← page_at pages index
  serve_chunk open_file page offset

pub record PageInfo : Type 0 where
  pub name : Bytes
  pub size : ℤ

-- `pageInfo`
unfoldable pub page_info : List CachedPage → List PageInfo
page_info [] = []
page_info (page ∷ pages) = record { name = page.name; size = page.size } ∷ page_info pages
