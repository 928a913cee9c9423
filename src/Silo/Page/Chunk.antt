-- ===== src/Silo/Page/Chunk.antt =====
-- What the chunk of a page that `Page` of internal/silo/backend.go serves is.
use bloem_community_crowquil.Prelude.{
  ℕ, ◌+◌, ◌≤◌, ◌<◌, ◌≡◌, ◌⊎◌, inl, inr, refl, sym, Bytes, FilePath, List, Option, none, some, ok,
  ok-injective, length, get_elem?, take, drop, arith, leb, ltb, Bool-cases,
}
use bloem_community_crowquil.Prelude.Int.{ℤ, pos}
use bloem_community_crowquil.Silo.Constants.{chunk_bytes}
use bloem_community_crowquil.Silo.Cache.State.{CachedPage}
use bloem_community_crowquil.Silo.Page.{
  PageError, to_u64, page_at, read_section, chunk_size, serve_chunk,
}

-- The bytes from an offset on of the file of the page with the index: a whole chunk, or up to the end
-- of the page.
pub record IsChunk (open_file : FilePath → Option Bytes) (pages : List CachedPage) (index : ℤ)
    (offset : ℕ) (body : Bytes) : Type 0 where
  pub number : ℕ
  pub page : CachedPage
  pub contents : Bytes
  pub size : ℕ
  pub same : index ≡ pos number
  pub listed : get_elem? pages number ≡ some page
  pub opened : open_file page.file ≡ some contents
  pub full : (size ≡ chunk_bytes) ⊎ (offset + size ≡ to_u64 page.size)
  pub small : size ≤ chunk_bytes
  pub within : offset + size ≤ to_u64 page.size
  pub nonempty : offset < to_u64 page.size
  pub there : offset + size ≤ length contents
  pub bytes : body ≡ take size (drop offset contents)

page_at-listed :
    (pages : List CachedPage) (n : ℕ) (page : CachedPage)
    → page_at pages (pos n) ≡ ok page
    → get_elem? pages n ≡ some page
unfolding page_at
page_at-listed pages n page h = ground (arith, h)

chunk_size-full :
    (size offset : ℕ)
    → offset < size
    → ((chunk_size size offset ≡ chunk_bytes) ⊎ (offset + chunk_size size offset ≡ size))
      × (chunk_size size offset ≤ chunk_bytes)
      × (offset + chunk_size size offset ≤ size)
unfolding chunk_size
chunk_size-full size offset inside = elim (Bool-cases (leb (offset + chunk_bytes) size)) [
  | inl whole ↦ (inl (ground (arith, whole)), ground (arith, whole), ground (arith, whole))
  | inr rest ↦
      (inr (ground (arith, rest, inside)), ground (arith, rest), ground (arith, rest, inside))
]

read_section-bytes :
    (contents : Option Bytes) (offset n : ℕ) (body : Bytes)
    → read_section contents offset n ≡ ok body
    → (c : Bytes) × (contents ≡ some c) × (offset + n ≤ length c) × (body ≡ take n (drop offset c))
unfolding read_section
read_section-bytes none offset n body h = absurd (ground (arith, h))
read_section-bytes (some c) offset n body h = elim (Bool-cases (ltb (length c) (offset + n))) [
  | inl short ↦ absurd (ground (arith, short, h))
  | inr long ↦
      (c, refl, ground (arith, long), sym (ok-injective {E = PageError} (ground (arith, long, h))))
]

pub serve_chunk-IsChunk :
    (open_file : FilePath → Option Bytes) (pages : List CachedPage) (n offset : ℕ)
    (page : CachedPage) (body : Bytes)
    → page_at pages (pos n) ≡ ok page
    → serve_chunk open_file page offset ≡ ok body
    → IsChunk open_file pages (pos n) offset body
unfolding serve_chunk
serve_chunk-IsChunk open_file pages n offset page body at h =
    elim (Bool-cases (leb (to_u64 page.size) offset)) [
      | inl outside ↦ absurd (ground (arith, outside, h))
      | inr inside ↦
          let size = chunk_size (to_u64 page.size) offset in
          let below : offset < to_u64 page.size = ground (arith, inside) in
          let (full, small, within) = chunk_size-full (to_u64 page.size) offset below in
          let (contents, opened, there, bytes) =
            read_section-bytes (open_file page.file) offset size body (ground (arith, inside, h)) in
          record {
            number = n;
            page = page;
            contents = contents;
            size = size;
            same = refl;
            listed = page_at-listed pages n page at;
            opened = opened;
            full = full;
            small = small;
            within = within;
            nonempty = below;
            there = there;
            bytes = bytes;
          }
    ]
