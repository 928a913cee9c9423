-- ===== src/Silo/Page/Reads.antt =====
-- A client of `Page` of internal/silo/backend.go that asks for one chunk after the other.
use bloem_community_crowquil.Prelude.{
  ℕ, zero, suc, ◌+◌, ◌-◌, ◌*◌, ◌%◌, ◌^◌, ◌≤◌, ◌<◌, ◌≡◌, refl, Bytes, FilePath, List, [], ◌∷◌, ◌++◌,
  Option, some, Result, ok, ◌>>=◌, length, get_elem?, false, take, drop, take_all, take-append-take,
  length-drop, ltb→lt, sym, arith, ap, ◌∙◌, if_cases, leb, ltb,
}
use bloem_community_crowquil.Prelude.Int.{ℤ, pos, ltb_ℤ}
use bloem_community_crowquil.Silo.Constants.{chunk_bytes}
use bloem_community_crowquil.Silo.Cache.State.{CachedPage}
use bloem_community_crowquil.Silo.Page.{
  PageError, page_at, read_section, chunk_size, serve_chunk, serve_page, to_u64,
}

-- The answers at the first `n` multiples of the chunk size, appended.
unfoldable pub read_chunks :
    (FilePath → Option Bytes) → List CachedPage → ℤ → ℕ → Result PageError Bytes
read_chunks open_file pages index zero = ok []
read_chunks open_file pages index (suc n) = do
  front ← read_chunks open_file pages index n
  chunk ← serve_page open_file pages index (n * chunk_bytes)
  ok (front ++ chunk)

get_elem-lt {ℓ} :
    {A : Type ℓ} (xs : List A) (i : ℕ) {x : A} → get_elem? xs i ≡ some x → i < length xs
get_elem-lt [] i h = cc
get_elem-lt (x ∷ xs) zero h = omega arith
get_elem-lt (x ∷ xs) (suc i) h = omega (arith, get_elem-lt xs i h)

page_at_ok :
    (pages : List CachedPage) (index : ℕ) {page : CachedPage}
    → get_elem? pages index ≡ some page
    → page_at pages (pos index) ≡ ok page
unfolding page_at
page_at_ok pages index h = let inside = get_elem-lt pages index h in ground (arith, h)

nonnegative : (n : ℕ) → ltb_ℤ (pos n) (pos 0) ≡ false
nonnegative n = ground arith

multiple : (n : ℕ) → (n * chunk_bytes) % chunk_bytes ≡ 0
multiple n = omega arith

take-chunk_size :
    (contents : Bytes) (n : ℕ)
    → take (chunk_size (length contents) n) (drop n contents) ≡ take chunk_bytes (drop n contents)
unfolding chunk_size
take-chunk_size contents n =
    if_cases (λ k. take k (drop n contents) ≡ take chunk_bytes (drop n contents))
      (ltb (length contents - n) chunk_bytes)
      (λ b.
        take_all (length contents - n) (drop n contents) (omega (arith, length-drop n contents))
        ∙ sym (
            take_all chunk_bytes (drop n contents)
              (omega (arith, length-drop n contents, ltb→lt (length contents - n) chunk_bytes b))))
      (λ b. refl)

chunk_inside : (size offset : ℕ) → offset < size → offset + chunk_size size offset ≤ size
unfolding chunk_size
chunk_inside size offset inside = ground arith

read_section_ok :
    (contents : Bytes) (offset n : ℕ)
    → offset + n ≤ length contents
    → read_section (some contents) offset n ≡ ok (take n (drop offset contents))
unfolding read_section
read_section_ok contents offset n h = ground arith

small : (n : ℕ) → n < 2 ^ 64 → n % 2 ^ 64 ≡ n
small n h = omega arith

module _ (open_file : FilePath → Option Bytes) (pages : List CachedPage) (index : ℕ)
    (page : CachedPage) (contents : Bytes) (listed : get_elem? pages index ≡ some page)
    (opened : open_file page.file ≡ some contents) (size : page.size ≡ pos (length contents))
    (bounded : length contents < 2 ^ 64) where
  u64_size : to_u64 page.size ≡ length contents
  u64_size = rw size (small (length contents) bounded)

  serve_chunk_ok :
      (offset : ℕ)
      → offset < length contents
      → serve_chunk open_file page offset
        ≡ ok (take (chunk_size (length contents) offset) (drop offset contents))
  unfolding serve_chunk
  serve_chunk_ok offset inside =
      let section =
        read_section_ok contents offset (chunk_size (length contents) offset)
          (chunk_inside (length contents) offset inside) in
      rw (u64_size, opened)
        (if_cases (λ r. r ≡ ok (take (chunk_size (length contents) offset) (drop offset contents)))
          (leb (length contents) offset) (λ b. absurd (ground arith)) (λ b. section))

  serve_page_ok :
      (n : ℕ)
      → n * chunk_bytes < length contents
      → serve_page open_file pages (pos index) (n * chunk_bytes)
        ≡ ok (
            take (chunk_size (length contents) (n * chunk_bytes)) (drop (n * chunk_bytes) contents))
  unfolding serve_page
  serve_page_ok n inside =
      rw (multiple n, nonnegative index, page_at_ok pages index listed)
        (serve_chunk_ok (n * chunk_bytes) inside)

  read_chunks_prefix :
      (n : ℕ)
      → n * chunk_bytes < length contents + chunk_bytes
      → read_chunks open_file pages (pos index) n ≡ ok (take (n * chunk_bytes) contents)
  unfolding read_chunks
  read_chunks_prefix zero h = refl
  read_chunks_prefix (suc n) h =
      rw (read_chunks_prefix n (omega arith), serve_page_ok n (omega arith))
        (ap ok (
          ap (λ z. take (n * chunk_bytes) contents ++ z)
            (take-chunk_size contents (n * chunk_bytes))
          ∙ take-append-take (n * chunk_bytes) chunk_bytes (suc n * chunk_bytes) contents
              (omega arith)))

  -- For a listed page whose file holds as many bytes as the page's size says, fewer than 2^64, the
  -- chunks that are served at the first multiples of the chunk size, up to the one that reaches the
  -- end of the page, are together the bytes of the file.
  pub read_chunks_all :
      (n : ℕ)
      → length contents ≤ n * chunk_bytes
      → n * chunk_bytes < length contents + chunk_bytes
      → read_chunks open_file pages (pos index) n ≡ ok contents
  read_chunks_all n enough no_more =
      read_chunks_prefix n no_more ∙ ap ok (take_all (n * chunk_bytes) contents enough)
