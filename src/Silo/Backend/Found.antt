-- ===== src/Silo/Backend/Found.antt =====
-- The entries whose pages the handlers of internal/silo/backend.go answer from.
use mathlib.Core.Option.{some-injective}
use bloem_community_crowquil.Prelude.Int.{ℤ, pos, negsuc, ltb_ℤ}
use bloem_community_crowquil.Prelude.{
  Result-cases, map, [], ◌∷◌, ok-injective, false, ℕ, ◌≡◌, ap, sym, refl, ◌∙◌, inl, inr, Bytes,
  List, Option, none, some, Result, ok, length, ◌==◌, arith, Option-cases, Bool-cases,
}
use bloem_community_crowquil.Archive.Limits.{Limits}
use bloem_community_crowquil.Silo.Requests.{ApiError, Request}
use bloem_community_crowquil.Silo.Cache.State.{CachedPage, CacheEntry, PageHandle, PageCache}
use bloem_community_crowquil.Silo.Cache.Entries.{find, use_at}
use bloem_community_crowquil.Silo.Cache.Lookup
use bloem_community_crowquil.Silo.Cache.Lookup.Laws.{Hit, lookup-Hit}
use bloem_community_crowquil.Silo.Runtime.{
  Runtime, get_or_start_job, Started, stopped, joined, refused, started,
}
use bloem_community_crowquil.Silo.Page.{page_info, page_at, serve_chunk}
use bloem_community_crowquil.Silo.Page.Chunk.{IsChunk, serve_chunk-IsChunk}
use mathlib.Core.Path.{subst}
use bloem_community_crowquil.Silo.Backend.{
  page_answer, Service, Answer, Waited, wait_for_job, after_wait, entry_pages, with_entry,
  list_answer, or_missing, after_start, prepare_pages, find_pages,
}

module _ {S : Type 0} (service : Service S) where
  -- An answer from the pages of an entry that the cache holds under the key, that is neither retired
  -- nor expired, and whose pages are all intact in the file system.
  pub record IsFound (cache : PageCache) (key : Bytes)
      (answer : S → List CachedPage → Result ApiError Answer) (a : Answer) : Type 0 where
    pub asked : S
    pub handle : PageHandle
    pub hit : Hit (service.files (service.now asked).0) key (service.now asked).1 cache handle
    pub answered : answer (service.now asked).0 hit.entry.pages ≡ ok a

  entry_pages-kept :
      (h : PageHandle) (c : PageCache) (now : ℕ) (entry : CacheEntry)
      → find h.key c.entries ≡ some (use_at now entry)
      → entry_pages h c ≡ entry.pages
  unfolding entry_pages use_at
  entry_pages-kept h c now entry kept = rw (kept, entry_pages, use_at) refl

  pub with_entry-IsFound :
      (s : S) (r : Runtime) (key : Bytes) (answer : S → List CachedPage → Result ApiError Answer)
      (a : Answer)
      → (with_entry service s r key answer).1 ≡ some (ok a)
      → IsFound r.cache key answer a
  unfolding with_entry
  with_entry-IsFound s r key answer a h =
      let at = (service.now s).0 in
      let now = (service.now s).1 in
      let looked = Lookup.lookup (service.files at) key now r.cache in
      elim (Option-cases looked.1) [
        | inl missing ↦ absurd (ground (arith, missing, h))
        | inr (handle, found) ↦
            let hit = lookup-Hit (service.files at) key now r.cache handle found in
            record {
              asked = s;
              handle = handle;
              hit = hit;
              answered =
                  ap (answer at) (sym (entry_pages-kept handle looked.0 now hit.entry hit.kept))
                  ∙ some-injective _ _ (ground (arith, found, h));
            }
      ]

  -- The cache behind the wait for the job of a key.
  abbrev prepared_cache : Limits → Bytes → S × Runtime → PageCache
  prepared_cache limits key (s, r) =
      let (s', now) = service.now s in
      let (r', job) = get_or_start_job (service.files s') limits now key r in
      (service.wait s' r' job).1.cache

  -- The caches in which `Pages` looks for its entry: the one that it starts with; or, where that
  -- gives no entry, the one behind the wait for the job of the key.
  pub data Searched (limits : Limits) (key : Bytes) (r : Runtime) : PageCache → Type 0 where
    at_once : Searched limits key r r.cache
    behind_job :
        (s : S)
        → (with_entry service s r key (list_answer service key)).1 ≡ none
        → Searched limits key r
            (prepared_cache limits key (with_entry service s r key (list_answer service key)).0)

  -- The pages of an entry that was found in one of these caches.
  pub record IsListed (limits : Limits) (key : Bytes) (r : Runtime) (a : Answer) : Type 0 where
    pub cache : PageCache
    pub searched : Searched limits key r cache
    pub found : IsFound cache key (list_answer service key) a
    pub own_key : a.cache_key ≡ key
    pub listed :
        a.pages ≡ map (λ page. record { name = page.name; size = page.size }) found.hit.entry.pages
    pub no_body : a.body ≡ []

  page_info-map :
      (pages : List CachedPage)
      → page_info pages ≡ map (λ page. record { name = page.name; size = page.size }) pages
  unfolding page_info
  page_info-map [] = refl
  page_info-map (page ∷ pages) =
      ap (◌∷◌ (record { name = page.name; size = page.size })) (page_info-map pages)

  found-IsListed :
      (limits : Limits) (key : Bytes) (r : Runtime) (cache : PageCache) (a : Answer)
      → Searched limits key r cache
      → IsFound cache key (list_answer service key) a
      → IsListed limits key r a
  found-IsListed limits key r cache a searched found =
      let same : record { cache_key = key; pages = page_info found.hit.entry.pages; body = [] }
          ≡ a =
        ok-injective {E = ApiError} found.answered in
      record {
        cache = cache;
        searched = searched;
        found = found;
        own_key = ap (λ (b : Answer). b.cache_key) (sym same);
        listed = ap (λ (b : Answer). b.pages) (sym same) ∙ page_info-map found.hit.entry.pages;
        no_body = ap (λ (b : Answer). b.body) (sym same);
      }

  -- A chunk of a page of an entry that the cache holds.
  pub record IsServed (cache : PageCache) (key : Bytes) (index : ℤ) (offset : ℕ) (a : Answer)
      : Type 0 where
    pub found : IsFound cache key (page_answer service key index offset) a
    pub own_key : a.cache_key ≡ key
    pub no_pages : a.pages ≡ []
    pub chunk :
        IsChunk
          (service.read_file (service.now found.asked).0)
          found.hit.entry.pages
          index
          offset
          a.body

  page_answer-IsChunk :
      (key : Bytes) (n offset : ℕ) (s : S) (pages : List CachedPage) (a : Answer)
      → page_answer service key (pos n) offset s pages ≡ ok a
      → (a.cache_key ≡ key)
        × (a.pages ≡ [])
        × IsChunk (service.read_file s) pages (pos n) offset a.body
  unfolding page_answer
  page_answer-IsChunk key n offset s pages a h = elim (Result-cases (page_at pages (pos n))) [
    | inl (e, outside) ↦ absurd (ground (arith, outside, h))
    | inr (page, at) ↦ elim (Result-cases (serve_chunk (service.read_file s) page offset)) [
      | inl (e, failed) ↦ absurd (ground (arith, at, failed, h))
      | inr (body, served) ↦
          let same : record { cache_key = key; pages = []; body = body } ≡ a =
            ok-injective {E = ApiError} (ground (arith, at, served, h)) in
          (
            ap (λ (b : Answer). b.cache_key) (sym same),
            ap (λ (b : Answer). b.pages) (sym same),
            subst (IsChunk (service.read_file s) pages (pos n) offset)
                (ap (λ (b : Answer). b.body) same)
                (serve_chunk-IsChunk (service.read_file s) pages n offset page body at served),
          )
    ]
  ]

  pub found-IsServed :
      (cache : PageCache) (key : Bytes) (index : ℤ) (offset : ℕ) (a : Answer)
      → ltb_ℤ index (pos 0) ≡ false
      → IsFound cache key (page_answer service key index offset) a
      → IsServed cache key index offset a
  found-IsServed cache key (negsuc n) offset a h found = absurd (ground (arith, h))
  found-IsServed cache key (pos n) offset a h found =
      let (own_key, no_pages, chunk) =
        page_answer-IsChunk key n offset (service.now found.asked).0 found.hit.entry.pages a
          found.answered in
      record { found = found; own_key = own_key; no_pages = no_pages; chunk = chunk }

  pub or_missing-some :
      (o : (S × Runtime) × Option (Result ApiError Answer)) (a : Answer)
      → (or_missing service o).1 ≡ ok a
      → o.1 ≡ some (ok a)
  or_missing-some (state, none) a h = absurd (ground arith)
  or_missing-some (state, some answer) a h = ap some h

  after_wait-IsFound :
      (s : S) (r : Runtime) (key : Bytes) (waited : Waited) (a : Answer)
      → (after_wait service s r key waited).1 ≡ ok a
      → IsFound r.cache key (list_answer service key) a
  unfolding after_wait
  after_wait-IsFound s r key waited a h = elim (Option-cases (wait_for_job waited)) [
    | inr (e, failed) ↦ absurd (ground (arith, failed, h))
    | inl done ↦ with_entry-IsFound s r key (list_answer service key) a (
        or_missing-some (with_entry service s r key (list_answer service key)) a
          (ground (arith, done, h)))
  ]

  after_start-IsFound :
      (s : S) (r : Runtime) (key : Bytes) (job : Started) (a : Answer)
      → (after_start service s r key job).1 ≡ ok a
      → IsFound (service.wait s r job).1.cache key (list_answer service key) a
  unfolding after_start
  after_start-IsFound s r key (refused e) a h = absurd (ground arith)
  after_start-IsFound s r key stopped a h = after_wait-IsFound _ _ key _ a h
  after_start-IsFound s r key (joined j) a h = after_wait-IsFound _ _ key _ a h
  after_start-IsFound s r key (started j reservation) a h = after_wait-IsFound _ _ key _ a h

  prepare_pages-IsFound :
      (limits : Limits) (s : S) (r : Runtime) (key : Bytes) (a : Answer)
      → (prepare_pages service limits s r key).1 ≡ ok a
      → IsFound (prepared_cache limits key (s, r)) key (list_answer service key) a
  unfolding prepare_pages
  prepare_pages-IsFound limits s r key a h = after_start-IsFound _ _ key _ a h

  pub find_pages-IsListed :
      (limits : Limits) (s : S) (r : Runtime) (req : Request) (key : Bytes) (a : Answer)
      → (find_pages service limits s r req key).1 ≡ ok a
      → IsListed limits key r a
  unfolding find_pages
  find_pages-IsListed limits s r req key a h =
      let o = with_entry service s r key (list_answer service key) in
      elim (Option-cases o.1) [
        | inr (answer, there) ↦ found-IsListed limits key r r.cache a at_once (
            with_entry-IsFound s r key (list_answer service key) a
              (there ∙ ap some (ground (arith, there, h))))
        | inl missing ↦ elim (Bool-cases (length req.cache_key == 0)) [
          | inr given ↦ absurd (ground (arith, missing, given, h))
          | inl empty ↦
              found-IsListed limits key r (prepared_cache limits key o.0) a (behind_job s missing)
                (prepare_pages-IsFound limits o.0.0 o.0.1 key a (ground (arith, missing, empty, h)))
        ]
      ]
