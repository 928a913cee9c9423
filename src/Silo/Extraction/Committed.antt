-- ===== src/Silo/Extraction/Committed.antt =====
-- What `extractJob` of internal/silo/backend.go publishes from the extractor on.
use bloem_community_crowquil.Prelude.{
  ◌≡◌, inl, inr, true, false, FilePath, List, [], ◌∷◌, Option, none, some, ok, length, ◌==◌, arith,
  Result-cases, Bool-cases, All,
}
use bloem_community_crowquil.Prelude.Int.{not_ltb_ℤ→≤ℤ, int_laws, ◌+ℤ◌, ◌-ℤ◌, ℤ, pos, ltb_ℤ, ◌≤ℤ◌}
use bloem_community_crowquil.Archive.Limits.{Limits}
use bloem_community_crowquil.Silo.Client.{Http, Texts, UpstreamClient}
use bloem_community_crowquil.Silo.Authorize.{AuthorizedRequest}
use bloem_community_crowquil.Silo.Cache.State.{CacheEntry}
use bloem_community_crowquil.Silo.Cache.Commit.{ReportedPage}
use bloem_community_crowquil.Silo.Cache.Entries.{find}
use bloem_community_crowquil.Silo.Cache.Commit
use bloem_community_crowquil.Silo.Cache.Commit.Stored.{AreMoved}
use bloem_community_crowquil.Silo.Cache.Commit.Publish.{commit-IsStored}
use bloem_community_crowquil.Silo.Requests.{ApiError}
use bloem_community_crowquil.Silo.Extraction.{
  JobSystem, Job, validator_fingerprint, pages_fit, publish_pages, extract_file,
}

unfoldable pub sizes_of : List ReportedPage → ℤ
sizes_of [] = pos 0
sizes_of (page ∷ pages) = page.size +ℤ sizes_of pages

-- Every page is nonempty and within a page's limit, and together they are within the limit of all.
pub record AreBounded (limits : Limits) (pages : List ReportedPage) : Type 0 where
  pub each : All (λ page. (pos 1 ≤ℤ page.size) × (page.size ≤ℤ limits.max_page_bytes)) pages
  pub total : sizes_of pages ≤ℤ limits.max_total_bytes

pages_fit-each :
    (limits : Limits) (total : ℤ) (pages : List ReportedPage)
    → pages_fit limits total pages ≡ true
    → All (λ page. (pos 1 ≤ℤ page.size) × (page.size ≤ℤ limits.max_page_bytes)) pages
unfolding pages_fit
pages_fit-each limits total [] h = tt
pages_fit-each limits total (page ∷ pages) h =
    let rest = pages_fit-each limits (total +ℤ page.size) pages in
    (ground (arith, h), rest (ground (arith, h)))

pages_fit-total :
    (limits : Limits) (total : ℤ) (pages : List ReportedPage)
    → total ≤ℤ limits.max_total_bytes
    → pages_fit limits total pages ≡ true
    → total +ℤ sizes_of pages ≤ℤ limits.max_total_bytes
unfolding pages_fit sizes_of
pages_fit-total limits total [] most h = omega (int_laws, most)
pages_fit-total limits total (page ∷ pages) most h =
    let fits : ltb_ℤ (limits.max_total_bytes -ℤ page.size) total ≡ false = ground (arith, h) in
    let rest =
      pages_fit-total limits (total +ℤ page.size) pages
        (let k = not_ltb_ℤ→≤ℤ (limits.max_total_bytes -ℤ page.size) total fits in
          omega (int_laws, k))
        (ground (arith, h)) in
    omega (int_laws, rest)

module _ {S : Type 0} (http : Http S) (t : Texts) (c : UpstreamClient) (sys : JobSystem S)
    (limits : Limits) where
  -- Pages that the extractor reported and that became the entry under the authorized key.
  pub record IsExtracted (a : AuthorizedRequest) (o : Job S) : Type 0 where
    pub before : S
    pub input : FilePath
    pub output : FilePath
    pub pages : List ReportedPage
    pub extracted : (sys.extractor before input output limits).1 ≡ ok pages
    pub some_pages : (length pages == 0) ≡ false
    pub bounded : AreBounded limits pages
    pub entry : CacheEntry
    pub stored : find a.cache_key o.cache.entries ≡ some entry
    pub entry_pages : AreMoved entry.root pages entry.pages
    pub entry_key : entry.key ≡ a.cache_key

  -- What holds of a part of the job that ends without an error.
  abbrev pub Extracts : AuthorizedRequest → Job S × Option ApiError → Type 0
  Extracts a o = o.1 ≡ none → IsExtracted a o.0

  -- What `publish_pages` leaves where it succeeds.
  record IsCommitted (a : AuthorizedRequest) (pages : List ReportedPage) (o : Job S) : Type 0 where
    some_pages : (length pages == 0) ≡ false
    fit : pages_fit limits (pos 0) pages ≡ true
    entry : CacheEntry
    stored : find a.cache_key o.cache.entries ≡ some entry
    entry_pages : AreMoved entry.root pages entry.pages
    entry_key : entry.key ≡ a.cache_key

  publish_pages-IsCommitted :
      (j : Job S) (a : AuthorizedRequest) (output : FilePath) (pages : List ReportedPage)
      → (publish_pages http t c sys limits j a output pages).1 ≡ none
      → IsCommitted a pages (publish_pages http t c sys limits j a output pages).0
  unfolding publish_pages
  publish_pages-IsCommitted j a output pages h = elim (Bool-cases (length pages == 0)) [
    | inl empty ↦ absurd (ground (arith, empty, h))
    | inr some_pages ↦ elim (Bool-cases (pages_fit limits (pos 0) pages)) [
      | inr large ↦ absurd (ground (arith, some_pages, large, h))
      | inl fit ↦
          let s = (sys.now j.world).0 in
          let now = (sys.now j.world).1 in
          let o =
            Commit.commit (sys.files s) j.cache j.reservation a.cache_key
              (validator_fingerprint a.file) output pages now in
          elim (Result-cases o.2) [
            | inl (e, failed) ↦ absurd (ground (arith, some_pages, fit, failed, h))
            | inr (entry, committed) ↦
                let (d, stored) =
                  commit-IsStored (sys.files s) j.cache j.reservation a.cache_key
                    (validator_fingerprint a.file) output pages now entry committed in
                rw (some_pages, fit, committed, publish_pages)
                  (record {
                    some_pages = some_pages;
                    fit = fit;
                    entry = stored.entry;
                    stored = stored.stored;
                    entry_pages = stored.own_pages;
                    entry_key = stored.own_key;
                  })
          ]
    ]
  ]

  pub extract_file-Extracts :
      (j : Job S) (a : AuthorizedRequest) (input output : FilePath)
      → pos 0 ≤ℤ limits.max_total_bytes
      → Extracts a (extract_file http t c sys limits j a input output)
  unfolding extract_file
  extract_file-Extracts j a input output positive =
      let s1 = (sys.change_mode j.world input).0 in
      elim (Bool-cases (sys.change_mode j.world input).1) [
        | inr failed ↦ rw (failed, extract_file) (λ h. absurd (ground (arith, h)))
        | inl changed ↦ elim (Result-cases (sys.extractor s1 input output limits).1) [
          | inl (e, failed) ↦ rw (changed, failed, extract_file) (λ h. absurd (ground (arith, h)))
          | inr (pages, extracted) ↦
              rw (changed, extracted, extract_file)
                (λ h.
                  let p =
                    publish_pages-IsCommitted
                      (record j { world = (sys.extractor s1 input output limits).0 }) a output pages
                      h in
                  record {
                    before = s1;
                    input = input;
                    output = output;
                    pages = pages;
                    extracted = extracted;
                    some_pages = p.some_pages;
                    bounded = record {
                      each = pages_fit-each limits (pos 0) pages p.fit;
                      total =
                          let k = pages_fit-total limits (pos 0) pages positive p.fit in
                          omega (int_laws, k);
                    };
                    entry = p.entry;
                    stored = p.stored;
                    entry_pages = p.entry_pages;
                    entry_key = p.entry_key;
                  })
        ]
      ]
