-- ===== src/Silo/Extraction/Published.antt =====
-- Lemmas on the jobs that `extractJob` of internal/silo/backend.go ends without an error.
use bloem_community_crowquil.Prelude.{
  ◌≡◌, ◌∙◌, ap, refl, inl, inr, true, false, FilePath, [], ◌∷◌, ◌++◌, Option, none, some, ok, codes,
  arith, Option-cases, Result-cases, Bool-cases, if_cases, bytes_eq_sound,
}
use bloem_community_crowquil.Prelude.Int.{not_ltb_ℤ→≤ℤ, eq_of_parts, ◌+ℤ◌, ℤ, pos, ltb_ℤ, ◌≤ℤ◌}
use bloem_community_crowquil.Archive.Limits.{Limits}
use bloem_community_crowquil.Silo.Jobs.{UpstreamFile}
use bloem_community_crowquil.Silo.Client.{
  Http, Texts, Response, UpstreamClient, UpstreamDownload, download,
}
use bloem_community_crowquil.Silo.Authorize.{AuthorizedRequest}
use bloem_community_crowquil.Silo.Cache.State.{FileSystem, CacheReservation, PageCache}
use bloem_community_crowquil.Silo.Cache.Entries.{find}
use bloem_community_crowquil.Silo.Requests.{ApiError}
use bloem_community_crowquil.Silo.Cache.Evict
use bloem_community_crowquil.Silo.Extraction.{
  JobSystem, Job, source_changed, write_bounded_file, check_source, receive, fetch, run_job,
  finish_job, extract_job,
}
use bloem_community_crowquil.Silo.Extraction.Committed.{IsExtracted, extract_file-Extracts}

-- The bytes written are as many as both announcements say, and the validators are those authorized.
pub record IsSource (file : UpstreamFile) (d : UpstreamDownload) (actual : ℤ) : Type 0 where
  pub size : pos 0 ≤ℤ file.size → actual ≡ file.size
  pub download_size : pos 0 ≤ℤ d.size → actual ≡ d.size
  pub etag : d.etag ≡ file.etag
  pub last_modified : d.last_modified ≡ file.last_modified

source_changed-IsSource :
    (file : UpstreamFile) (d : UpstreamDownload) (actual : ℤ)
    → source_changed file d actual ≡ false
    → IsSource file d actual
unfolding source_changed
source_changed-IsSource file d actual h = record {
  size = λ p. eq_of_parts actual file.size (ground (arith, h, p));
  download_size = λ p. eq_of_parts actual d.size (ground (arith, h, p));
  etag = bytes_eq_sound d.etag file.etag (ground (arith, h));
  last_modified = bytes_eq_sound d.last_modified file.last_modified (ground (arith, h));
}

release-used :
    (fs : FileSystem) (c : PageCache) (r : CacheReservation) → (Evict.release fs c r).1.used ≡ true
unfolding Evict.release
release-used fs c r =
    if_cases (λ (o : PageCache × CacheReservation). o.1.used ≡ true) r.used (λ h. h) (λ h. refl)

module _ {S : Type 0} (http : Http S) (t : Texts) (c : UpstreamClient) (sys : JobSystem S)
    (limits : Limits) where
  -- A job without an error has downloaded the authorized file and published its pages. `actual` is the
  -- number of bytes of the download's body that the copy wrote.
  pub record IsPublished (a : AuthorizedRequest) (o : Job S) : Type 0 where
    pub before : S
    pub upstream : UpstreamDownload
    pub actual : ℤ
    pub downloaded :
        (download http t c before a.request.api_version a.request.token a.request.profile_id
          a.request.profile_token a.request.content_id a.request.file_id).1
        ≡ ok upstream
    pub at : S
    pub copied : (sys.copy_body at upstream.body (limits.max_archive_bytes +ℤ pos 1)).1 ≡ actual
    pub whole : (sys.copy_body at upstream.body (limits.max_archive_bytes +ℤ pos 1)).2 ≡ none
    pub source : IsSource a.file upstream actual
    pub within : actual ≤ℤ limits.max_archive_bytes
    pub extraction : IsExtracted http t c sys limits a o

  write_bounded_file-copied :
      (s : S) (path : FilePath) (body : Response) (max : ℤ)
      → (write_bounded_file http t c sys limits s path body max).2 ≡ none
      → (at : S) × ((sys.copy_body at body (max +ℤ pos 1)).1
          ≡ (write_bounded_file http t c sys limits s path body max).1)
        × ((sys.copy_body at body (max +ℤ pos 1)).2 ≡ none)
  unfolding write_bounded_file
  write_bounded_file-copied s path body max h =
      let s1 = (sys.open_file s path).0 in
      elim (Option-cases (sys.open_file s path).1) [
        | inr (e, failed) ↦ absurd (ground (arith, failed, h))
        | inl opened ↦ elim (Option-cases (sys.copy_body s1 body (max +ℤ pos 1)).2) [
          | inr (e, failed) ↦ absurd (ground (arith, opened, failed, h))
          | inl copied ↦ elim (Bool-cases (ltb_ℤ max (sys.copy_body s1 body (max +ℤ pos 1)).1)) [
            | inl large ↦ absurd (ground (arith, opened, copied, large, h))
            | inr fits ↦ (s1, ground (arith, opened, copied, fits), copied)
          ]
        ]
      ]

  check_source-Extracts :
      (j : Job S) (a : AuthorizedRequest) (d : UpstreamDownload) (actual : ℤ)
      (input output : FilePath)
      → pos 0 ≤ℤ limits.max_total_bytes
      → let o = check_source http t c sys limits j a d actual input output in
        o.1 ≡ none
        → IsSource a.file d actual
          × (actual ≤ℤ limits.max_archive_bytes)
          × IsExtracted http t c sys limits a o.0
  unfolding check_source
  check_source-Extracts j a d actual input output positive =
      elim (Bool-cases (source_changed a.file d actual)) [
        | inl changed ↦ rw (changed, check_source) (λ h. absurd (ground (arith, h)))
        | inr same ↦ elim (Bool-cases (ltb_ℤ limits.max_archive_bytes actual)) [
          | inl large ↦ rw (same, large, check_source) (λ h. absurd (ground (arith, h)))
          | inr fits ↦
              rw (same, fits, check_source)
                (λ h. (
                  source_changed-IsSource a.file d actual same,
                  not_ltb_ℤ→≤ℤ limits.max_archive_bytes actual fits,
                  extract_file-Extracts http t c sys limits j a input output positive h,
                ))
        ]
      ]

  -- A body that was received, copied and found to be the authorized file.
  record IsReceived (a : AuthorizedRequest) (d : UpstreamDownload) (o : Job S) : Type 0 where
    actual : ℤ
    at : S
    copied : (sys.copy_body at d.body (limits.max_archive_bytes +ℤ pos 1)).1 ≡ actual
    whole : (sys.copy_body at d.body (limits.max_archive_bytes +ℤ pos 1)).2 ≡ none
    source : IsSource a.file d actual
    within : actual ≤ℤ limits.max_archive_bytes
    extraction : IsExtracted http t c sys limits a o

  receive-IsReceived :
      (j : Job S) (a : AuthorizedRequest) (d : UpstreamDownload) (input output : FilePath)
      → pos 0 ≤ℤ limits.max_total_bytes
      → let o = receive http t c sys limits j a d input output in o.1 ≡ none → IsReceived a d o.0
  unfolding receive
  receive-IsReceived j a d input output positive =
      let w =
        write_bounded_file http t c sys limits j.world input d.body limits.max_archive_bytes in
      let s2 = (http.close_body w.0 d.body).0 in
      elim (Bool-cases (ltb_ℤ limits.max_archive_bytes d.size)) [
        | inl large ↦ rw (large, receive) (λ h. absurd (ground (arith, h)))
        | inr fits ↦ elim (Option-cases w.2) [
          | inr (e, failed) ↦ rw (fits, failed, receive) (λ h. absurd (ground (arith, h)))
          | inl written ↦ elim (Bool-cases (http.close_body w.0 d.body).1) [
            | inr failed ↦ rw (fits, written, failed, receive) (λ h. absurd (ground (arith, h)))
            | inl closed ↦
                rw (fits, written, closed, receive)
                  (λ h.
                    let (at, copied, whole) =
                      write_bounded_file-copied j.world input d.body limits.max_archive_bytes
                        written in
                    let (source, within, extraction) =
                      check_source-Extracts (record j { world = s2 }) a d w.1 input output positive
                        h in
                    record {
                      actual = w.1;
                      at = at;
                      copied = copied;
                      whole = whole;
                      source = source;
                      within = within;
                      extraction = extraction;
                    })
          ]
        ]
      ]

  abbrev Publishes : AuthorizedRequest → Job S × Option ApiError → Type 0
  Publishes a o = o.1 ≡ none → IsPublished a o.0

  fetch-Publishes :
      (j : Job S) (a : AuthorizedRequest) (job_dir : FilePath)
      → pos 0 ≤ℤ limits.max_total_bytes
      → Publishes a (fetch http t c sys limits j a job_dir)
  unfolding fetch
  fetch-Publishes j a job_dir positive =
      let answer =
        download http t c j.world a.request.api_version a.request.token a.request.profile_id
          a.request.profile_token a.request.content_id a.request.file_id in
      elim (Result-cases answer.1) [
        | inl (e, failed) ↦ rw (failed, fetch) (λ h. absurd (ground (arith, h)))
        | inr (d, downloaded) ↦
            rw (downloaded, fetch)
              (λ h.
                let p =
                  receive-IsReceived (record j { world = answer.0 }) a d
                    (job_dir ++ codes "archive" ∷ []) (job_dir ++ codes "pages" ∷ []) positive h in
                record {
                  before = j.world;
                  upstream = d;
                  actual = p.actual;
                  downloaded = downloaded;
                  at = p.at;
                  copied = p.copied;
                  whole = p.whole;
                  source = p.source;
                  within = p.within;
                  extraction = p.extraction;
                })
      ]

  run_job-Publishes :
      (j : Job S) (a : AuthorizedRequest)
      → pos 0 ≤ℤ limits.max_total_bytes
      → Publishes a (run_job http t c sys limits j a)
  unfolding run_job
  run_job-Publishes j a positive =
      let s = (sys.runtime_done j.world).0 in
      let s' = (sys.make_job_dir s).0 in
      elim (Bool-cases (sys.runtime_done j.world).1) [
        | inl done ↦ rw (done, run_job) (λ h. absurd (ground (arith, h)))
        | inr going ↦ elim (Option-cases (sys.make_job_dir s).1) [
          | inl failed ↦ rw (going, failed, run_job) (λ h. absurd (ground (arith, h)))
          | inr (path, made) ↦
              rw (going, made, run_job)
                (fetch-Publishes
                  (record j {
                    world = s';
                    reservation = record j.reservation { job_dir = some path };
                  })
                  a path positive)
        ]
      ]

  release-entries :
      (fs : FileSystem) (cache : PageCache) (r : CacheReservation)
      → (Evict.release fs cache r).0.entries ≡ cache.entries
  unfolding Evict.release
  release-entries fs cache r = ground arith

  -- The release of the reservation leaves the published entry in the cache.
  finish_job-Publishes :
      (a : AuthorizedRequest) (o : Job S × Option ApiError)
      → Publishes a o
      → Publishes a (finish_job http t c sys limits o)
  unfolding finish_job
  finish_job-Publishes a (j, e) p h =
      let published = p h in
      let x = published.extraction in
      record {
        before = published.before;
        upstream = published.upstream;
        actual = published.actual;
        downloaded = published.downloaded;
        at = published.at;
        copied = published.copied;
        whole = published.whole;
        source = published.source;
        within = published.within;
        extraction = record {
          before = x.before;
          input = x.input;
          output = x.output;
          pages = x.pages;
          extracted = x.extracted;
          some_pages = x.some_pages;
          bounded = x.bounded;
          entry = x.entry;
          stored =
              ap (find a.cache_key) (release-entries (sys.files j.world) j.cache j.reservation)
              ∙ x.stored;
          entry_pages = x.entry_pages;
          entry_key = x.entry_key;
        };
      }

  -- With a limit of all pages that is not negative, a job has used up its reservation and given
  -- back the extraction slot on every path; where it ends without an error, the copy of the body of
  -- a download of the authorized file wrote, without an error, as many bytes as the file and the
  -- download announced, with the authorized validators and within the archive limit, and in the
  -- cache that the job leaves the authorized key finds an entry of the pages that the extractor
  -- reported, all in their order, which are not none, each nonempty and within a page's limit, and
  -- together within the limit of all.
  pub extract_job-IsPublished :
      (j : Job S) (a : AuthorizedRequest)
      → pos 0 ≤ℤ limits.max_total_bytes
      → let o = extract_job http t c sys limits j a in
        (o.0.reservation.used ≡ true) × (o.0.extract ≡ false) × (o.1 ≡ none → IsPublished a o.0)
  unfolding extract_job finish_job
  extract_job-IsPublished j a positive =
      let o = run_job http t c sys limits j a in
      (
        release-used (sys.files o.0.world) o.0.cache o.0.reservation,
        refl,
        finish_job-Publishes a o (run_job-Publishes j a positive),
      )
