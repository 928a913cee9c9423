-- ===== src/Silo/Extraction.antt =====
-- The body of a job: `extractJob`, `validatorFingerprint`, `writeBoundedFile` and `mapDownloadError` of
-- internal/silo/backend.go, as one goroutine runs it with the cache as it finds it.
pub mod Committed
pub mod Published
use bloem_community_crowquil.Prelude.{
  ℕ, ◌+◌, Bool, true, false, ◌||◌, ◌&&◌, not, Bytes, FilePath, List, [], ◌∷◌, ◌++◌, Option, none,
  some, Result, ok, err, length, codes, ◌==◌, bytes_eq, if◌then◌else◌,
}
use bloem_community_crowquil.Prelude.Int.{ℤ, pos, ◌+ℤ◌, ◌-ℤ◌, ltb_ℤ, eqb_ℤ, leb_ℤ}
use bloem_community_crowquil.Archive.Errors.{Error}
use bloem_community_crowquil.Archive.Limits.{Limits}
use bloem_community_crowquil.Silo.Requests.{ApiError, api_error}
use bloem_community_crowquil.Silo.Jobs.{UpstreamFile, map_extract_error}
use bloem_community_crowquil.Silo.Client.{
  Response, Http, Texts, UpstreamClient, UpstreamDownload, download,
}
use bloem_community_crowquil.Silo.Authorize.{AuthorizedRequest}
use bloem_community_crowquil.Silo.Cache.State.{FileSystem, CacheReservation, PageCache}
use bloem_community_crowquil.Silo.Cache.Commit.{ReportedPage}
use bloem_community_crowquil.Silo.Cache.Commit
use bloem_community_crowquil.Silo.Cache.Evict

-- What a job asks of the system. `copy_body` is `io.Copy` of an `io.LimitReader` on the answer's body;
-- an error of a file is its text, and `exceeds_limit` is `strings.Contains(text, "exceeds limit")`.
pub record JobSystem (S : Type 0) : Type 0 where
  pub runtime_done : S → S × Bool
  pub job_error : S → S × Option Error
  pub make_job_dir : S → S × Option FilePath
  pub open_file : S → FilePath → S × Option Bytes
  pub copy_body : S → Response → ℤ → S × ℤ × Option Bytes
  pub sync_file : S → S × Option Bytes
  pub close_file : S → S
  pub change_mode : S → FilePath → S × Bool
  pub extractor : S → FilePath → FilePath → Limits → S × Result Error (List ReportedPage)
  pub now : S → S × ℕ
  pub files : S → FileSystem
  pub exceeds_limit : Bytes → Bool

-- The job with what it shares: the cache and the place in the extraction channel.
pub record Job (S : Type 0) : Type 0 where
  pub world : S
  pub cache : PageCache
  pub reservation : CacheReservation
  pub extract : Bool

unfoldable pub validator_fingerprint : UpstreamFile → Bytes
validator_fingerprint file =
    if (length file.etag == 0) && (length file.last_modified == 0)
    then []
    else file.etag ++ 0 ∷ file.last_modified

-- The file that was downloaded is not the one that was authorized.
unfoldable pub source_changed : UpstreamFile → UpstreamDownload → ℤ → Bool
source_changed file d actual =
    (leb_ℤ (pos 0) file.size && not (eqb_ℤ actual file.size))
    || (leb_ℤ (pos 0) d.size && not (eqb_ℤ actual d.size))
    || not (bytes_eq d.etag file.etag)
    || not (bytes_eq d.last_modified file.last_modified)

-- The loop over the sizes of the reported pages.
unfoldable pub pages_fit : Limits → ℤ → List ReportedPage → Bool
pages_fit limits total [] = true
pages_fit limits total (page ∷ pages) =
    let rest = pages_fit limits (total +ℤ page.size) pages in
    if ltb_ℤ page.size (pos 1)
      || ltb_ℤ limits.max_page_bytes page.size
      || ltb_ℤ (limits.max_total_bytes -ℤ page.size) total
    then false
    else rest

abbrev pub failure : Bytes → ApiError
failure code = api_error 503 code

module _ {S : Type 0} (http : Http S) (t : Texts) (c : UpstreamClient) (sys : JobSystem S)
    (limits : Limits) where
  unfoldable pub write_bounded_file : S → FilePath → Response → ℤ → S × ℤ × Option Bytes
  write_bounded_file s path body max =
      let (s1, failed) = sys.open_file s path in
      elim failed [
        | some e ↦ (s1, pos 0, some e)
        | none ↦
            let (s2, written, copy_failed) = sys.copy_body s1 body (max +ℤ pos 1) in
            elim copy_failed [
              | some e ↦ (sys.close_file s2, written, some e)
              | none ↦
                  if ltb_ℤ max written
                  then (sys.close_file s2, written, some (codes "archive exceeds limit"))
                  else let (s3, sync_failed) = sys.sync_file s2 in
                    (sys.close_file s3, written, sync_failed)
            ]
      ]

  unfoldable pub map_download_error : Bytes → ApiError
  map_download_error e =
      if sys.exceeds_limit e
      then api_error 413 (codes "archive_too_large")
      else failure (codes "download_failed")

  -- An error while the job's time is up is a timeout.
  unfoldable pub unless_done : S → ApiError → S × ApiError
  unless_done s e =
      let (s', done) = sys.job_error s in
      elim done [ some d ↦ (s', failure (codes "extraction_timeout")) | none ↦ (s', e) ]

  -- From the reported pages on.
  unfoldable pub publish_pages :
      Job S → AuthorizedRequest → FilePath → List ReportedPage → Job S × Option ApiError
  publish_pages j a output pages =
      if length pages == 0
      then (j, some (api_error 422 (codes "no_image_pages")))
      else if not (pages_fit limits (pos 0) pages)
      then (j, some (api_error 413 (codes "pages_too_large")))
      else let (s, now) = sys.now j.world in
        let (cache, reservation, entry) =
          Commit.commit (sys.files s) j.cache j.reservation a.cache_key
            (validator_fingerprint a.file) output pages now in
        let j' = record j { world = s; cache = cache; reservation = reservation } in
        elim entry [
          | err e ↦ (j', some (failure (codes "cache_publish_failed")))
          | ok published ↦ (j', none)
        ]

  -- From the written file on.
  unfoldable pub extract_file :
      Job S → AuthorizedRequest → FilePath → FilePath → Job S × Option ApiError
  extract_file j a input output =
      let (s1, changed) = sys.change_mode j.world input in
      if not changed
      then (record j { world = s1 }, some (failure (codes "cache_unavailable")))
      else let (s2, extracted) = sys.extractor s1 input output limits in
        elim extracted [
          | err e ↦
              let (s3, done) = sys.job_error s2 in
              (record j { world = s3 }, some (map_extract_error done e))
          | ok pages ↦ publish_pages (record j { world = s2 }) a output pages
        ]

  -- The comparison of what was downloaded with what was authorized.
  unfoldable pub check_source :
      Job S
      → AuthorizedRequest
      → UpstreamDownload
      → ℤ
      → FilePath
      → FilePath
      → Job S × Option ApiError
  check_source j a d actual input output =
      if source_changed a.file d actual
      then (j, some (api_error 409 (codes "source_changed")))
      else if ltb_ℤ limits.max_archive_bytes actual
      then (j, some (api_error 413 (codes "archive_too_large")))
      else extract_file j a input output

  -- The body is closed before its error is looked at.
  unfoldable pub receive :
      Job S → AuthorizedRequest → UpstreamDownload → FilePath → FilePath → Job S × Option ApiError
  receive j a d input output =
      if ltb_ℤ limits.max_archive_bytes d.size
      then (
        record j { world = (http.close_body j.world d.body).0 },
        some (api_error 413 (codes "archive_too_large")),
      )
      else let (s1, actual, failed) =
          write_bounded_file j.world input d.body limits.max_archive_bytes in
        let (s2, closed) = http.close_body s1 d.body in
        elim failed [
          | some e ↦
              let (s3, e') = unless_done s2 (map_download_error e) in
              (record j { world = s3 }, some e')
          | none ↦
              if not closed
              then (record j { world = s2 }, some (failure (codes "download_failed")))
              else check_source (record j { world = s2 }) a d actual input output
        ]

  unfoldable pub fetch : Job S → AuthorizedRequest → FilePath → Job S × Option ApiError
  fetch j a job_dir =
      let req = a.request in
      let (s, answer) =
        download http t c j.world req.api_version req.token req.profile_id req.profile_token
          req.content_id req.file_id in
      elim answer [
        | err e ↦ let (s', e') = unless_done s e in (record j { world = s' }, some e')
        | ok d ↦
            receive (record j { world = s }) a d (job_dir ++ codes "archive" ∷ [])
              (job_dir ++ codes "pages" ∷ [])
      ]

  unfoldable pub run_job : Job S → AuthorizedRequest → Job S × Option ApiError
  run_job j a =
      let (s, done) = sys.runtime_done j.world in
      if done
      then (record j { world = s }, some (failure (codes "runtime_stopped")))
      else let (s', dir) = sys.make_job_dir s in
        elim dir [
          | none ↦ (record j { world = s' }, some (failure (codes "cache_unavailable")))
          | some path ↦
              fetch
                (record j {
                  world = s';
                  reservation = record j.reservation { job_dir = some path };
                })
                a path
        ]

  -- The deferred release of the reservation, and then of the extraction slot.
  unfoldable pub finish_job : Job S × Option ApiError → Job S × Option ApiError
  finish_job (j, e) =
      let (cache, reservation) = Evict.release (sys.files j.world) j.cache j.reservation in
      (record j { cache = cache; reservation = reservation; extract = false }, e)

  unfoldable pub extract_job : Job S → AuthorizedRequest → Job S × Option ApiError
  extract_job j a = finish_job (run_job j a)
