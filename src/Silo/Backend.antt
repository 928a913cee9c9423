-- ===== src/Silo/Backend.antt =====
-- `Pages`, `Page` and `waitForJob` of internal/silo/backend.go: the handlers from their admission to
-- their answer.
pub mod Found
pub mod Served
use bloem_community_crowquil.Prelude.{
  ℕ, ◌+◌, ◌%◌, Bool, true, false, ◌||◌, ◌&&◌, not, Bytes, FilePath, List, [], ◌∷◌, Option, none,
  some, Result, ok, err, ◌>>=◌, length, codes, ◌==◌, bytes_eq, if◌then◌else◌,
}
use bloem_community_crowquil.Prelude.Int.{ℤ, pos, ltb_ℤ}
use bloem_community_crowquil.Archive.Limits.{Limits}
use bloem_community_crowquil.Silo.Constants.{chunk_bytes}
use bloem_community_crowquil.Silo.Keys.{normalize_key}
use bloem_community_crowquil.Silo.Requests.{
  ApiError, api_error, Request, validate_request, not_configured, preparing, cache_stale,
  cache_missing,
}
use bloem_community_crowquil.Silo.Client.{Http, Texts, UpstreamClient}
use bloem_community_crowquil.Silo.Authorize.{AuthorizedRequest, Digests, authorize}
use bloem_community_crowquil.Silo.Page.{PageInfo, page_info, PageError, page_at, serve_chunk}
use bloem_community_crowquil.Silo.Page
use bloem_community_crowquil.Silo.Cache.State.{
  FileSystem, CachedPage, CacheEntry, PageHandle, PageCache,
}
use bloem_community_crowquil.Silo.Cache.Entries.{find}
use bloem_community_crowquil.Silo.Cache.Lookup
use bloem_community_crowquil.Silo.Runtime.{
  Runtime, acquire_request, done_one, Started, stopped, joined, refused, started, get_or_start_job,
}

-- How the wait for a job ended; a finished job has its error, if it has one.
pub data Waited : Type 0 where
  finished : Option ApiError → Waited
  timer_fired deadline_exceeded canceled : Waited

-- What a handler asks of the system. While it waits, other goroutines change the runtime.
pub record Service (S : Type 0) : Type 0 where
  pub now : S → S × ℕ
  pub files : S → FileSystem
  pub read_file : S → FilePath → Option Bytes
  pub wait : S → Runtime → Started → S × Runtime × Waited
  pub meanwhile : S → Runtime → Runtime

pub record Answer : Type 0 where
  pub cache_key : Bytes
  pub pages : List PageInfo
  pub body : Bytes

-- `waitForJob`, and then the error of the job.
unfoldable pub wait_for_job : Waited → Option ApiError
wait_for_job (finished e) = e
wait_for_job timer_fired = some preparing
wait_for_job deadline_exceeded = some (api_error 503 (codes "request_timeout"))
wait_for_job canceled = some (api_error 503 (codes "request_cancelled"))

-- The job of a stopped runtime is finished from the start, with an error of its own.
unfoldable pub job_outcome : Started → Waited → Waited
job_outcome stopped (finished e) = finished (some (api_error 503 (codes "runtime_stopped")))
job_outcome job waited = waited

abbrev pub invalid_offset : ApiError
invalid_offset = api_error 422 (codes "invalid_offset")

unfoldable pub page_failure : PageError → ApiError
page_failure Page.invalid_offset = invalid_offset
page_failure Page.cache_missing = cache_missing

-- The pages of the entry that a handle points to.
unfoldable pub entry_pages : PageHandle → PageCache → List CachedPage
entry_pages h c = elim (find h.key c.entries) [ none ↦ [] | some entry ↦ entry.pages ]

-- A handler's world, the runtime, and its answer.
abbrev pub Handler : Type 0 → Type 0
Handler S = (S × Runtime) × Result ApiError Answer

module _ {S : Type 0} (service : Service S) where
  -- A lookup, the answer that its pages give, and the deferred release of the handle.
  unfoldable pub with_entry :
      S
      → Runtime
      → Bytes
      → (S → List CachedPage → Result ApiError Answer)
      → (S × Runtime) × Option (Result ApiError Answer)
  with_entry s r key answer =
      let (s', now) = service.now s in
      let (c, handle) = Lookup.lookup (service.files s') key now r.cache in
      elim handle [
        | none ↦ ((s', record r { cache = c }), none)
        | some h ↦ (
          (s', record r { cache = (Lookup.release (some h) c).0 }),
          some (answer s' (entry_pages h c)),
        )
      ]

  abbrev pub list_answer : Bytes → S → List CachedPage → Result ApiError Answer
  list_answer key s pages = ok (record { cache_key = key; pages = page_info pages; body = [] })

  unfoldable pub page_answer : Bytes → ℤ → ℕ → S → List CachedPage → Result ApiError Answer
  page_answer key index offset s pages =
      elim (page_at pages index >>= λ page. serve_chunk (service.read_file s) page offset) [
        | err e ↦ err (page_failure e)
        | ok body ↦ ok (record { cache_key = key; pages = []; body = body })
      ]

  abbrev pub or_missing : (S × Runtime) × Option (Result ApiError Answer) → Handler S
  or_missing ((s, r), none) = ((s, r), err cache_missing)
  or_missing ((s, r), some answer) = ((s, r), answer)

  -- Behind the wait for a job.
  unfoldable pub after_wait : S → Runtime → Bytes → Waited → Handler S
  after_wait s r key waited = elim (wait_for_job waited) [
    | some e ↦ ((s, r), err e)
    | none ↦ or_missing (with_entry s r key (list_answer key))
  ]

  -- Behind a job that was started or found.
  unfoldable pub after_start : S → Runtime → Bytes → Started → Handler S
  after_start s r key (refused e) = ((s, r), err e)
  after_start s r key job =
      let (s', r', waited) = service.wait s r job in after_wait s' r' key (job_outcome job waited)

  unfoldable pub prepare_pages : Limits → S → Runtime → Bytes → Handler S
  prepare_pages limits s r key =
      let (s', now) = service.now s in
      let (r', job) = get_or_start_job (service.files s') limits now key r in
      after_start s' r' key job

  unfoldable pub find_pages : Limits → S → Runtime → Request → Bytes → Handler S
  find_pages limits s r req key =
      let (state, found) = with_entry s r key (list_answer key) in
      elim found [
        | some answer ↦ (state, answer)
        | none ↦
            if not (length req.cache_key == 0)
            then (state, err cache_missing)
            else prepare_pages limits state.0 state.1 key
      ]

  -- `Pages` and `Page` from the comparison of the request's key with the authorized one.
  unfoldable pub list_authorized : Limits → Runtime → Request → S → AuthorizedRequest → Handler S
  list_authorized limits r req s a =
      if not (length req.cache_key == 0) && not (bytes_eq (normalize_key req.cache_key) a.cache_key)
      then ((s, r), err cache_stale)
      else find_pages limits s r req a.cache_key

  unfoldable pub serve_authorized : Runtime → Request → ℤ → S → AuthorizedRequest → Handler S
  serve_authorized r req index s a =
      if not (bytes_eq (normalize_key req.cache_key) a.cache_key)
      then ((s, r), err cache_stale)
      else or_missing (with_entry s r a.cache_key (page_answer a.cache_key index req.offset))

  -- The deferred end of an admitted request.
  abbrev pub release_request : Handler S → Handler S
  release_request ((s, r), answer) = ((s, done_one r), answer)

  module _ (http : Http S) (t : Texts) (client : UpstreamClient) (d : Digests)
      (is_blank : Bytes → Bool) where
    -- What both handlers do between the checks of their request and the cache.
    unfoldable pub with_authorized :
        S → Runtime → Request → Bytes → (Runtime → S → AuthorizedRequest → Handler S) → Handler S
    with_authorized s r req user rest =
        let (s', authorized) = authorize http t client d s req user in
        let r' = service.meanwhile s' r in
        elim authorized [ err e ↦ ((s', r'), err e) | ok a ↦ rest r' s' a ]

    unfoldable pub handle_pages : Limits → S → Runtime → Request → Bytes → Handler S
    handle_pages limits s r req user = elim (validate_request is_blank req false) [
      | err e ↦ ((s, r), err e)
      | ok done ↦ with_authorized s r req user (λ r'. list_authorized limits r' req)
    ]

    unfoldable pub handle_page : S → Runtime → Request → Bytes → ℤ → Handler S
    handle_page s r req user index = elim (validate_request is_blank req true) [
      | err e ↦ ((s, r), err e)
      | ok done ↦
          if ltb_ℤ index (pos 0) || not (req.offset % chunk_bytes == 0)
          then ((s, r), err invalid_offset)
          else with_authorized s r req user (λ r'. serve_authorized r' req index)
    ]

    -- `Pages` and `Page` on the runtime that is configured.
    unfoldable pub pages : Limits → S → Runtime → Request → Bytes → Handler S
    pages limits s current req user = elim (acquire_request (some current)) [
      | err e ↦ ((s, current), err e)
      | ok r ↦ release_request (handle_pages limits s r req user)
    ]

    unfoldable pub page : S → Runtime → Request → Bytes → ℤ → Handler S
    page s current req user index = elim (acquire_request (some current)) [
      | err e ↦ ((s, current), err e)
      | ok r ↦ release_request (handle_page s r req user index)
    ]
