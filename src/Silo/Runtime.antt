-- ===== src/Silo/Runtime.antt =====
-- The runtime of internal/silo/backend.go: admission of requests and jobs, their ends, and shutdown.
-- The steps interleave in any order; each is one critical section, or one statement outside them.
pub mod Start
pub mod Listing
pub mod Counts
pub mod Refines
use bloem_community_crowquil.Prelude.{
  ℕ, zero, suc, ◌+◌, ◌-◌, ◌≡◌, Bool, true, false, Bytes, FilePath, Bytes-discrete, List, [], ◌∷◌,
  ◌++◌, Option, none, some, Result, ok, err, codes, ite, if◌then◌else◌, bytes_eq,
}
use bloem_community_crowquil.Prelude.Int.{ℤ, ◌+ℤ◌}
use bloem_community_crowquil.Archive.Limits.{Limits}
use bloem_community_crowquil.Silo.Requests.{ApiError, api_error, not_configured}
use bloem_community_crowquil.Silo.Cache.State.{FileSystem, PageHandle, CacheReservation, PageCache}
use bloem_community_crowquil.Silo.Cache.Commit.{ReportedPage}
use bloem_community_crowquil.Silo.Cache.Sweep
use bloem_community_crowquil.Silo.Cache.Evict
use bloem_community_crowquil.Silo.Cache.Lookup
use bloem_community_crowquil.Silo.Cache.Commit
use bloem_community_crowquil.Silo.Cache.System
use bloem_community_crowquil.Silo.Cache.System.{System, IsUnclaimed}

-- `extract` is whether the channel's one place is taken; a job is the number that tells its pointer.
pub record Runtime : Type 0 where
  pub cache : PageCache
  pub jobs : List (Bytes × ℕ)
  pub extract : Bool
  pub wg : ℕ
  pub stopping : Bool
  pub closed : Bool
  pub next_job : ℕ

-- A runtime as `Configure` makes it: its sweeper is the one that the group waits for.
unfoldable pub new_runtime : PageCache → Runtime
new_runtime cache = record {
  cache = cache;
  jobs = [];
  extract = false;
  wg = 1;
  stopping = false;
  closed = false;
  next_job = 0;
}

unfoldable pub acquire_request : Option Runtime → Result ApiError Runtime
acquire_request none = err not_configured
acquire_request (some r) =
    if r.stopping then err not_configured else ok (record r { wg = r.wg + 1 })

-- The `wg.Done` of a request, a job or the sweeper.
unfoldable pub done_one : Runtime → Runtime
done_one r = record r { wg = r.wg - 1 }

unfoldable pub find_job : Bytes → List (Bytes × ℕ) → Option ℕ
find_job key [] = none
find_job key ((k, job) ∷ jobs) =
    let rest = find_job key jobs in if bytes_eq k key then some job else rest

unfoldable pub delete_job : Bytes → List (Bytes × ℕ) → List (Bytes × ℕ)
delete_job key [] = []
delete_job key ((k, job) ∷ jobs) =
    let rest = delete_job key jobs in if bytes_eq k key then rest else (k, job) ∷ rest

-- What `getOrStartJob` returns: a finished job of a stopped runtime, the job of the key, an error, or a
-- new job, for which a goroutine runs.
pub data Started : Type 0 where
  stopped : Started
  joined : ℕ → Started
  refused : ApiError → Started
  started : ℕ → CacheReservation → Started

abbrev pub extractor_busy : ApiError
extractor_busy = api_error 503 (codes "extractor_busy")

abbrev pub cache_full : ApiError
cache_full = api_error 503 (codes "cache_full")

-- The full input is reserved, whatever length the file was announced with.
abbrev pub reserve_for : FileSystem → Limits → ℕ → PageCache → PageCache × Option CacheReservation
reserve_for fs limits now c =
    Evict.reserve fs (limits.max_archive_bytes +ℤ limits.max_total_bytes) now c

-- The part behind the search for a job of the key.
unfoldable pub start_job : FileSystem → Limits → ℕ → Bytes → Runtime → Runtime × Started
start_job fs limits now key r =
    if r.extract
    then (r, refused extractor_busy)
    else let (c, reservation) = reserve_for fs limits now r.cache in
      elim reservation [
        | none ↦ (record r { cache = c }, refused cache_full)
        | some reserved ↦ (
          record r {
            cache = c;
            jobs = (key, r.next_job) ∷ r.jobs;
            extract = true;
            wg = r.wg + 1;
            next_job = suc r.next_job;
          },
          started r.next_job reserved,
        )
      ]

unfoldable pub get_or_start_job : FileSystem → Limits → ℕ → Bytes → Runtime → Runtime × Started
get_or_start_job fs limits now key r =
    if r.stopping then (r, stopped) else elim (find_job key r.jobs) [
      | some job ↦ (r, joined job)
      | none ↦ start_job fs limits now key r
    ]

-- The deferred ends of a job: the slot, the map and the group.
unfoldable pub return_slot : Runtime → Runtime
return_slot r = record r { extract = false }

unfoldable pub unlist : Bytes → Runtime → Runtime
unlist key r = record r { jobs = delete_job key r.jobs }

-- `close`, before and behind its wait.
unfoldable pub stop : Runtime → Runtime
stop r = record r { stopping = true }

unfoldable pub finish_close : FileSystem → Runtime → Runtime
finish_close fs r = record r { cache = Sweep.close fs r.cache; closed = true }

-- How far a job's goroutine is: it holds its reservation and the slot, only the slot, neither of them,
-- or nothing but its place in the group.
pub data Phase : Type 0 where
  extracting : CacheReservation → Phase
  freed returned unlisted : Phase

pub record Running : Type 0 where
  pub key : Bytes
  pub job : ℕ
  pub phase : Phase

-- The runtime with its goroutines; a request holds at most one handle at a time.
pub record Live : Type 0 where
  pub runtime : Runtime
  pub requests : List (Option PageHandle)
  pub running : List Running
  pub sweeping : Bool

abbrev pub push_started : Bytes → Started → List Running → List Running
push_started key (started job reservation) running =
    record { key = key; job = job; phase = extracting reservation } ∷ running
push_started key stopped running = running
push_started key (joined job) running = running
push_started key (refused e) running = running

-- The handles and reservations that the goroutines hold.
unfoldable pub held : List (Option PageHandle) → List PageHandle
held [] = []
held (h ∷ requests) = System.push h (held requests)

abbrev pub reservation_of : Phase → Option CacheReservation
reservation_of (extracting r) = some r
reservation_of _ = none

unfoldable pub reserved : List Running → List CacheReservation
reserved [] = []
reserved (j ∷ running) = System.push (reservation_of j.phase) (reserved running)

-- The cache with its callers.
abbrev pub callers : Live → System
callers s = record {
  cache = s.runtime.cache;
  handles = held s.requests;
  reservations = reserved s.running;
}

abbrev on_cache : Live → PageCache → Runtime
on_cache s c = record s.runtime { cache = c }

pub data Step (s : Live) : Live → Type 0 where
  acquire :
      (r : Runtime)
      → acquire_request (some s.runtime) ≡ ok r
      → Step s (record s { runtime = r; requests = none ∷ s.requests })
  -- A request that returns has released its handle.
  leave :
      (front back : List (Option PageHandle))
      → s.requests ≡ front ++ none ∷ back
      → Step s (record s { runtime = done_one s.runtime; requests = front ++ back })
  look_up :
      (fs : FileSystem) (key : Bytes) (now : ℕ) (front back : List (Option PageHandle))
      → s.requests ≡ front ++ none ∷ back
      → Step s (record s {
        runtime = on_cache s (Lookup.lookup fs key now s.runtime.cache).0;
        requests = (Lookup.lookup fs key now s.runtime.cache).1 ∷ front ++ back;
      })
  release_handle :
      (front : List (Option PageHandle)) (h : PageHandle) (back : List (Option PageHandle))
      → s.requests ≡ front ++ some h ∷ back
      → Step s (record s {
        runtime = on_cache s (Lookup.release (some h) s.runtime.cache).0;
        requests = front ++ none ∷ back;
      })
  start :
      (fs : FileSystem) (limits : Limits) (now : ℕ) (key : Bytes)
      (front back : List (Option PageHandle))
      → s.requests ≡ front ++ none ∷ back
      → Step s (record s {
        runtime = (get_or_start_job fs limits now key s.runtime).0;
        running = push_started key (get_or_start_job fs limits now key s.runtime).1 s.running;
      })
  make_dir :
      (front : List Running) (j : Running) (r : CacheReservation) (back : List Running)
      (path : FilePath)
      → s.running ≡ front ++ j ∷ back
      → j.phase ≡ extracting r
      → r.job_dir ≡ none
      → IsUnclaimed path (callers s)
      → Step s (record s {
        running =
            front ++ record j { phase = extracting (record r { job_dir = some path }) } ∷ back;
      })
  commit :
      (fs : FileSystem) (front : List Running) (j : Running) (r : CacheReservation)
      (back : List Running) (fingerprint : Bytes) (output_dir : FilePath)
      (pages : List ReportedPage) (now : ℕ)
      → s.running ≡ front ++ j ∷ back
      → j.phase ≡ extracting r
      → Step s (record s {
        runtime =
            on_cache s
              (Commit.commit fs s.runtime.cache r j.key fingerprint output_dir pages now).0;
        running =
            front
            ++ record j {
              phase =
                  extracting
                    (Commit.commit fs s.runtime.cache r j.key fingerprint output_dir pages now).1;
            }
              ∷ back;
      })
  release_reservation :
      (fs : FileSystem) (front : List Running) (j : Running) (r : CacheReservation)
      (back : List Running)
      → s.running ≡ front ++ j ∷ back
      → j.phase ≡ extracting r
      → Step s (record s {
        runtime = on_cache s (Evict.release fs s.runtime.cache r).0;
        running = front ++ record j { phase = freed } ∷ back;
      })
  give_back :
      (front : List Running) (j : Running) (back : List Running)
      → s.running ≡ front ++ j ∷ back
      → j.phase ≡ freed
      → Step s (record s {
        runtime = return_slot s.runtime;
        running = front ++ record j { phase = returned } ∷ back;
      })
  drop :
      (front : List Running) (j : Running) (back : List Running)
      → s.running ≡ front ++ j ∷ back
      → j.phase ≡ returned
      → Step s (record s {
        runtime = unlist j.key s.runtime;
        running = front ++ record j { phase = unlisted } ∷ back;
      })
  end_job :
      (front : List Running) (j : Running) (back : List Running)
      → s.running ≡ front ++ j ∷ back
      → j.phase ≡ unlisted
      → Step s (record s { runtime = done_one s.runtime; running = front ++ back })
  sweep :
      (fs : FileSystem) (now : ℕ)
      → s.sweeping ≡ true
      → Step s (record s { runtime = on_cache s (Sweep.sweep fs now s.runtime.cache) })
  end_sweeper :
      s.sweeping ≡ true
      → s.runtime.stopping ≡ true
      → Step s (record s { runtime = done_one s.runtime; sweeping = false })
  stop_runtime : Step s (record s { runtime = stop s.runtime })
  -- Behind `wg.Wait`.
  close :
      (fs : FileSystem)
      → s.runtime.stopping ≡ true
      → s.runtime.wg ≡ 0
      → Step s (record s { runtime = finish_close fs s.runtime })

pub data Reach (s : Live) : Live → Type 0 where
  here : Reach s s
  next : {t u : Live} → Reach s t → Step t u → Reach s u

unfoldable pub init : PageCache → Live
init cache = record { runtime = new_runtime cache; requests = []; running = []; sweeping = true }
