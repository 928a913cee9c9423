-- ===== src/Silo/Cache/System.antt =====
-- The cache with the handles and reservations that its callers hold, as a step relation. Each step is
-- one call under the cache's lock, so an interleaving of callers is a sequence of steps.
pub mod Counts
pub mod Sound
pub mod Reads
pub mod Jobs
pub mod Steps
pub mod Safety
use bloem_community_crowquil.Prelude.{
  ℕ, ◌+◌, ◌≡◌, true, false, Bytes, FilePath, FilePath-discrete, Bytes-discrete, List, [], ◌∷◌, ◌++◌,
  Option, none, some, ite,
}
use bloem_community_crowquil.Prelude.Int.{ℤ, pos}
use bloem_community_crowquil.Silo.Cache.State.{FileSystem, PageHandle, CacheReservation, PageCache}
use bloem_community_crowquil.Silo.Cache.Pending.{Pending, lookup as lookup_pending}
use bloem_community_crowquil.Silo.Cache.Sweep
use bloem_community_crowquil.Silo.Cache.Evict
use bloem_community_crowquil.Silo.Cache.Lookup
use bloem_community_crowquil.Silo.Cache.Commit
use bloem_community_crowquil.Silo.Cache.Commit.{ReportedPage}

pub record System : Type 0 where
  pub cache : PageCache
  pub handles : List PageHandle
  pub reservations : List CacheReservation

-- An optional result is kept by its caller.
abbrev pub push {ℓ} : {A : Type ℓ} → Option A → List A → List A
push none xs = xs
push (some x) xs = x ∷ xs

-- How often a job directory is claimed, by a reservation or as a pending removal.
unfoldable pub claims : FilePath → List CacheReservation → ℕ
claims p [] = 0
claims p (r ∷ rs) =
    (elim r.job_dir [ none ↦ 0 | some q ↦ ite (FilePath-discrete q p) 1 0 ]) + claims p rs

abbrev pub pending_claims : FilePath → Pending → ℕ
pending_claims p m = elim (lookup_pending p m) [ none ↦ 0 | some b ↦ 1 ]

-- `os.MkdirTemp` makes a directory that did not exist, so no job that is still on disk has its name.
abbrev pub IsUnclaimed : FilePath → System → Type 0
IsUnclaimed p s = claims p s.reservations + pending_claims p s.cache.pending ≡ 0

pub data Step (s : System) : System → Type 0 where
  look_up :
      (fs : FileSystem) (key : Bytes) (now : ℕ)
      → Step s (record s {
        cache = (Lookup.lookup fs key now s.cache).0;
        handles = push (Lookup.lookup fs key now s.cache).1 s.handles;
      })
  leave :
      (front : List PageHandle) (h : PageHandle) (back : List PageHandle)
      → s.handles ≡ front ++ h ∷ back
      → Step s (record s { cache = (Lookup.release (some h) s.cache).0; handles = front ++ back })
  reserve :
      (fs : FileSystem) (bytes : ℤ) (now : ℕ)
      → Step s (record s {
        cache = (Evict.reserve fs bytes now s.cache).0;
        reservations = push (Evict.reserve fs bytes now s.cache).1 s.reservations;
      })
  open_job :
      (front : List CacheReservation) (r : CacheReservation) (back : List CacheReservation)
      (path : FilePath)
      → s.reservations ≡ front ++ r ∷ back
      → r.job_dir ≡ none
      → IsUnclaimed path s
      → Step s (record s { reservations = front ++ record r { job_dir = some path } ∷ back })
  commit :
      (fs : FileSystem) (front : List CacheReservation) (r : CacheReservation)
      (back : List CacheReservation) (key fingerprint : Bytes) (output_dir : FilePath)
      (pages : List ReportedPage) (now : ℕ)
      → s.reservations ≡ front ++ r ∷ back
      → Step s (record s {
        cache = (Commit.commit fs s.cache r key fingerprint output_dir pages now).0;
        reservations =
            front ++ (Commit.commit fs s.cache r key fingerprint output_dir pages now).1 ∷ back;
      })
  free :
      (fs : FileSystem) (front : List CacheReservation) (r : CacheReservation)
      (back : List CacheReservation)
      → s.reservations ≡ front ++ r ∷ back
      → Step s (record s { cache = (Evict.release fs s.cache r).0; reservations = front ++ back })
  sweep : (fs : FileSystem) (now : ℕ) → Step s (record s { cache = Sweep.sweep fs now s.cache })
  -- The runtime drains requests and jobs before it closes the cache.
  close :
      (fs : FileSystem)
      → s.handles ≡ []
      → s.reservations ≡ []
      → Step s (record s { cache = Sweep.close fs s.cache })

pub data Reach (s : System) : System → Type 0 where
  here : Reach s s
  next : {t u : System} → Reach s t → Step t u → Reach s u

-- A cache as `newPageCache` leaves it, with no callers.
unfoldable pub init : FilePath → ℤ → ℕ → System
init root max_bytes fallback_ttl = record {
  cache = record {
    root = root;
    max_bytes = max_bytes;
    fallback_ttl = fallback_ttl;
    entries = [];
    used_bytes = pos 0;
    reserved = pos 0;
    has_lease = true;
    pending = [];
    closed = false;
    next_serial = 0;
  };
  handles = [];
  reservations = [];
}
