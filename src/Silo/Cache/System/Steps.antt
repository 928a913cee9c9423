-- ===== src/Silo/Cache/System/Steps.antt =====
-- Lemmas on all steps of the cache of internal/silo/cache.go and on reachability.
use bloem_community_crowquil.Prelude.{
  ℕ, ◌≡◌, refl, sym, ◌∙◌, Bool, true, false, Bytes, FilePath, List, Option, arith, if_cases,
}
use bloem_community_crowquil.Prelude.Int.{ℤ, pos, ◌≤ℤ◌, +ℤ_zero}
use bloem_community_crowquil.Silo.Cache.State.{FileSystem, PageHandle, CacheReservation, PageCache}
use bloem_community_crowquil.Silo.Cache.Invariant.{Cleans, Cleans-trans}
use bloem_community_crowquil.Silo.Cache.Entries.{find, entries_total}
use bloem_community_crowquil.Silo.Cache.Pending
use bloem_community_crowquil.Silo.Cache.Pending.{pending_total}
use bloem_community_crowquil.Silo.Cache.Sweep
use bloem_community_crowquil.Silo.Cache.Sweep.{retry_pending_locked, remove_entries}
use bloem_community_crowquil.Silo.Cache.Sweep.Laws.{
  retry_pending_locked-Cleans, sweep-Cleans, remove_entries-Cleans,
}
use bloem_community_crowquil.Silo.Cache.Evict.Laws.{
  Reserved, out_of_range, is_closed, too_many_pending, no_room, granted, reserve-Reserved,
  release-max_bytes,
}
use bloem_community_crowquil.Silo.Cache.Lookup
use bloem_community_crowquil.Silo.Cache.Lookup.Laws.{LookedUp, miss, hit, lookup-LookedUp}
use bloem_community_crowquil.Silo.Cache.Commit
use bloem_community_crowquil.Silo.Cache.Commit.{Commit}
use bloem_community_crowquil.Silo.Cache.Commit.Publish.{Committed, refused, done, commit-Committed}
use bloem_community_crowquil.Silo.Cache.System.{
  System, Step, look_up, leave, reserve, open_job, commit, free, sweep, close, Reach, here, next,
  init, claims,
}
use bloem_community_crowquil.Silo.Cache.System.Counts.{held, holds}
use bloem_community_crowquil.Silo.Cache.System.Sound.{IsSound, Cleans-IsSound}
use bloem_community_crowquil.Silo.Cache.System.Reads.{look_up-IsSound, leave-IsSound}
use bloem_community_crowquil.Silo.Cache.System.Jobs.{
  reserve-IsSound, open_job-IsSound, commit-IsSound, free-IsSound,
}

-- The part of `close` before the lease is given up.
abbrev emptied : FileSystem → PageCache → PageCache
emptied fs c = retry_pending_locked fs (remove_entries fs c.entries c)

emptied-Cleans : {s : System} (fs : FileSystem) → IsSound s → Cleans s.cache (emptied fs s.cache)
emptied-Cleans {s} fs v =
    Cleans-trans (remove_entries-Cleans fs s.cache.entries s.cache v.accounted)
      (retry_pending_locked-Cleans fs (remove_entries fs s.cache.entries s.cache))

-- The lease and the flag are read by no invariant.
unlocked-IsSound :
    {s : System} (l b : Bool)
    → IsSound s
    → IsSound (record s { cache = record s.cache { has_lease = l; closed = b } })
unlocked-IsSound l b v = record {
  accounted = record {
    used = v.accounted.used;
    reserved = v.accounted.reserved;
    budget = v.accounted.budget;
    charged = v.accounted.charged;
    owed = v.accounted.owed;
    unique = v.accounted.unique;
  };
  backed = v.backed;
  claimed = v.claimed;
  counted = v.counted;
  pinned = v.pinned;
}

close-IsSound :
    {s : System} (fs : FileSystem)
    → IsSound s
    → IsSound (record s { cache = Sweep.close fs s.cache })
unfolding Sweep.close
close-IsSound {s} fs v =
    if_cases (λ (d : PageCache). IsSound (record s { cache = d })) s.cache.closed (λ _. v)
      λ _.
        unlocked-IsSound {s = record s { cache = emptied fs s.cache }} false true
          (Cleans-IsSound (emptied-Cleans fs v) v)

pub Step-IsSound : {s t : System} → Step s t → IsSound s → IsSound t
Step-IsSound (look_up fs key now) v = look_up-IsSound fs key now v
Step-IsSound (leave front h back e) v = leave-IsSound front h back e v
Step-IsSound (reserve fs bytes now) v = reserve-IsSound fs bytes now v
Step-IsSound (open_job front r back path e d n) v = open_job-IsSound front r back path e d n v
Step-IsSound (commit fs front r back key fp out pages now e) v =
    commit-IsSound fs front r back key fp out pages now e v
Step-IsSound (free fs front r back e) v = free-IsSound fs front r back e v
Step-IsSound {s} (sweep fs now) v = Cleans-IsSound (sweep-Cleans fs now s.cache v.accounted) v
Step-IsSound (close fs h r) v = close-IsSound fs v

look_up-max_bytes :
    {fs : FileSystem} {key : Bytes} {now : ℕ} {c : PageCache} {a : PageCache × Option PageHandle}
    → LookedUp fs key now c a
    → a.0.max_bytes ≡ c.max_bytes
look_up-max_bytes (miss why cleans) = cleans.settings.max_bytes
look_up-max_bytes (hit h o f p u n) = refl

reserve-max_bytes :
    {fs : FileSystem} {bytes : ℤ} {c : PageCache} {a : PageCache × Option CacheReservation}
    → Reserved fs bytes c a
    → a.0.max_bytes ≡ c.max_bytes
reserve-max_bytes (out_of_range h) = refl
reserve-max_bytes (is_closed h) = refl
reserve-max_bytes (too_many_pending cleans h) = cleans.settings.max_bytes
reserve-max_bytes (no_room cleans h o) = cleans.settings.max_bytes
reserve-max_bytes (granted h o cleans f) = cleans.settings.max_bytes

commit-max_bytes :
    {fs : FileSystem} {c : PageCache} {r : CacheReservation} {key fp : Bytes} {out : FilePath}
    {pages : List Commit.ReportedPage} {now : ℕ} {a : Commit}
    → Committed fs c r key fp out pages now a
    → a.0.max_bytes ≡ c.max_bytes
commit-max_bytes (refused why cleans) = cleans.settings.max_bytes
commit-max_bytes (done cleans o n h f k b kept) = cleans.settings.max_bytes

close-max_bytes :
    {s : System} (fs : FileSystem)
    → IsSound s
    → (Sweep.close fs s.cache).max_bytes ≡ s.cache.max_bytes
unfolding Sweep.close
close-max_bytes {s} fs v =
    if_cases (λ (d : PageCache). d.max_bytes ≡ s.cache.max_bytes) s.cache.closed (λ _. refl)
      λ _. (emptied-Cleans fs v).settings.max_bytes

pub Step-max_bytes : {s t : System} → Step s t → IsSound s → t.cache.max_bytes ≡ s.cache.max_bytes
unfolding Lookup.release
Step-max_bytes {s} (look_up fs key now) v =
    look_up-max_bytes (lookup-LookedUp fs key now s.cache v.accounted)
Step-max_bytes (leave front h back e) v = refl
Step-max_bytes {s} (reserve fs bytes now) v =
    reserve-max_bytes (reserve-Reserved fs bytes now s.cache v.accounted)
Step-max_bytes (open_job front r back path e d n) v = refl
Step-max_bytes {s} (commit fs front r back key fp out pages now e) v =
    commit-max_bytes (commit-Committed fs s.cache r key fp out pages now v.accounted)
Step-max_bytes {s} (free fs front r back e) v = release-max_bytes fs s.cache r
Step-max_bytes {s} (sweep fs now) v = (sweep-Cleans fs now s.cache v.accounted).settings.max_bytes
Step-max_bytes (close fs h r) v = close-max_bytes fs v

pub init-IsSound :
    (root : FilePath) (max_bytes : ℤ) (ttl : ℕ)
    → pos 0 ≤ℤ max_bytes
    → IsSound (init root max_bytes ttl)
unfolding init held holds claims entries_total pending_total Pending.lookup find
init-IsSound root max_bytes ttl h = record {
  accounted = record {
    used = refl;
    reserved = sym (+ℤ_zero (pos 0));
    budget = rw (+ℤ_zero (pos 0)) h;
    charged = tt;
    owed = tt;
    unique = tt;
  };
  backed = tt;
  claimed = λ p. omega arith;
  counted = λ k. refl;
  pinned = tt;
}

pub Reach-IsSound :
    {s t : System} → IsSound s → Reach s t → IsSound t × (t.cache.max_bytes ≡ s.cache.max_bytes)
Reach-IsSound v here = (v, refl)
Reach-IsSound v (next r st) =
    let (u, same) = Reach-IsSound v r in (Step-IsSound st u, Step-max_bytes st u ∙ same)
