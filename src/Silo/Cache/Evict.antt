-- ===== src/Silo/Cache/Evict.antt =====
-- `evictUntilLocked`, `reserve` and the reservation's `release` of internal/silo/cache.go.
pub mod Laws
pub mod Rounds
pub mod Oldest
use bloem_community_crowquil.Prelude.{
  ℕ, zero, suc, ◌+◌, Bool, true, false, ◌||◌, not, List, [], ◌∷◌, Option, none, some, length, ltb,
  leb, ◌==◌, if◌then◌else◌,
}
use bloem_community_crowquil.Prelude.Int.{ℤ, pos, ◌+ℤ◌, ◌-ℤ◌, ltb_ℤ}
use bloem_community_crowquil.Silo.Cache.State.{
  FileSystem, CacheEntry, CacheReservation, PageCache, owned_directory, job_prefix,
  max_pending_cleanup,
}
use bloem_community_crowquil.Silo.Cache.Pending
use bloem_community_crowquil.Silo.Cache.Remove.{remove_locked}
use bloem_community_crowquil.Silo.Cache.Sweep.{sweep_locked}

unfoldable pub is_candidate : CacheEntry → Bool
is_candidate entry = not (not (entry.active == 0) || entry.retired)

pub better : Option CacheEntry → CacheEntry → Option CacheEntry
better none entry = some entry
better (some oldest) entry =
    if ltb entry.last_used oldest.last_used then some entry else some oldest

-- The inner loop: the candidate used least recently, the first of them on a tie.
unfoldable pub oldest_from : Option CacheEntry → List CacheEntry → Option CacheEntry
unfolding is_candidate better
oldest_from oldest [] = oldest
oldest_from oldest (entry ∷ entries) =
    oldest_from (if is_candidate entry then better oldest entry else oldest) entries

unfoldable pub is_over : ℤ → PageCache → Bool
is_over incoming c = ltb_ℤ c.max_bytes (c.used_bytes +ℤ c.reserved +ℤ incoming)

-- The outer loop, with fuel for its rounds.
unfoldable pub evict_rounds : ℕ → FileSystem → ℤ → PageCache → PageCache
unfolding oldest_from
evict_rounds zero fs incoming c = c
evict_rounds (suc rounds) fs incoming c =
    if not (is_over incoming c) then c else elim (oldest_from none c.entries) [
      | none ↦ c
      | some oldest ↦ evict_rounds rounds fs incoming (remove_locked fs c oldest.key).0
    ]

-- Each round drops or retires a candidate, so as many rounds as entries are enough.
unfoldable pub evict_until_locked : FileSystem → ℤ → PageCache → PageCache
unfolding evict_rounds
evict_until_locked fs incoming c = evict_rounds (length c.entries) fs incoming c

-- `none` is `errCacheFull`, the only error.
unfoldable pub reserve : FileSystem → ℤ → ℕ → PageCache → PageCache × Option CacheReservation
reserve fs bytes now c =
    if ltb_ℤ bytes (pos 1) || ltb_ℤ c.max_bytes bytes
    then (c, none)
    else if c.closed
    then (c, none)
    else let swept = sweep_locked fs now c in
      if leb max_pending_cleanup (length swept.pending)
      then (swept, none)
      else let evicted = evict_until_locked fs bytes swept in
        if is_over bytes evicted then (evicted, none) else (
          record evicted { reserved = evicted.reserved +ℤ bytes },
          some (record { bytes = bytes; job_dir = none; committed = false; used = false }),
        )

-- A job directory that stays on disk keeps the rest of the reservation charged.
release_dir : FileSystem → PageCache → CacheReservation → PageCache
release_dir fs c r = elim r.job_dir [
  | none ↦ record c { reserved = c.reserved -ℤ r.bytes }
  | some path ↦
      if not (owned_directory c.root path job_prefix) || not (fs.remove_all path)
      then record c { pending = Pending.put path r.bytes c.pending }
      else record c { reserved = c.reserved -ℤ r.bytes }
]

unfoldable pub release : FileSystem → PageCache → CacheReservation → PageCache × CacheReservation
unfolding release_dir
release fs c r = if r.used then (c, r) else (release_dir fs c r, record r { used = true })
