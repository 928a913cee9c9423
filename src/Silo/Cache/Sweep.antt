-- ===== src/Silo/Cache/Sweep.antt =====
-- `retryPendingLocked`, `sweepLocked`, `sweep` and `close` of internal/silo/cache.go.
pub mod Laws
pub mod Expiry
pub mod Closed
use bloem_community_crowquil.Prelude.{
  ℕ, Bool, true, false, ◌&&◌, ◌||◌, FilePath, List, [], ◌∷◌, Option, none, some, map, if◌then◌else◌,
}
use bloem_community_crowquil.Prelude.Int.{ℤ, ◌-ℤ◌}
use bloem_community_crowquil.Silo.Cache.State.{
  FileSystem, CacheEntry, PageCache, owned_directory, job_prefix, expired,
}
use bloem_community_crowquil.Silo.Cache.Pending
use bloem_community_crowquil.Silo.Cache.Remove.{remove_locked}

retry_path : FileSystem → FilePath → PageCache → PageCache
retry_path fs path c = elim (Pending.lookup path c.pending) [
  | none ↦ c
  | some bytes ↦
      if owned_directory c.root path job_prefix && fs.remove_all path
      then record c { pending = Pending.delete path c.pending; reserved = c.reserved -ℤ bytes }
      else c
]

-- The loop reads the map as it goes; `paths` are the keys that it has still to visit.
retry_paths : FileSystem → List FilePath → PageCache → PageCache
unfolding retry_path
retry_paths fs [] c = c
retry_paths fs (path ∷ paths) c = retry_paths fs paths (retry_path fs path c)

unfoldable pub retry_pending_locked : FileSystem → PageCache → PageCache
unfolding retry_paths
retry_pending_locked fs c = retry_paths fs (map (λ p. p.0) c.pending) c

-- The loop of `sweepLocked`. A visit changes only the entry that it visits.
pub sweep_entries : FileSystem → ℕ → List CacheEntry → PageCache → PageCache
sweep_entries fs now [] c = c
sweep_entries fs now (entry ∷ entries) c =
    sweep_entries fs now entries
      (if entry.retired || expired entry now then (remove_locked fs c entry.key).0 else c)

unfoldable pub sweep_locked : FileSystem → ℕ → PageCache → PageCache
unfolding sweep_entries
sweep_locked fs now c = let c' = retry_pending_locked fs c in sweep_entries fs now c'.entries c'

unfoldable pub sweep : FileSystem → ℕ → PageCache → PageCache
sweep fs now c = if c.closed then c else sweep_locked fs now c

-- The loop of `close`.
pub remove_entries : FileSystem → List CacheEntry → PageCache → PageCache
remove_entries fs [] c = c
remove_entries fs (entry ∷ entries) c = remove_entries fs entries (remove_locked fs c entry.key).0

unfoldable pub close : FileSystem → PageCache → PageCache
unfolding remove_entries
close fs c =
    if c.closed then c else record (retry_pending_locked fs (remove_entries fs c.entries c)) {
      has_lease = false;
      closed = true;
    }
