-- ===== src/Silo/Cache/System/Safety.antt =====
-- The reachable states of the cache of internal/silo/cache.go, for its callers.
use mathlib.Core.Path.{subst}
use bloem_community_crowquil.Prelude.{◌<◌, ◌≡◌, ◌∙◌, ap, FilePath, ℕ, List, ◌∷◌, ◌++◌, some, arith}
use bloem_community_crowquil.Prelude.Int.{ℤ, pos, ◌+ℤ◌, ◌≤ℤ◌}
use bloem_community_crowquil.Silo.Cache.State.{CacheEntry, PageHandle}
use bloem_community_crowquil.Silo.Cache.Entries.{find, entries_total}
use bloem_community_crowquil.Silo.Cache.Pending.{pending_total}
use bloem_community_crowquil.Silo.Cache.System.{System, Reach, init}
use bloem_community_crowquil.Silo.Cache.System.Counts.{held, holds, holds-middle, All-middle}
use bloem_community_crowquil.Silo.Cache.System.Sound.{IsPinned}
use bloem_community_crowquil.Silo.Cache.System.Steps.{init-IsSound, Reach-IsSound}

module _ (root : FilePath) (max_bytes : ℤ) (ttl : ℕ) (enough : pos 0 ≤ℤ max_bytes) where
  -- In every state that callers can reach from an empty cache with a non-negative budget, whatever
  -- the file system answers, the used bytes are the sum of the entries' totals, the reserved bytes
  -- are the sum of the outstanding reservations and of the job directories whose removal is
  -- pending, and both together are within the budget.
  pub budget_kept :
      {s : System}
      → Reach (init root max_bytes ttl) s
      → (s.cache.used_bytes ≡ entries_total s.cache.entries)
        × (s.cache.reserved ≡ held s.reservations +ℤ pending_total s.cache.pending)
        × (s.cache.used_bytes +ℤ s.cache.reserved ≤ℤ max_bytes)
  unfolding init
  budget_kept {s} r =
      let (v, same) = Reach-IsSound (init-IsSound root max_bytes ttl enough) r in
      (
        v.accounted.used,
        v.accounted.reserved,
        subst (λ m. s.cache.used_bytes +ℤ s.cache.reserved ≤ℤ m) same v.accounted.budget,
      )

  -- In every state that callers can reach from an empty cache with a non-negative budget, the entry
  -- behind each handle that was not released is still in the cache under the handle's key, is the
  -- very entry that was looked up, and has a positive count of active reads.
  pub handle_pinned :
      {s : System}
      → Reach (init root max_bytes ttl) s
      → (front : List PageHandle) (h : PageHandle) (back : List PageHandle)
      → s.handles ≡ front ++ h ∷ back
      → (e : CacheEntry) × (find h.key s.cache.entries ≡ some e)
        × (e.serial ≡ h.serial)
        × (0 < e.active)
  handle_pinned {s} r front h back eq =
      let (v, same) = Reach-IsSound (init-IsSound root max_bytes ttl enough) r in
      let ((e, found, serial), rest) =
        All-middle (IsPinned s.cache.entries) front h back (rw eq at v.pinned) in
      let count = v.counted h.key ∙ (ap (holds h.key) eq ∙ holds-middle h.key front h back) in
      (e, found, serial, ground (arith, count))
