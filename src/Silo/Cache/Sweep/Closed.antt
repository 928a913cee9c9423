-- ===== src/Silo/Cache/Sweep/Closed.antt =====
-- Lemmas on what the sweep and the shutdown of internal/silo/cache.go leave of the flag that a cache
-- is closed.
use bloem_community_crowquil.Prelude.{
  ℕ, ◌≡◌, refl, ◌∙◌, true, List, [], ◌∷◌, ◌||◌, Bool-cases, inl, inr, arith,
}
use bloem_community_crowquil.Silo.Cache.State.{FileSystem, CacheEntry, PageCache, expired}
use bloem_community_crowquil.Silo.Cache.Remove.{remove_locked}
use bloem_community_crowquil.Silo.Cache.Remove.Laws.{remove_locked-closed}
use bloem_community_crowquil.Silo.Cache.Sweep.{
  retry_pending_locked, sweep_entries, sweep_locked, sweep, close,
}
use bloem_community_crowquil.Silo.Cache.Sweep.Laws.{retry_pending_locked-Cleans}

module _ (fs : FileSystem) where
  retry_pending_locked-closed : (c : PageCache) → (retry_pending_locked fs c).closed ≡ c.closed
  retry_pending_locked-closed c = (retry_pending_locked-Cleans fs c).settings.closed

  sweep_entries-closed :
      (now : ℕ) (entries : List CacheEntry) (c : PageCache)
      → (sweep_entries fs now entries c).closed ≡ c.closed
  unfolding sweep_entries
  sweep_entries-closed now [] c = refl
  sweep_entries-closed now (e ∷ es) c = elim (Bool-cases (e.retired || expired e now)) [
    | inl stale ↦
        rw (stale, sweep_entries)
          (sweep_entries-closed now es (remove_locked fs c e.key).0
            ∙ remove_locked-closed fs c e.key)
    | inr fresh ↦ rw (fresh, sweep_entries) (sweep_entries-closed now es c)
  ]

  pub sweep_locked-closed : (now : ℕ) (c : PageCache) → (sweep_locked fs now c).closed ≡ c.closed
  unfolding sweep_locked
  sweep_locked-closed now c =
      sweep_entries-closed now (retry_pending_locked fs c).entries (retry_pending_locked fs c)
      ∙ retry_pending_locked-closed c

  pub sweep-closed : (now : ℕ) (c : PageCache) → (sweep fs now c).closed ≡ c.closed
  unfolding sweep
  sweep-closed now c = ground (arith, sweep_locked-closed now c)

  pub close-closed : (c : PageCache) → (close fs c).closed ≡ true
  unfolding close
  close-closed c = ground arith
