-- ===== src/Silo/Cache/Sweep/Laws.antt =====
-- Lemmas on the sweep of internal/silo/cache.go as a cleanup.
use bloem_community_crowquil.Prelude.{
  ℕ, ◌≡◌, refl, ◌∙◌, ◌&&◌, ◌||◌, FilePath, List, [], ◌∷◌, some, inl, inr, arith, Option-cases,
  Bool-cases, map,
}
use bloem_community_crowquil.Prelude.Int.{ℤ, ◌-ℤ◌, refund_right, -ℤ_of_sum, +ℤ_swap}
use bloem_community_crowquil.Silo.Cache.State.{
  FileSystem, CacheEntry, PageCache, owned_directory, job_prefix, expired,
}
use bloem_community_crowquil.Silo.Cache.Pending
use bloem_community_crowquil.Silo.Cache.Pending.{pending_total}
use bloem_community_crowquil.Silo.Cache.Invariant.{
  IsAccounted, Cleans, Cleans-refl, Cleans-trans, Cleans-if,
}
use bloem_community_crowquil.Silo.Cache.Remove.Laws.{remove_locked-Cleans}
use bloem_community_crowquil.Silo.Cache.Sweep.{
  retry_path, retry_paths, retry_pending_locked, sweep_entries, sweep_locked, sweep, remove_entries,
}

module _ (c : PageCache) (path : FilePath) {bytes : ℤ}
    (found : Pending.lookup path c.pending ≡ some bytes) where
  abbrev settled : PageCache
  settled = record c { pending = Pending.delete path c.pending; reserved = c.reserved -ℤ bytes }

  settled-IsAccounted : (held : ℤ) → IsAccounted held c → IsAccounted held settled
  settled-IsAccounted held v =
      let owed = Pending.lookup-owed path c.pending found v.owed in
      record {
        used = v.used;
        reserved = -ℤ_of_sum c.reserved bytes _ (
            v.reserved
            ∙ rw (← Pending.pending_total-delete path c.pending found)
                (+ℤ_swap held bytes (pending_total (Pending.delete path c.pending))));
        budget = refund_right c.used_bytes c.reserved bytes c.max_bytes owed v.budget;
        charged = v.charged;
        owed = Pending.AreOwed-delete path c.pending v.owed;
        unique = v.unique;
      }

  settled-Cleans : Cleans c settled
  settled-Cleans = record {
    settings = ground arith;
    accounted = settled-IsAccounted;
    active = λ k. refl;
    kept = λ k e h p. (e.retired, h);
    absent = λ k h. h;
    settled = λ p h. Pending.lookup-delete-none path p c.pending h;
  }

retry_path-Cleans :
    (fs : FileSystem) (path : FilePath) (c : PageCache) → Cleans c (retry_path fs path c)
unfolding retry_path
retry_path-Cleans fs path c = elim (Option-cases (Pending.lookup path c.pending)) [
  | inl h ↦ rw (h, retry_path) (Cleans-refl c)
  | inr (bytes, h) ↦
      rw (h, retry_path)
        (elim (Bool-cases (owned_directory c.root path job_prefix && fs.remove_all path)) [
          | inl gone ↦ rw gone (settled-Cleans c path h)
          | inr stays ↦ rw stays (Cleans-refl c)
        ])
]

retry_paths-Cleans :
    (fs : FileSystem) (paths : List FilePath) (c : PageCache) → Cleans c (retry_paths fs paths c)
unfolding retry_paths
retry_paths-Cleans fs [] c = Cleans-refl c
retry_paths-Cleans fs (p ∷ paths) c =
    Cleans-trans (retry_path-Cleans fs p c) (retry_paths-Cleans fs paths (retry_path fs p c))

pub retry_pending_locked-Cleans :
    (fs : FileSystem) (c : PageCache) → Cleans c (retry_pending_locked fs c)
unfolding retry_pending_locked
retry_pending_locked-Cleans fs c = retry_paths-Cleans fs (map (λ p. p.0) c.pending) c

module _ {held : ℤ} (fs : FileSystem) where
  pub sweep_entries-Cleans :
      (now : ℕ) (es : List CacheEntry) (c : PageCache)
      → IsAccounted held c
      → Cleans c (sweep_entries fs now es c)
  unfolding sweep_entries
  sweep_entries-Cleans now [] c v = Cleans-refl c
  sweep_entries-Cleans now (e ∷ es) c v =
      let step =
        Cleans-if (e.retired || expired e now) (remove_locked-Cleans fs c e.key v.unique)
          (Cleans-refl c) in
      Cleans-trans step (sweep_entries-Cleans now es _ (step.accounted held v))

  pub sweep_locked-Cleans :
      (now : ℕ) (c : PageCache) → IsAccounted held c → Cleans c (sweep_locked fs now c)
  unfolding sweep_locked
  sweep_locked-Cleans now c v =
      let first = retry_pending_locked-Cleans fs c in
      Cleans-trans first
        (sweep_entries-Cleans now (retry_pending_locked fs c).entries _ (first.accounted held v))

  pub sweep-Cleans : (now : ℕ) (c : PageCache) → IsAccounted held c → Cleans c (sweep fs now c)
  unfolding sweep
  sweep-Cleans now c v = Cleans-if c.closed (Cleans-refl c) (sweep_locked-Cleans now c v)

  pub remove_entries-Cleans :
      (es : List CacheEntry) (c : PageCache)
      → IsAccounted held c
      → Cleans c (remove_entries fs es c)
  unfolding remove_entries
  remove_entries-Cleans [] c v = Cleans-refl c
  remove_entries-Cleans (e ∷ es) c v =
      let step = remove_locked-Cleans fs c e.key v.unique in
      Cleans-trans step (remove_entries-Cleans es _ (step.accounted held v))
