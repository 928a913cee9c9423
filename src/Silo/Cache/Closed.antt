-- ===== src/Silo/Cache/Closed.antt =====
-- Lemmas on what the operations of internal/silo/cache.go leave of the flag that a cache is closed.
use bloem_community_crowquil.Prelude.{
  ℕ, zero, suc, ◌≡◌, refl, Bytes, FilePath, List, Option, none, some, Option-cases, Bool-cases,
  length, Result-cases, inl, inr, arith,
}
use bloem_community_crowquil.Prelude.Int.{ℤ, pos}
use bloem_community_crowquil.Silo.Cache.State.{
  FileSystem, CachedPage, CacheReservation, PageHandle, PageCache,
}
use bloem_community_crowquil.Silo.Cache.Remove.{remove_locked}
use bloem_community_crowquil.Silo.Cache.Remove.Laws.{remove_locked-closed}
use bloem_community_crowquil.Silo.Cache.Sweep.{sweep_locked}
use bloem_community_crowquil.Silo.Cache.Sweep.Closed.{sweep_locked-closed}
use bloem_community_crowquil.Silo.Cache.Evict.{
  evict_rounds, evict_until_locked, oldest_from, is_over, reserve, release,
}
use bloem_community_crowquil.Silo.Cache.Lookup
use bloem_community_crowquil.Silo.Cache.Commit.{
  ReportedPage, publish, commit_locked, after_convert, commit, convert_pages,
}

module _ (fs : FileSystem) where
  pub lookup-closed :
      (key : Bytes) (now : ℕ) (c : PageCache) → (Lookup.lookup fs key now c).0.closed ≡ c.closed
  unfolding Lookup.lookup
  lookup-closed key now c = ground (arith, remove_locked-closed fs c key)

  evict_rounds-closed :
      (rounds : ℕ) (incoming : ℤ) (c : PageCache)
      → (evict_rounds rounds fs incoming c).closed ≡ c.closed
  unfolding evict_rounds
  evict_rounds-closed zero incoming c = refl
  evict_rounds-closed (suc rounds) incoming c = elim (Bool-cases (is_over incoming c)) [
    | inr fits ↦ ground (arith, fits)
    | inl over ↦ elim (Option-cases (oldest_from none c.entries)) [
      | inl nothing ↦ ground (arith, over, nothing)
      | inr (e, found) ↦ ground (
        arith,
        over,
        found,
        evict_rounds-closed rounds incoming (remove_locked fs c e.key).0,
        remove_locked-closed fs c e.key,
      )
    ]
  ]

  pub reserve-closed :
      (bytes : ℤ) (now : ℕ) (c : PageCache) → (reserve fs bytes now c).0.closed ≡ c.closed
  unfolding reserve evict_until_locked
  reserve-closed bytes now c =
      let swept = sweep_locked fs now c in
      let same = sweep_locked-closed fs now c in
      let evicted = evict_rounds-closed (length swept.entries) bytes swept in
      ground (arith, same, evicted)

  pub release-closed : (c : PageCache) (r : CacheReservation) → (release fs c r).0.closed ≡ c.closed
  unfolding release
  release-closed c r = ground arith

  publish-closed :
      (c : PageCache) (r : CacheReservation) (key fingerprint : Bytes) (output_dir : FilePath)
      (now : ℕ) (converted : List CachedPage) (total : ℤ)
      → (publish fs c r key fingerprint output_dir now converted total).0.closed ≡ c.closed
  unfolding publish
  publish-closed c r key fingerprint output_dir now converted total = ground arith

  commit_locked-closed :
      (c : PageCache) (r : CacheReservation) (key fingerprint : Bytes) (output_dir : FilePath)
      (now : ℕ) (converted : List CachedPage) (total : ℤ)
      → (commit_locked fs c r key fingerprint output_dir now converted total).0.closed ≡ c.closed
  unfolding commit_locked
  commit_locked-closed c r key fingerprint output_dir now converted total =
      let d = (remove_locked fs c key).0 in
      ground (
        arith,
        publish-closed c r key fingerprint output_dir now converted total,
        publish-closed d r key fingerprint output_dir now converted total,
        remove_locked-closed fs c key,
      )

  pub commit-closed :
      (c : PageCache) (r : CacheReservation) (key fingerprint : Bytes) (output_dir : FilePath)
      (pages : List ReportedPage) (now : ℕ)
      → (commit fs c r key fingerprint output_dir pages now).0.closed ≡ c.closed
  unfolding commit after_convert
  commit-closed c r key fingerprint output_dir pages now =
      elim (Result-cases (convert_pages fs output_dir (pos 0) pages)) [
        | inl (e, failed) ↦ ground (arith, failed)
        | inr ((converted, total), made) ↦
            ground
              (arith, made, commit_locked-closed c r key fingerprint output_dir now converted total)
      ]

pub release_handle-closed :
    (h : Option PageHandle) (c : PageCache) → (Lookup.release h c).0.closed ≡ c.closed
unfolding Lookup.release
release_handle-closed none c = refl
release_handle-closed (some h) c = refl
