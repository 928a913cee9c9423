-- ===== src/Silo/Cache/Sweep/Expiry.antt =====
-- Lemmas on the entries that `sweepLocked` of internal/silo/cache.go visits.
use mathlib.Core.Path.{subst}
use bloem_community_crowquil.Prelude.{
  ℕ, ◌≡◌, ◌≢◌, refl, ◌∙◌, sym, Bool, true, false, ◌||◌, Bytes, Bytes-discrete, FilePath, map, List,
  [], ◌∷◌, none, some, arith, if_cases, if◌then◌else◌,
}
use bloem_community_crowquil.Prelude.Int.{ℤ}
use bloem_community_crowquil.Silo.Cache.State.{
  FileSystem, CacheEntry, PageCache, owned_directory, entry_prefix, expired,
}
use bloem_community_crowquil.Silo.Cache.Entries.{find, update, retire, HasUniqueKeys}
use bloem_community_crowquil.Silo.Cache.Entries.Laws
use bloem_community_crowquil.Silo.Cache.Invariant.{IsAccounted, Cleans, Cleans-refl, Cleans-if}
use bloem_community_crowquil.Silo.Cache.Remove.{remove_locked}
use bloem_community_crowquil.Silo.Cache.Remove.Laws.{
  Outcome, missing, kept, dropped, remove_locked-Outcome, remove_locked-Cleans,
  remove_locked-absent, remove_locked-succeeds, retire-KeepsCharge,
}
use bloem_community_crowquil.Silo.Cache.Sweep.{
  retry_path, retry_paths, retry_pending_locked, sweep_entries, sweep_locked,
}
use bloem_community_crowquil.Silo.Cache.Sweep.Laws.{
  sweep_entries-Cleans, retry_pending_locked-Cleans,
}

-- Removal under one key leaves the entries under all others.
find-remove_ne :
    (fs : FileSystem) (c : PageCache) (key k : Bytes)
    → k ≢ key
    → find k (remove_locked fs c key).0.entries ≡ find k c.entries
find-remove_ne fs c key k ne = by_outcome (remove_locked-Outcome fs c key)
  where
    by_outcome : {r : PageCache × Bool} → Outcome fs c key r → find k r.0.entries ≡ find k c.entries
    by_outcome (missing h) = refl
    by_outcome (kept h) = Laws.find-update_ne retire retire-KeepsCharge key k c.entries ne
    by_outcome (dropped h idle gone) =
        Laws.find-delete_ne key k (update key retire c.entries) ne
        ∙ Laws.find-update_ne retire retire-KeepsCharge key k c.entries ne

-- The test by which the sweep chooses.
abbrev pub is_stale : ℕ → CacheEntry → Bool
is_stale now e = e.retired || expired e now

module _ (fs : FileSystem) (now : ℕ) (k : Bytes) where
  visit_ne :
      (x : CacheEntry) (c : PageCache)
      → k ≢ x.key
      → find k (if is_stale now x then (remove_locked fs c x.key).0 else c).entries
        ≡ find k c.entries
  visit_ne x c ne =
      if_cases (λ (d : PageCache). find k d.entries ≡ find k c.entries) (is_stale now x)
        (λ _. find-remove_ne fs c x.key k ne) (λ _. refl)

  sweep_entries-other :
      (es : List CacheEntry) (c : PageCache)
      → find k es ≡ none
      → find k (sweep_entries fs now es c).entries ≡ find k c.entries
  unfolding sweep_entries find
  sweep_entries-other [] c h = refl
  sweep_entries-other (x ∷ es) c h = elim (Bytes-discrete x.key k) [
    | yes p ↦ absurd (ground arith)
    | no p ↦
        sweep_entries-other es (if is_stale now x then (remove_locked fs c x.key).0 else c)
          (ground arith)
        ∙ visit_ne x c (λ e. p (sym e))
  ]

  -- An entry that is not stale is not touched.
  sweep_entries-keeps :
      (es : List CacheEntry) (c : PageCache) (e : CacheEntry)
      → HasUniqueKeys es
      → find k es ≡ some e
      → is_stale now e ≡ false
      → find k (sweep_entries fs now es c).entries ≡ find k c.entries
  unfolding sweep_entries find
  sweep_entries-keeps [] c e u h fresh = cc
  sweep_entries-keeps (x ∷ es) c e u h fresh = elim (Bytes-discrete x.key k) [
    | yes p ↦
        let same : x ≡ e = ground arith in
        let fresh' : is_stale now x ≡ false =
          subst (λ z. is_stale now z ≡ false) (sym same) fresh in
        let rest : find k es ≡ none = rw p at u.0 in
        sweep_entries-other es (if is_stale now x then (remove_locked fs c x.key).0 else c) rest
        ∙ if_cases (λ (d : PageCache). find k d.entries ≡ find k c.entries) (is_stale now x)
            (λ s. cc) (λ _. refl)
    | no p ↦
        sweep_entries-keeps es (if is_stale now x then (remove_locked fs c x.key).0 else c) e u.1
          (ground arith) fresh
        ∙ visit_ne x c (λ q. p (sym q))
  ]

  -- A stale entry that is idle goes, if its directory can be removed.
  sweep_entries-removes :
      (held : ℤ) (es : List CacheEntry) (c : PageCache) (e : CacheEntry)
      → IsAccounted held c
      → find k es ≡ some e
      → find k c.entries ≡ some e
      → is_stale now e ≡ true
      → e.active ≡ 0
      → owned_directory c.root e.root entry_prefix ≡ true
      → fs.remove_all e.root ≡ true
      → find k (sweep_entries fs now es c).entries ≡ none
  unfolding sweep_entries find
  sweep_entries-removes held [] c e v h f stale idle owned gone = cc
  sweep_entries-removes held (x ∷ es) c e v h f stale idle owned gone =
      let d = if is_stale now x then (remove_locked fs c x.key).0 else c in
      let step : Cleans c d =
        Cleans-if (is_stale now x) (remove_locked-Cleans fs c x.key v.unique) (Cleans-refl c) in
      elim (Bytes-discrete x.key k) [
        | yes p ↦
            let same : x ≡ e = ground arith in
            let stale' : is_stale now x ≡ true =
              subst (λ z. is_stale now z ≡ true) (sym same) stale in
            let rest = sweep_entries-Cleans fs now es d (step.accounted held v) in
            rest.absent k (
              if_cases (λ (b : PageCache). find k b.entries ≡ none) (is_stale now x)
                (λ _. rw p (
                  remove_locked-absent fs c k v.unique
                    (remove_locked-succeeds fs c k f idle owned gone)))
                (λ s. cc))
        | no p ↦
            sweep_entries-removes held es d e (step.accounted held v) (ground arith)
              (visit_ne x c (λ q. p (sym q)) ∙ f) stale idle
              (subst (λ z. owned_directory z e.root entry_prefix ≡ true) (sym step.settings.root)
                owned)
              gone
      ]

retry_paths-entries :
    (fs : FileSystem) (paths : List FilePath) (c : PageCache)
    → (retry_paths fs paths c).entries ≡ c.entries
unfolding retry_paths retry_path
retry_paths-entries fs [] c = refl
retry_paths-entries fs (p ∷ paths) c =
    retry_paths-entries fs paths (retry_path fs p c) ∙ ground arith

retry-entries : (fs : FileSystem) (c : PageCache) → (retry_pending_locked fs c).entries ≡ c.entries
unfolding retry_pending_locked
retry-entries fs c = retry_paths-entries fs (map (λ p. p.0) c.pending) c

module _ {held : ℤ} (fs : FileSystem) (now : ℕ) (c : PageCache) (k : Bytes) (e : CacheEntry)
    (v : IsAccounted held c) (found : find k c.entries ≡ some e) where
  found_later : find k (retry_pending_locked fs c).entries ≡ some e
  found_later = rw (retry-entries fs c) found

  -- On a cache that is accounted for, a sweep leaves an entry that is neither retired nor expired
  -- exactly as it was.
  pub sweep_locked-fresh : is_stale now e ≡ false → find k (sweep_locked fs now c).entries ≡ some e
  unfolding sweep_locked
  sweep_locked-fresh fresh =
      let d = retry_pending_locked fs c in
      let v' = (retry_pending_locked-Cleans fs c).accounted held v in
      sweep_entries-keeps fs now k d.entries d e v'.unique found_later fresh ∙ found_later

  -- On a cache that is accounted for, a sweep takes away an entry that is retired or expired, that
  -- no read uses, and whose directory is an owned one that can be removed.
  pub sweep_locked-stale :
      is_stale now e ≡ true
      → e.active ≡ 0
      → owned_directory c.root e.root entry_prefix ≡ true
      → fs.remove_all e.root ≡ true
      → find k (sweep_locked fs now c).entries ≡ none
  unfolding sweep_locked
  sweep_locked-stale stale idle owned gone =
      let d = retry_pending_locked fs c in
      let first = retry_pending_locked-Cleans fs c in
      sweep_entries-removes fs now k held d.entries d e (first.accounted held v) found_later
        found_later stale idle
        (subst (λ z. owned_directory z e.root entry_prefix ≡ true) (sym first.settings.root) owned)
        gone
