-- ===== src/Silo/Runtime/Start.antt =====
-- Lemmas on the outcomes of `getOrStartJob` of internal/silo/backend.go.
use bloem_community_crowquil.Prelude.{
  ℕ, suc, ◌+◌, ◌≡◌, refl, true, false, Bytes, ◌∷◌, Option, none, some, if_cases,
}
use bloem_community_crowquil.Archive.Limits.{Limits}
use bloem_community_crowquil.Silo.Requests.{ApiError}
use bloem_community_crowquil.Silo.Cache.State.{FileSystem, CacheReservation}
use bloem_community_crowquil.Silo.Runtime.{
  Runtime, Started, stopped, joined, refused, started, find_job, extractor_busy, cache_full,
  reserve_for, start_job, get_or_start_job,
}

module _ (fs : FileSystem) (limits : Limits) (now : ℕ) (key : Bytes) (r : Runtime) where
  abbrev pub with_job : CacheReservation → Runtime × Started
  with_job reserved = (
    record r {
      cache = (reserve_for fs limits now r.cache).0;
      jobs = (key, r.next_job) ∷ r.jobs;
      extract = true;
      wg = r.wg + 1;
      next_job = suc r.next_job;
    },
    started r.next_job reserved,
  )

  pub start_cases {κ} :
      (P : Runtime × Started → Type κ)
      → P (r, stopped)
      → ((job : ℕ) → P (r, joined job))
      → ((e : ApiError) → P (r, refused e))
      → ((e : ApiError)
          → (reserve_for fs limits now r.cache).1 ≡ none
          → P (record r { cache = (reserve_for fs limits now r.cache).0 }, refused e))
      → ((reserved : CacheReservation)
          → r.extract ≡ false
          → find_job key r.jobs ≡ none
          → (reserve_for fs limits now r.cache).1 ≡ some reserved
          → P (with_job reserved))
      → P (get_or_start_job fs limits now key r)
  unfolding get_or_start_job start_job
  start_cases P is_stopped is_joined is_busy is_full is_new =
      if_cases P r.stopping (λ b. is_stopped) (λ b. by_job (find_job key r.jobs) refl)
    where
      by_reservation :
          r.extract ≡ false
          → find_job key r.jobs ≡ none
          → (o : Option CacheReservation) → (reserve_for fs limits now r.cache).1 ≡ o
          → P (elim o [
            | none ↦
                (record r { cache = (reserve_for fs limits now r.cache).0 }, refused cache_full)
            | some reserved ↦ with_job reserved
          ])
      by_reservation free new none h = is_full cache_full h
      by_reservation free new (some reserved) h = is_new reserved free new h

      by_job :
          (o : Option ℕ)
          → find_job key r.jobs ≡ o
          → P (elim o [ none ↦ start_job fs limits now key r | some job ↦ (r, joined job) ])
      by_job none new =
          if_cases P r.extract (λ b. is_busy extractor_busy)
            (λ free. by_reservation free new (reserve_for fs limits now r.cache).1 refl)
      by_job (some job) h = is_joined job
