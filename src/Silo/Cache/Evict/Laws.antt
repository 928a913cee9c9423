-- ===== src/Silo/Cache/Evict/Laws.antt =====
-- Lemmas on `reserve` and the reservation's `release` of internal/silo/cache.go.
use bloem_community_crowquil.Prelude.{
  ℕ, ◌≡◌, ◌≢◌, refl, ap, ◌∙◌, sym, true, false, not, ◌||◌, FilePath, Option, none, some, arith,
  if_cases, leb, length,
}
use bloem_community_crowquil.Prelude.Int.{
  ℤ, pos, ◌+ℤ◌, ◌-ℤ◌, ◌≤ℤ◌, ltb_ℤ, +ℤ_right_comm, +ℤ_cancel_middle, +ℤ_assoc, +ℤ-pos_zero,
  not_ltb_ℤ→≤ℤ, ≤ℤ_assoc, refund_right,
}
use bloem_community_crowquil.Silo.Cache.State.{
  FileSystem, CacheReservation, PageCache, owned_directory, job_prefix, max_pending_cleanup,
}
use bloem_community_crowquil.Silo.Cache.Pending
use bloem_community_crowquil.Silo.Cache.Pending.{pending_total, AreOwed}
use bloem_community_crowquil.Silo.Cache.Invariant.{IsAccounted, Cleans, Cleans-trans}
use bloem_community_crowquil.Silo.Cache.Sweep.{sweep_locked}
use bloem_community_crowquil.Silo.Cache.Sweep.Laws.{sweep_locked-Cleans}
use bloem_community_crowquil.Silo.Cache.Evict.{
  is_over, evict_until_locked, reserve, release_dir, release,
}
use bloem_community_crowquil.Silo.Cache.Evict.Rounds.{
  HasRoom, evict_until_locked-Cleans, evict_until_locked-HasRoom,
}

-- The cache with `bytes` more in reservations.
abbrev pub charge : ℤ → PageCache → PageCache
charge bytes c = record c { reserved = c.reserved +ℤ bytes }

-- What `reserve` can answer: a refusal after some cleanup, for a reason, or a charge that fits.
pub data Reserved (fs : FileSystem) (bytes : ℤ) (c : PageCache)
    : PageCache × Option CacheReservation → Type 0 where
  out_of_range :
      (ltb_ℤ bytes (pos 1) || ltb_ℤ c.max_bytes bytes) ≡ true → Reserved fs bytes c (c, none)
  is_closed : c.closed ≡ true → Reserved fs bytes c (c, none)
  too_many_pending :
      {d : PageCache}
      → Cleans c d
      → leb max_pending_cleanup (length d.pending) ≡ true
      → Reserved fs bytes c (d, none)
  no_room :
      {d : PageCache}
      → Cleans c d
      → HasRoom bytes d
      → is_over bytes d ≡ true
      → Reserved fs bytes c (d, none)
  granted :
      {d : PageCache}
      → (ltb_ℤ bytes (pos 1) || ltb_ℤ c.max_bytes bytes) ≡ false
      → c.closed ≡ false
      → Cleans c d
      → is_over bytes d ≡ false
      → Reserved fs bytes c (
        charge bytes d,
        some (record { bytes = bytes; job_dir = none; committed = false; used = false }),
      )

-- On a cache whose charges are accounted for, a reservation is refused because the bytes are out of
-- range, the cache is closed, too many removals are pending, or the bytes do not fit although the
-- eviction left no evictable entry; or it is granted, and then the bytes were in range, the cache
-- open, and the bytes fit after a cleanup.
pub reserve-Reserved :
    {held : ℤ} (fs : FileSystem) (bytes : ℤ) (now : ℕ) (c : PageCache)
    → IsAccounted held c
    → Reserved fs bytes c (reserve fs bytes now c)
unfolding reserve
reserve-Reserved {held} fs bytes now c v =
    if_cases P (ltb_ℤ bytes (pos 1) || ltb_ℤ c.max_bytes bytes) out_of_range λ in_range.
      if_cases P c.closed is_closed λ opened.
        if_cases P (leb max_pending_cleanup (length swept.pending)) (too_many_pending first) λ _.
          if_cases P (is_over bytes evicted)
            (no_room all (evict_until_locked-HasRoom fs bytes swept (first.accounted held v)))
            (granted in_range opened all)
  where
    P : PageCache × Option CacheReservation → Type 0
    P = Reserved fs bytes c

    swept : PageCache
    swept = sweep_locked fs now c

    first : Cleans c swept
    first = sweep_locked-Cleans fs now c v

    evicted : PageCache
    evicted = evict_until_locked fs bytes swept

    all : Cleans c evicted
    all = Cleans-trans first (evict_until_locked-Cleans fs bytes swept (first.accounted held v))

pub charge-IsAccounted :
    {held : ℤ} (bytes : ℤ) (c : PageCache)
    → is_over bytes c ≡ false
    → IsAccounted held c
    → IsAccounted (held +ℤ bytes) (charge bytes c)
unfolding is_over
charge-IsAccounted {held} bytes c fits v = record {
  used = v.used;
  reserved = rw v.reserved (+ℤ_right_comm held (pending_total c.pending) bytes);
  budget =
      ≤ℤ_assoc c.used_bytes c.reserved bytes c.max_bytes
        (not_ltb_ℤ→≤ℤ c.max_bytes (c.used_bytes +ℤ c.reserved +ℤ bytes) fits);
  charged = v.charged;
  owed = v.owed;
  unique = v.unique;
}

-- The bytes that the answer of `reserve` holds.
abbrev pub granted_bytes : Option CacheReservation → ℤ
granted_bytes none = pos 0
granted_bytes (some r) = r.bytes

hold_nothing : {held : ℤ} {c : PageCache} → IsAccounted held c → IsAccounted (held +ℤ pos 0) c
hold_nothing {held} v = rw (+ℤ-pos_zero held) v

-- A reservation keeps the cache accounted for, with the bytes that it granted held in addition.
pub reserve-IsAccounted :
    {held : ℤ} (fs : FileSystem) (bytes : ℤ) (now : ℕ) (c : PageCache)
    → IsAccounted held c
    → let (d, answer) = reserve fs bytes now c in IsAccounted (held +ℤ granted_bytes answer) d
reserve-IsAccounted {held} fs bytes now c v = by_answer (reserve-Reserved fs bytes now c v)
  where
    by_answer :
        {a : PageCache × Option CacheReservation}
        → Reserved fs bytes c a
        → IsAccounted (held +ℤ granted_bytes a.1) a.0
    by_answer (out_of_range h) = hold_nothing v
    by_answer (is_closed h) = hold_nothing v
    by_answer (too_many_pending s h) = hold_nothing (s.accounted held v)
    by_answer (no_room s h o) = hold_nothing (s.accounted held v)
    by_answer (granted {d} h o s fits) = charge-IsAccounted bytes d fits (s.accounted held v)

-- The two ends of a reservation.
refunded-IsAccounted :
    {held : ℤ} (bytes : ℤ) (c : PageCache)
    → pos 0 ≤ℤ bytes
    → IsAccounted (held +ℤ bytes) c
    → IsAccounted held (record c { reserved = c.reserved -ℤ bytes })
refunded-IsAccounted {held} bytes c h v = record {
  used = v.used;
  reserved = rw v.reserved (+ℤ_cancel_middle held bytes (pending_total c.pending));
  budget = refund_right c.used_bytes c.reserved bytes c.max_bytes h v.budget;
  charged = v.charged;
  owed = v.owed;
  unique = v.unique;
}

deferred-IsAccounted :
    {held : ℤ} (path : FilePath) (bytes : ℤ) (c : PageCache)
    → pos 0 ≤ℤ bytes
    → Pending.lookup path c.pending ≡ none
    → IsAccounted (held +ℤ bytes) c
    → IsAccounted held (record c { pending = Pending.put path bytes c.pending })
unfolding Pending.put Pending.pending_total
deferred-IsAccounted {held} path bytes c h fresh v = record {
  used = v.used;
  reserved =
      rw (Pending.delete_absent path c.pending fresh)
        (v.reserved ∙ +ℤ_assoc held bytes (pending_total c.pending));
  budget = v.budget;
  charged = v.charged;
  owed = rw (Pending.delete_absent path c.pending fresh) (h, v.owed);
  unique = v.unique;
}

-- The job directory of a reservation is a new one: nothing pending has its path.
abbrev pub IsFresh : Option FilePath → PageCache → Type 0
IsFresh none c = Unit {0}
IsFresh (some path) c = Pending.lookup path c.pending ≡ none

-- On a cache that is accounted for, the release of an unused reservation of non-negative bytes,
-- whose job directory is not already pending, leaves the cache accounted for without the
-- reservation's bytes: they are free again, or pending with the directory that could not be
-- removed.
pub release-IsAccounted :
    {held : ℤ} (fs : FileSystem) (c : PageCache) (r : CacheReservation)
    → r.used ≡ false
    → pos 0 ≤ℤ r.bytes
    → IsFresh r.job_dir c
    → IsAccounted (held +ℤ r.bytes) c
    → IsAccounted held (release fs c r).0
unfolding release release_dir
release-IsAccounted {held} fs c r unused h fresh v =
    if_cases (λ (a : PageCache × CacheReservation). IsAccounted held a.0) r.used (λ used. cc)
      λ _. by_dir r.job_dir fresh
  where
    by_dir :
        (o : Option FilePath)
        → IsFresh o c
        → IsAccounted held (release_dir fs c (record r { job_dir = o }))
    by_dir none f = refunded-IsAccounted r.bytes c h v
    by_dir (some path) f =
        if_cases (IsAccounted held)
          (not (owned_directory c.root path job_prefix) || not (fs.remove_all path))
          (λ _. deferred-IsAccounted path r.bytes c h f v) (λ _. refunded-IsAccounted r.bytes c h v)

-- `release` leaves the entries alone, and puts no directory on the pending list but the job's.
pub release-entries :
    (fs : FileSystem) (c : PageCache) (r : CacheReservation)
    → (release fs c r).0.entries ≡ c.entries
unfolding release release_dir
release-entries fs c r = ground arith

pub release-pending :
    (fs : FileSystem) (c : PageCache) (r : CacheReservation) (q : FilePath)
    → r.job_dir ≢ some q
    → Pending.lookup q c.pending ≡ none
    → Pending.lookup q (release fs c r).0.pending ≡ none
unfolding release release_dir
release-pending fs c r q other h =
    if_cases (λ (a : PageCache × CacheReservation). Pending.lookup q a.0.pending ≡ none) r.used
      (λ _. h) λ _. by_dir r.job_dir other
  where
    by_dir :
        (o : Option FilePath)
        → o ≢ some q
        → Pending.lookup q (release_dir fs c (record r { job_dir = o })).pending ≡ none
    by_dir none n = h
    by_dir (some path) n =
        if_cases (λ (d : PageCache). Pending.lookup q d.pending ≡ none)
          (not (owned_directory c.root path job_prefix) || not (fs.remove_all path))
          (λ _. Pending.lookup-put path q r.bytes c.pending (λ e. n (ap some (sym e))) h) (λ _. h)

pub IsFresh-of :
    (o : Option FilePath) (c : PageCache)
    → ((p : FilePath) → o ≡ some p → Pending.lookup p c.pending ≡ none)
    → IsFresh o c
IsFresh-of none c h = tt
IsFresh-of (some p) c h = h p refl

pub release-max_bytes :
    (fs : FileSystem) (c : PageCache) (r : CacheReservation)
    → (release fs c r).0.max_bytes ≡ c.max_bytes
unfolding release release_dir
release-max_bytes fs c r = ground arith
