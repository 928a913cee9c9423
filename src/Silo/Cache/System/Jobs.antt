-- ===== src/Silo/Cache/System/Jobs.antt =====
-- Lemmas on the steps that reserve, commit and release in the cache of internal/silo/cache.go.
use mathlib.Core.Path.{subst}
use bloem_community_crowquil.Prelude.{
  ℕ, ◌+◌, ◌≤◌, ◌≡◌, refl, ◌∙◌, sym, ap, true, false, Bytes, Bytes-discrete, FilePath,
  FilePath-discrete, List, [], ◌∷◌, ◌++◌, Option, none, some, All, arith,
}
use bloem_community_crowquil.Prelude.Int.{ℤ, pos, ◌+ℤ◌, ◌-ℤ◌, ◌≤ℤ◌, not_ltb_ℤ→≤ℤ, -ℤ_parts}
use bloem_community_crowquil.Silo.Cache.State.{
  FileSystem, CacheEntry, PageHandle, CacheReservation, PageCache,
}
use bloem_community_crowquil.Silo.Cache.Entries.{find, insert}
use bloem_community_crowquil.Silo.Cache.Entries.Laws
use bloem_community_crowquil.Silo.Cache.Pending
use bloem_community_crowquil.Silo.Cache.Invariant.{IsAccounted, active_of}
use bloem_community_crowquil.Silo.Cache.Commit
use bloem_community_crowquil.Silo.Cache.Commit.{ReportedPage, Commit, new_entry, published}
use bloem_community_crowquil.Silo.Cache.Commit.Publish.{
  Committed, refused, done, commit-Committed, commit-total, published-IsAccounted,
}
use bloem_community_crowquil.Silo.Cache.Evict
use bloem_community_crowquil.Silo.Cache.Evict.{is_over}
use bloem_community_crowquil.Silo.Cache.Evict.Laws.{
  charge, charge-IsAccounted, Reserved, out_of_range, is_closed, too_many_pending, no_room, granted,
  reserve-Reserved, release-IsAccounted, release-entries, release-pending, IsFresh-of,
}
use bloem_community_crowquil.Silo.Cache.System.{System, claims, pending_claims, push, IsUnclaimed}
use bloem_community_crowquil.Silo.Cache.System.Counts.{
  held, held-middle, claim, claims-middle, All-middle, All-insert,
}
use bloem_community_crowquil.Silo.Cache.System.Sound.{IsPinned, IsBacked, IsSound, Cleans-IsSound}

-- A charge leaves what the handles and the job directories see.
charge-IsSound :
    {s : System} (bytes : ℤ)
    → pos 0 ≤ℤ bytes
    → is_over bytes s.cache ≡ false
    → IsSound s
    → IsSound (record s {
      cache = charge bytes s.cache;
      reservations =
          record { bytes = bytes; job_dir = none; committed = false; used = false }
          ∷ s.reservations;
    })
unfolding held claims
charge-IsSound {s} bytes h fits v = record {
  accounted = charge-IsAccounted bytes s.cache fits v.accounted;
  backed = ((h, refl), v.backed);
  claimed = λ p. omega (arith, v.claimed p);
  counted = v.counted;
  pinned = v.pinned;
}

pub reserve-IsSound :
    {s : System} (fs : FileSystem) (bytes : ℤ) (now : ℕ)
    → IsSound s
    → IsSound (record s {
      cache = (Evict.reserve fs bytes now s.cache).0;
      reservations = push (Evict.reserve fs bytes now s.cache).1 s.reservations;
    })
reserve-IsSound {s} fs bytes now v = by_answer (reserve-Reserved fs bytes now s.cache v.accounted)
  where
    by_answer :
        {a : PageCache × Option CacheReservation}
        → Reserved fs bytes s.cache a
        → IsSound (record s { cache = a.0; reservations = push a.1 s.reservations })
    by_answer (out_of_range h) = v
    by_answer (is_closed h) = v
    by_answer (too_many_pending cleans h) = Cleans-IsSound cleans v
    by_answer (no_room cleans h o) = Cleans-IsSound cleans v
    by_answer (granted {d} h o cleans fits) =
        charge-IsSound {s = record s { cache = d }} bytes (ground arith) fits
          (Cleans-IsSound cleans v)

pub open_job-IsSound :
    {s : System} (front : List CacheReservation) (r : CacheReservation)
    (back : List CacheReservation) (path : FilePath)
    → s.reservations ≡ front ++ r ∷ back
    → r.job_dir ≡ none
    → IsUnclaimed path s
    → IsSound s
    → IsSound (record s { reservations = front ++ record r { job_dir = some path } ∷ back })
open_job-IsSound {s} front r back path e no_dir new v =
    let r' = record r { job_dir = some path } in
    let same : held (front ++ r' ∷ back) ≡ held s.reservations =
      held-middle front r' back ∙ sym (ap held e ∙ held-middle front r back) in
    let (b, rest) = All-middle IsBacked front r back (rw e at v.backed) in
    record {
      accounted = rw same v.accounted;
      backed = All-insert IsBacked front r' back b rest;
      claimed = λ p.
          let before : claims p s.reservations ≡ claim p r + claims p (front ++ back) =
            ap (claims p) e ∙ claims-middle p front r back in
          elim (FilePath-discrete path p) [
            | yes q ↦
                let new' : IsUnclaimed p s = subst (λ z. IsUnclaimed z s) q new in
                rw (claims-middle p front r' back) (ground (arith, before, new'))
            | no q ↦ rw (claims-middle p front r' back) (ground (arith, before, v.claimed p))
          ];
      counted = v.counted;
      pinned = v.pinned;
    }

-- A refused commit leaves the list of reservations as it was.
refused-IsSound :
    {s : System} (front : List CacheReservation) (r : CacheReservation)
    (back : List CacheReservation)
    → s.reservations ≡ front ++ r ∷ back
    → IsSound s
    → IsSound (record s { reservations = front ++ r ∷ back })
refused-IsSound {s} front r back e v = record {
  accounted = rw e at v.accounted;
  backed = rw e at v.backed;
  claimed = λ p. rw e at (v.claimed p);
  counted = v.counted;
  pinned = v.pinned;
}

active_of-insert :
    (e : CacheEntry) (k : Bytes) (es : List CacheEntry)
    → e.active ≡ 0
    → find e.key es ≡ none
    → active_of k (insert e es) ≡ active_of k es
unfolding insert find
active_of-insert e k es idle absent = elim (Bytes-discrete e.key k) [
  | yes p ↦ let absent' : find k es ≡ none = rw p at absent in ground arith
  | no p ↦ rw (Laws.delete_absent e.key es absent) (ground arith)
]

IsPinned-insert :
    (e : CacheEntry) (es : List CacheEntry)
    → find e.key es ≡ none
    → (h : PageHandle) → IsPinned es h
    → IsPinned (insert e es) h
unfolding insert find
IsPinned-insert e es absent h (x, found, same) = elim (Bytes-discrete e.key h.key) [
  | yes p ↦ absurd (let absent' : find h.key es ≡ none = rw p at absent in cc)
  | no p ↦ (x, ground (arith, Laws.delete_absent e.key es absent), same)
]

All-IsPinned-insert :
    (e : CacheEntry) (es : List CacheEntry)
    → find e.key es ≡ none
    → (hs : List PageHandle) → All (IsPinned es) hs
    → All (IsPinned (insert e es)) hs
All-IsPinned-insert e es absent [] p = tt
All-IsPinned-insert e es absent (h ∷ hs) p =
    (IsPinned-insert e es absent h p.0, All-IsPinned-insert e es absent hs p.1)

-- A published entry: the charge moves, and no handle notices.
published-IsSound :
    {s : System} (front : List CacheReservation) (r : CacheReservation)
    (back : List CacheReservation) (e : CacheEntry)
    → s.reservations ≡ front ++ r ∷ back
    → pos 1 ≤ℤ e.total
    → e.total ≤ℤ r.bytes
    → e.active ≡ 0
    → find e.key s.cache.entries ≡ none
    → IsSound s
    → IsSound (record s {
      cache = (published s.cache r e).0;
      reservations = front ++ (published s.cache r e).1 ∷ back;
    })
published-IsSound {s} front r back e eq one fits idle absent v =
    let r' = record r { bytes = r.bytes -ℤ e.total; committed = true } in
    let (b, rest) = All-middle IsBacked front r back (rw eq at v.backed) in
    let before : IsAccounted (held (front ++ back) +ℤ r.bytes) s.cache =
      rw (← held-middle front r back, ← eq) v.accounted in
    record {
      accounted =
          rw (held-middle front r' back)
            (published-IsAccounted (held (front ++ back)) s.cache r e one absent before);
      backed =
          All-insert IsBacked front r' back (omega (arith, -ℤ_parts r.bytes e.total), b.1) rest;
      claimed = λ p.
          let same : claims p s.reservations ≡ claim p r + claims p (front ++ back) =
            ap (claims p) eq ∙ claims-middle p front r back in
          rw (claims-middle p front r' back) (omega (arith, same, v.claimed p));
      counted = λ k. active_of-insert e k s.cache.entries idle absent ∙ v.counted k;
      pinned = All-IsPinned-insert e s.cache.entries absent s.handles v.pinned;
    }

pub commit-IsSound :
    {s : System} (fs : FileSystem) (front : List CacheReservation) (r : CacheReservation)
    (back : List CacheReservation) (key fingerprint : Bytes) (output_dir : FilePath)
    (pages : List ReportedPage) (now : ℕ)
    → s.reservations ≡ front ++ r ∷ back
    → IsSound s
    → IsSound (record s {
      cache = (Commit.commit fs s.cache r key fingerprint output_dir pages now).0;
      reservations =
          front ++ (Commit.commit fs s.cache r key fingerprint output_dir pages now).1 ∷ back;
    })
commit-IsSound {s} fs front r back key fingerprint output_dir pages now eq v =
    by_answer (commit-Committed fs s.cache r key fingerprint output_dir pages now v.accounted)
  where
    by_answer :
        {a : Commit}
        → Committed fs s.cache r key fingerprint output_dir pages now a
        → IsSound (record s { cache = a.0; reservations = front ++ a.1 ∷ back })
    by_answer (refused {d} why cleans) =
        refused-IsSound {s = record s { cache = d }} front r back eq (Cleans-IsSound cleans v)
    by_answer (done {d} {conv} {total} cleans o n h fits k absent kept) =
        published-IsSound {s = record s { cache = d }} front r back
          (new_entry d key fingerprint now conv total) eq (commit-total fs output_dir pages n h).0
          (not_ltb_ℤ→≤ℤ r.bytes total fits) refl absent (Cleans-IsSound cleans v)

-- The reservation leaves the list; its job directory is gone, or pending in its place.
freed-IsSound :
    {s : System} (front : List CacheReservation) (r : CacheReservation)
    (back : List CacheReservation) (d : PageCache)
    → s.reservations ≡ front ++ r ∷ back
    → d.entries ≡ s.cache.entries
    → ((p : FilePath) → pending_claims p d.pending ≤ claim p r + pending_claims p s.cache.pending)
    → IsAccounted (held (front ++ back)) d
    → IsSound s
    → IsSound (record s { cache = d; reservations = front ++ back })
freed-IsSound {s} front r back d eq same claims_le accounted v = record {
  accounted = accounted;
  backed = (All-middle IsBacked front r back (rw eq at v.backed)).1;
  claimed = λ p.
      let split : claims p s.reservations ≡ claim p r + claims p (front ++ back) =
        ap (claims p) eq ∙ claims-middle p front r back in
      omega (arith, split, v.claimed p, claims_le p);
  counted = λ k. ap (active_of k) same ∙ v.counted k;
  pinned = rw same v.pinned;
}

release-claims :
    (fs : FileSystem) (c : PageCache) (r : CacheReservation) (p : FilePath)
    → pending_claims p (Evict.release fs c r).0.pending ≤ claim p r + pending_claims p c.pending
release-claims fs c r p = ground (arith, release-pending fs c r p)

pub free-IsSound :
    {s : System} (fs : FileSystem) (front : List CacheReservation) (r : CacheReservation)
    (back : List CacheReservation)
    → s.reservations ≡ front ++ r ∷ back
    → IsSound s
    → IsSound (record s { cache = (Evict.release fs s.cache r).0; reservations = front ++ back })
free-IsSound {s} fs front r back eq v =
    let (b, rest) = All-middle IsBacked front r back (rw eq at v.backed) in
    let before : IsAccounted (held (front ++ back) +ℤ r.bytes) s.cache =
      rw (← held-middle front r back, ← eq) v.accounted in
    freed-IsSound front r back (Evict.release fs s.cache r).0 eq (release-entries fs s.cache r)
      (release-claims fs s.cache r)
      (release-IsAccounted fs s.cache r b.1 b.0 (IsFresh-of r.job_dir s.cache fresh) before) v
  where
    fresh : (p : FilePath) → r.job_dir ≡ some p → Pending.lookup p s.cache.pending ≡ none
    fresh p dir =
        let split : claims p s.reservations ≡ claim p r + claims p (front ++ back) =
          ap (claims p) eq ∙ claims-middle p front r back in
        ground (arith, split, v.claimed p)
