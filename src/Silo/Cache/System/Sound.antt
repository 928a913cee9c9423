-- ===== src/Silo/Cache/System/Sound.antt =====
-- The invariant of the cache of internal/silo/cache.go with its callers.
use bloem_community_crowquil.Prelude.{
  ◌+◌, ◌≤◌, ◌<◌, ◌≡◌, ◌∙◌, false, Bytes, Bytes-discrete, FilePath, List, [], ◌∷◌, some, All, inl,
  inr, arith, Option-cases,
}
use bloem_community_crowquil.Prelude.Int.{pos, ◌≤ℤ◌}
use bloem_community_crowquil.Silo.Cache.State.{CacheEntry, PageHandle, CacheReservation, PageCache}
use bloem_community_crowquil.Silo.Cache.Entries.{find, update}
use bloem_community_crowquil.Silo.Cache.Entries.Laws
use bloem_community_crowquil.Silo.Cache.Entries.Laws.{KeepsCharge}
use bloem_community_crowquil.Silo.Cache.Pending.{lookup}
use bloem_community_crowquil.Silo.Cache.Invariant.{IsAccounted, active_of, Cleans}
use bloem_community_crowquil.Silo.Cache.System.{System, claims, pending_claims}
use bloem_community_crowquil.Silo.Cache.System.Counts.{held, holds}

-- The entry that a handle points to is still the one that the map holds under its key.
abbrev pub IsPinned : List CacheEntry → PageHandle → Type 0
IsPinned es h = (e : CacheEntry) × (find h.key es ≡ some e) × (e.serial ≡ h.serial)

abbrev pub IsBacked : CacheReservation → Type 0
IsBacked r = (pos 0 ≤ℤ r.bytes) × (r.used ≡ false)

pub record IsSound (s : System) : Type 0 where
  pub accounted : IsAccounted (held s.reservations) s.cache
  pub backed : All IsBacked s.reservations
  pub claimed : (p : FilePath) → claims p s.reservations + pending_claims p s.cache.pending ≤ 1
  pub counted : (k : Bytes) → active_of k s.cache.entries ≡ holds k s.handles
  pub pinned : All (IsPinned s.cache.entries) s.handles

-- A pinned entry survives what keeps the entries that are in use.
module _ (c d : PageCache) (cleans : Cleans c d) where
  IsPinned-Cleans :
      (h : PageHandle) → 0 < active_of h.key c.entries → IsPinned c.entries h → IsPinned d.entries h
  IsPinned-Cleans h busy (e, found, same) =
      let (b, kept) = cleans.kept h.key e found (ground arith) in
      (record e { retired = b }, kept, same)

  All-IsPinned-Cleans :
      (hs : List PageHandle)
      → ((k : Bytes) → holds k hs ≤ active_of k c.entries)
      → All (IsPinned c.entries) hs
      → All (IsPinned d.entries) hs
  unfolding holds
  All-IsPinned-Cleans [] n p = tt
  All-IsPinned-Cleans (h ∷ hs) n p = (
    IsPinned-Cleans h (ground (arith, n h.key)) p.0,
    All-IsPinned-Cleans hs (λ k. omega (arith, n k)) p.1,
  )

  pending_claims-Cleans : (p : FilePath) → pending_claims p d.pending ≤ pending_claims p c.pending
  pending_claims-Cleans p = elim (Option-cases (lookup p c.pending)) [
    | inl h ↦ ground (arith, cleans.settled p h)
    | inr (b, h) ↦ ground arith
  ]

pub Cleans-IsSound :
    {s : System} {d : PageCache} → Cleans s.cache d → IsSound s → IsSound (record s { cache = d })
Cleans-IsSound {s} {d} cleans v = record {
  accounted = cleans.accounted (held s.reservations) v.accounted;
  backed = v.backed;
  claimed = λ p. omega (arith, v.claimed p, pending_claims-Cleans s.cache d cleans p);
  counted = λ k. cleans.active k ∙ v.counted k;
  pinned =
      All-IsPinned-Cleans s.cache d cleans s.handles (λ k. omega (arith, v.counted k)) v.pinned;
}

-- A write that keeps serial numbers keeps every handle pinned.
module _ (f : CacheEntry → CacheEntry) (keeps : KeepsCharge f)
    (same_serial : (e : CacheEntry) → (f e).serial ≡ e.serial) (key : Bytes)
    (es : List CacheEntry) where
  IsPinned-update : (h : PageHandle) → IsPinned es h → IsPinned (update key f es) h
  IsPinned-update h (e, found, same) = elim (Bytes-discrete h.key key) [
    | yes p ↦
        (f e, rw p (Laws.find-update_self f keeps key es (rw p at found)), same_serial e ∙ same)
    | no p ↦ (e, Laws.find-update_ne f keeps key h.key es p ∙ found, same)
  ]

  pub All-IsPinned-update :
      (hs : List PageHandle) → All (IsPinned es) hs → All (IsPinned (update key f es)) hs
  All-IsPinned-update [] p = tt
  All-IsPinned-update (h ∷ hs) p = (IsPinned-update h p.0, All-IsPinned-update hs p.1)
