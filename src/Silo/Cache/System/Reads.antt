-- ===== src/Silo/Cache/System/Reads.antt =====
-- Lemmas on the steps that look up and release a handle in the cache of internal/silo/cache.go.
use bloem_community_crowquil.Prelude.{
  ℕ, ◌+◌, ◌<◌, ◌≡◌, refl, ◌∙◌, ap, Bytes, Bytes-discrete, List, [], ◌∷◌, ◌++◌, Option, some, ite,
  arith,
}
use bloem_community_crowquil.Silo.Cache.State.{FileSystem, CacheEntry, PageHandle, PageCache}
use bloem_community_crowquil.Silo.Cache.Entries.{find, update, use_at}
use bloem_community_crowquil.Silo.Cache.Entries.Laws
use bloem_community_crowquil.Silo.Cache.Invariant.{update-IsAccounted, active_of}
use bloem_community_crowquil.Silo.Cache.Lookup.{leave}
use bloem_community_crowquil.Silo.Cache.Lookup
use bloem_community_crowquil.Silo.Cache.Lookup.Laws.{
  LookedUp, miss, hit, lookup-LookedUp, use_at-KeepsCharge, leave-KeepsCharge,
}
use bloem_community_crowquil.Silo.Cache.System.{System, push}
use bloem_community_crowquil.Silo.Cache.System.Counts.{holds, holds-middle, All-middle}
use bloem_community_crowquil.Silo.Cache.System.Sound.{
  IsPinned, IsSound, Cleans-IsSound, All-IsPinned-update,
}

active_of-use :
    (key k : Bytes) (now : ℕ) (es : List CacheEntry) {e : CacheEntry}
    → find key es ≡ some e
    → active_of k (update key (use_at now) es) ≡ ite (Bytes-discrete key k) 1 0 + active_of k es
unfolding find update use_at
active_of-use key k now [] h = cc
active_of-use key k now (x ∷ es) {e} h = ground (arith, active_of-use key k now es {e = e})

active_of-leave :
    (key k : Bytes) (serial : ℕ) (es : List CacheEntry) {e : CacheEntry}
    → find key es ≡ some e
    → e.serial ≡ serial
    → 0 < e.active
    → ite (Bytes-discrete key k) 1 0 + active_of k (update key (leave serial) es) ≡ active_of k es
unfolding find update leave
active_of-leave key k serial [] h same a = cc
active_of-leave key k serial (x ∷ es) {e} h same a =
    ground (arith, active_of-leave key k serial es {e = e})

leave-serial : (serial : ℕ) (e : CacheEntry) → (leave serial e).serial ≡ e.serial
unfolding leave
leave-serial serial e = ground arith

hit-IsSound :
    {s : System} (key : Bytes) (now : ℕ) {e : CacheEntry}
    → find key s.cache.entries ≡ some e
    → IsSound s
    → IsSound (record s {
      cache = record s.cache { entries = update key (use_at now) s.cache.entries };
      handles = record { serial = e.serial; key = key } ∷ s.handles;
    })
unfolding holds
hit-IsSound {s} key now {e} h v = record {
  accounted = update-IsAccounted (use_at now) (use_at-KeepsCharge now) s.cache key v.accounted;
  backed = v.backed;
  claimed = v.claimed;
  counted = λ k.
      active_of-use key k now s.cache.entries h
      ∙ ap (◌+◌ (ite (Bytes-discrete key k) 1 0)) (v.counted k);
  pinned = (
    (
      use_at now e,
      Laws.find-update_self (use_at now) (use_at-KeepsCharge now) key s.cache.entries h,
      unfold use_at in refl,
    ),
    All-IsPinned-update (use_at now) (use_at-KeepsCharge now) (λ x. unfold use_at in refl) key
        s.cache.entries s.handles v.pinned,
  );
}

pub look_up-IsSound :
    {s : System} (fs : FileSystem) (key : Bytes) (now : ℕ)
    → IsSound s
    → IsSound (record s {
      cache = (Lookup.lookup fs key now s.cache).0;
      handles = push (Lookup.lookup fs key now s.cache).1 s.handles;
    })
look_up-IsSound {s} fs key now v = by_answer (lookup-LookedUp fs key now s.cache v.accounted)
  where
    by_answer :
        {a : PageCache × Option PageHandle}
        → LookedUp fs key now s.cache a
        → IsSound (record s { cache = a.0; handles = push a.1 s.handles })
    by_answer (miss why cleans) = Cleans-IsSound cleans v
    by_answer (hit h o f p u n) = hit-IsSound key now h v

pub leave-IsSound :
    {s : System} (front : List PageHandle) (h : PageHandle) (back : List PageHandle)
    → s.handles ≡ front ++ h ∷ back
    → IsSound s
    → IsSound (record s { cache = (Lookup.release (some h) s.cache).0; handles = front ++ back })
unfolding Lookup.release
leave-IsSound {s} front h back e v =
    let ((x, found, same), rest) =
      All-middle (IsPinned s.cache.entries) front h back (rw e at v.pinned) in
    let split = λ (k : Bytes). v.counted k ∙ (ap (holds k) e ∙ holds-middle k front h back) in
    let busy : 0 < x.active = ground (arith, split h.key) in
    record {
      accounted =
          update-IsAccounted (leave h.serial) (leave-KeepsCharge h.serial) s.cache h.key
            v.accounted;
      backed = v.backed;
      claimed = v.claimed;
      counted = λ k.
          omega (arith, split k, active_of-leave h.key k h.serial s.cache.entries found same busy);
      pinned =
          All-IsPinned-update (leave h.serial) (leave-KeepsCharge h.serial) (leave-serial h.serial)
            h.key s.cache.entries (front ++ back) rest;
    }
