-- ===== src/Silo/Cache/Lookup/Laws.antt =====
-- Lemmas on `lookup` and the handle's `release` of internal/silo/cache.go.
use mathlib.Core.Option.{some-injective}
use bloem_community_crowquil.Prelude.{
  ℕ, ◌+◌, ◌≢◌, ◌≡◌, refl, ap, sym, ◌∙◌, true, false, ◌||◌, Bytes, List, Option, none, some, arith,
  Option-cases, if_cases, Bool-cases, inl, inr,
}
use bloem_community_crowquil.Prelude.Int.{ℤ}
use bloem_community_crowquil.Silo.Cache.State.{
  FileSystem, CacheEntry, PageHandle, PageCache, expired,
}
use bloem_community_crowquil.Silo.Cache.Entries.{find, update, use_at}
use bloem_community_crowquil.Silo.Cache.Entries.Laws.{KeepsCharge, find-update_self, find-update_ne}
use bloem_community_crowquil.Silo.Cache.Invariant.{
  IsAccounted, update-IsAccounted, Cleans, Cleans-refl,
}
use bloem_community_crowquil.Silo.Cache.Remove.{remove_locked}
use bloem_community_crowquil.Silo.Cache.Remove.Laws.{remove_locked-Cleans}
use bloem_community_crowquil.Silo.Cache.Lookup.{pages_present, lookup, leave, release}

pub use_at-KeepsCharge : (now : ℕ) → KeepsCharge (use_at now)
unfolding use_at
use_at-KeepsCharge now = record { same_key = λ e. refl; same_total = λ e. refl }

pub leave-KeepsCharge : (serial : ℕ) → KeepsCharge (leave serial)
unfolding leave
leave-KeepsCharge serial = record { same_key = λ e. ground arith; same_total = λ e. ground arith }

find-used :
    (now : ℕ) (key : Bytes) (es : List CacheEntry) {entry : CacheEntry}
    → find key es ≡ some entry
    → find key (update key (use_at now) es)
      ≡ some (record entry { active = entry.active + 1; last_used = now })
unfolding use_at
find-used now key es found = find-update_self (use_at now) (use_at-KeepsCharge now) key es found

-- Why there is no handle to give.
pub data Missing (fs : FileSystem) (key : Bytes) (now : ℕ) (c : PageCache) : Type 0 where
  absent : find key c.entries ≡ none → Missing fs key now c
  shut : c.closed ≡ true → Missing fs key now c
  stale :
      {entry : CacheEntry}
      → find key c.entries ≡ some entry
      → (entry.retired || expired entry now) ≡ true
      → Missing fs key now c
  damaged :
      {entry : CacheEntry}
      → find key c.entries ≡ some entry
      → pages_present fs entry.pages ≡ false
      → Missing fs key now c

-- What `lookup` can answer.
pub data LookedUp (fs : FileSystem) (key : Bytes) (now : ℕ) (c : PageCache)
    : PageCache × Option PageHandle → Type 0 where
  miss : {d : PageCache} → Missing fs key now c → Cleans c d → LookedUp fs key now c (d, none)
  hit :
      {entry : CacheEntry}
      → find key c.entries ≡ some entry
      → c.closed ≡ false
      → (entry.retired || expired entry now) ≡ false
      → pages_present fs entry.pages ≡ true
      → find key (update key (use_at now) c.entries)
        ≡ some (record entry { active = entry.active + 1; last_used = now })
      → ((k : Bytes) → k ≢ key → find k (update key (use_at now) c.entries) ≡ find k c.entries)
      → LookedUp fs key now c (
        record c { entries = update key (use_at now) c.entries },
        some (record { serial = entry.serial; key = key }),
      )

-- On a cache that is accounted for, a lookup answers with no handle, after at most a cleanup,
-- because the key is absent, the cache closed, the entry retired or expired, or a page not intact;
-- or with a handle to the entry under the key, which is then fresh with all pages intact, and of
-- which only the count of active reads, greater by one, and the time of use, which is now, change,
-- while every other key finds what it did.
pub lookup-LookedUp :
    {held : ℤ} (fs : FileSystem) (key : Bytes) (now : ℕ) (c : PageCache)
    → IsAccounted held c
    → LookedUp fs key now c (lookup fs key now c)
unfolding lookup
lookup-LookedUp fs key now c v = elim (Option-cases (find key c.entries)) [
  | inl h ↦ rw (h, lookup) (miss (absent h) (Cleans-refl c))
  | inr (entry, h) ↦
      rw (h, lookup)
        (if_cases P c.closed (λ b. miss (shut b) (Cleans-refl c))
          λ opened.
            if_cases P (entry.retired || expired entry now) (λ b. miss (stale h b) removed)
              λ fresh.
                if_cases P (pages_present fs entry.pages)
                  (λ intact. hit h opened fresh intact (find-used now key c.entries h) others)
                  (λ b. miss (damaged h b) removed))
]
  where
    P : PageCache × Option PageHandle → Type 0
    P = LookedUp fs key now c

    others : (k : Bytes) → k ≢ key → find k (update key (use_at now) c.entries) ≡ find k c.entries
    others k apart = find-update_ne (use_at now) (use_at-KeepsCharge now) key k c.entries apart

    removed : Cleans c (remove_locked fs c key).0
    removed = remove_locked-Cleans fs c key v.unique

-- The entry that a handle points to, and how the lookup that gave the handle found it.
pub record Hit (fs : FileSystem) (key : Bytes) (now : ℕ) (c : PageCache) (handle : PageHandle)
    : Type 0 where
  pub entry : CacheEntry
  pub found : find key c.entries ≡ some entry
  pub opened : c.closed ≡ false
  pub fresh : (entry.retired || expired entry now) ≡ false
  pub intact : pages_present fs entry.pages ≡ true
  pub points : handle ≡ record { serial = entry.serial; key = key }
  pub kept : find handle.key (lookup fs key now c).0.entries ≡ some (use_at now entry)

-- A handle, whatever the cache, comes from an entry that is there, fresh and intact.
pub lookup-Hit :
    (fs : FileSystem) (key : Bytes) (now : ℕ) (c : PageCache) (handle : PageHandle)
    → (lookup fs key now c).1 ≡ some handle
    → Hit fs key now c handle
unfolding lookup
lookup-Hit fs key now c handle h = elim (Option-cases (find key c.entries)) [
  | inl missing ↦ absurd (ground (arith, missing, h))
  | inr (entry, held) ↦ elim (Bool-cases c.closed) [
    | inl closed ↦ absurd (ground (arith, held, closed, h))
    | inr opened ↦ elim (Bool-cases (entry.retired || expired entry now)) [
      | inl old ↦ absurd (ground (arith, held, opened, old, h))
      | inr fresh ↦ elim (Bool-cases (pages_present fs entry.pages)) [
        | inr broken ↦ absurd (ground (arith, held, opened, fresh, broken, h))
        | inl intact ↦
            let d = record c { entries = update key (use_at now) c.entries } in
            let answers : lookup fs key now c
                ≡ (d, some (record { serial = entry.serial; key = key })) =
              rw (held, opened, fresh, intact, lookup) refl in
            let points = some-injective _ _ (sym h ∙ ap (λ a. a.1) answers) in
            record {
              entry = entry;
              found = held;
              opened = opened;
              fresh = fresh;
              intact = intact;
              points = points;
              kept =
                  rw (points, answers)
                    (find-update_self (use_at now) (use_at-KeepsCharge now) key c.entries held);
            }
      ]
    ]
  ]
]

pub lookup-IsAccounted :
    {held : ℤ} (fs : FileSystem) (key : Bytes) (now : ℕ) (c : PageCache)
    → IsAccounted held c
    → IsAccounted held (lookup fs key now c).0
lookup-IsAccounted {held} fs key now c v = by_answer (lookup-LookedUp fs key now c v)
  where
    by_answer : {a : PageCache × Option PageHandle} → LookedUp fs key now c a → IsAccounted held a.0
    by_answer (miss why s) = s.accounted held v
    by_answer (hit h o f p u n) = update-IsAccounted (use_at now) (use_at-KeepsCharge now) c key v

pub release-IsAccounted :
    {held : ℤ} (h : Option PageHandle) (c : PageCache)
    → IsAccounted held c
    → IsAccounted held (release h c).0
unfolding release
release-IsAccounted none c v = v
release-IsAccounted (some h) c v =
    update-IsAccounted (leave h.serial) (leave-KeepsCharge h.serial) c h.key v
