-- ===== src/Silo/Cache/Lookup.antt =====
-- `lookup` and the handle's `release` of internal/silo/cache.go.
pub mod Laws
use bloem_community_crowquil.Prelude.{
  ℕ, ◌-◌, Bool, true, false, ◌&&◌, ◌||◌, Bytes, List, [], ◌∷◌, Option, none, some, ltb, ◌==◌,
  if◌then◌else◌,
}
use bloem_community_crowquil.Prelude.Int.{ℤ, eqb_ℤ}
use bloem_community_crowquil.Silo.Cache.State.{
  FileInfo, FileSystem, CachedPage, CacheEntry, PageHandle, PageCache, expired,
}
use bloem_community_crowquil.Silo.Cache.Entries.{find, update, use_at}
use bloem_community_crowquil.Silo.Cache.Remove.{remove_locked}

-- A regular file of the given size.
unfoldable pub is_intact : Option FileInfo → ℤ → Bool
is_intact none size = false
is_intact (some info) size = info.is_regular && eqb_ℤ info.size size

unfoldable pub pages_present : FileSystem → List CachedPage → Bool
unfolding is_intact
pages_present fs [] = true
pages_present fs (page ∷ pages) = is_intact (fs.stat page.file) page.size && pages_present fs pages

lookup_entry : FileSystem → Bytes → ℕ → PageCache → CacheEntry → PageCache × Option PageHandle
lookup_entry fs key now c entry =
    if c.closed
    then (c, none)
    else if entry.retired || expired entry now
    then ((remove_locked fs c key).0, none)
    else if pages_present fs entry.pages
    then (
      record c { entries = update key (use_at now) c.entries },
      some (record { serial = entry.serial; key = key }),
    )
    else ((remove_locked fs c key).0, none)

unfoldable pub lookup : FileSystem → Bytes → ℕ → PageCache → PageCache × Option PageHandle
unfolding lookup_entry
lookup fs key now c = elim (find key c.entries) [
  | none ↦ (c, none)
  | some entry ↦ lookup_entry fs key now c entry
]

unfoldable pub leave : ℕ → CacheEntry → CacheEntry
leave serial entry =
    if entry.serial == serial
    then if ltb 0 entry.active then record entry { active = entry.active - 1 } else entry
    else entry

-- The handle is cleared, so a second release does nothing. An entry that the map no longer holds
-- under the handle's key is out of reach, and a write to it has no effect.
unfoldable pub release : Option PageHandle → PageCache → PageCache × Option PageHandle
unfolding leave
release none c = (c, none)
release (some h) c = (record c { entries = update h.key (leave h.serial) c.entries }, none)
