-- ===== src/Silo/Cache/Remove.antt =====
-- `removeLocked` of internal/silo/cache.go, addressed by the key under which the map holds the entry.
pub mod Laws
use bloem_community_crowquil.Prelude.{
  Bool, true, false, ◌||◌, not, Bytes, Option, none, some, ◌==◌, if◌then◌else◌,
}
use bloem_community_crowquil.Prelude.Int.{◌-ℤ◌}
use bloem_community_crowquil.Silo.Cache.State.{
  FileSystem, CacheEntry, PageCache, owned_directory, entry_prefix,
}
use bloem_community_crowquil.Silo.Cache.Entries.{find, update, delete, retire}

-- The entry is retired before anything else: if its removal fails, it stays charged and is retried.
remove_entry : FileSystem → PageCache → Bytes → CacheEntry → PageCache × Bool
remove_entry fs c key entry =
    let c' = record c { entries = update key retire c.entries } in
    if not (entry.active == 0) || not (owned_directory c.root entry.root entry_prefix)
    then (c', false)
    else if not (fs.remove_all entry.root)
    then (c', false)
    else (
      record c' { entries = delete key c'.entries; used_bytes = c.used_bytes -ℤ entry.total },
      true,
    )

-- `c.removeLocked(c.entries[key])`; a missing key is the nil entry. The entry that the map holds
-- for a key has that key (`find-key`), so `entry.key` is `key` here.
unfoldable pub remove_locked : FileSystem → PageCache → Bytes → PageCache × Bool
unfolding remove_entry
remove_locked fs c key = elim (find key c.entries) [
  | none ↦ (c, true)
  | some entry ↦ remove_entry fs c key entry
]
