-- ===== src/Silo/Cache/Entries.antt =====
-- The map `entries` of the page cache of internal/silo/cache.go, by its keys.
pub mod Laws
use bloem_community_crowquil.Prelude.{
  ℕ, ◌+◌, ◌≤◌, ◌≡◌, true, Bytes, Bytes-discrete, List, [], ◌∷◌, Option, none, some, ite,
}
use bloem_community_crowquil.Prelude.Int.{ℤ, pos, ◌+ℤ◌, ◌≤ℤ◌}
use bloem_community_crowquil.Silo.Cache.State.{CacheEntry}

unfoldable pub find : Bytes → List CacheEntry → Option CacheEntry
find k [] = none
find k (e ∷ es) = ite (Bytes-discrete e.key k) (some e) (find k es)

-- A write through the pointer that the map holds for the key.
unfoldable pub update : Bytes → (CacheEntry → CacheEntry) → List CacheEntry → List CacheEntry
update k f [] = []
update k f (e ∷ es) = ite (Bytes-discrete e.key k) (f e ∷ es) (e ∷ update k f es)

unfoldable pub delete : Bytes → List CacheEntry → List CacheEntry
delete k [] = []
delete k (e ∷ es) = ite (Bytes-discrete e.key k) es (e ∷ delete k es)

unfoldable pub insert : CacheEntry → List CacheEntry → List CacheEntry
unfolding delete
insert e es = e ∷ delete e.key es

unfoldable pub entries_total : List CacheEntry → ℤ
entries_total [] = pos 0
entries_total (e ∷ es) = e.total +ℤ entries_total es

-- No key stands twice.
abbrev pub HasUniqueKeys : List CacheEntry → Type 0
HasUniqueKeys [] = Unit {0}
HasUniqueKeys (e ∷ es) = (find e.key es ≡ none) × HasUniqueKeys es

-- Every completed entry is charged for at least one byte.
abbrev pub AreCharged : List CacheEntry → Type 0
AreCharged [] = Unit {0}
AreCharged (e ∷ es) = (pos 1 ≤ℤ e.total) × AreCharged es

unfoldable pub retire : CacheEntry → CacheEntry
retire e = record e { retired = true }

unfoldable pub use_at : ℕ → CacheEntry → CacheEntry
use_at now e = record e { active = e.active + 1; last_used = now }
