-- ===== src/Silo/Cache/State.antt =====
-- The types of internal/silo/cache.go, the paths that it owns, and the file system that answers it.
-- A time is the number of nanoseconds since Go's zero time.
use bloem_community_crowquil.Prelude.{
  ℕ, ◌+◌, Bool, true, false, ◌&&◌, ◌||◌, not, Bytes, FilePath, Bytes-discrete, FilePath-discrete,
  List, [], ◌∷◌, Option, none, some, length, ite, ltb, has_prefix, codes,
}
use bloem_community_crowquil.Prelude.Int.{ℤ}
use bloem_community_crowquil.Silo.Constants.{cache_idle_ttl}

pub record FileInfo : Type 0 where
  pub is_regular : Bool
  pub size : ℤ

-- What the operating system answers during one call. No call asks twice about one path's removal.
pub record FileSystem : Type 0 where
  pub lstat : FilePath → Option FileInfo
  pub stat : FilePath → Option FileInfo
  pub remove_all : FilePath → Bool
  pub rename : FilePath → FilePath → Bool

pub record CachedPage : Type 0 where
  pub name : Bytes
  pub file : FilePath
  pub size : ℤ
  pub media_type : Bytes

-- `serial` tells one allocated entry from another, as the pointer does in Go.
pub record CacheEntry : Type 0 where
  pub serial : ℕ
  pub key : Bytes
  pub root : FilePath
  pub pages : List CachedPage
  pub total : ℤ
  pub expires_at : Option ℕ
  pub last_used : ℕ
  pub active : ℕ
  pub retired : Bool

-- A handle points to its entry.
pub record PageHandle : Type 0 where
  pub serial : ℕ
  pub key : Bytes

pub record CacheReservation : Type 0 where
  pub bytes : ℤ
  pub job_dir : Option FilePath
  pub committed : Bool
  pub used : Bool

-- The maps are association lists, in the order in which `range` visits them.
pub record PageCache : Type 0 where
  pub root : FilePath
  pub max_bytes : ℤ
  pub fallback_ttl : ℕ
  pub entries : List CacheEntry
  pub used_bytes : ℤ
  pub reserved : ℤ
  pub has_lease : Bool
  pub pending : List (FilePath × ℤ)
  pub closed : Bool
  pub next_serial : ℕ

abbrev pub max_pending_cleanup : ℕ
max_pending_cleanup = 128

abbrev pub entry_prefix : Bytes
entry_prefix = codes ".entry-"

abbrev pub job_prefix : Bytes
job_prefix = codes ".job-"

-- `filepath.Dir` and `filepath.Base`, of a path that is not the root directory.
unfoldable pub dir : FilePath → FilePath
dir [] = []
dir (x ∷ []) = []
dir (x ∷ y ∷ p) = x ∷ dir (y ∷ p)

unfoldable pub base : FilePath → Bytes
base [] = []
base (x ∷ []) = x
base (x ∷ y ∷ p) = base (y ∷ p)

-- `filepath.Rel(root, path)` where it does not climb: `none` if the path is not below the root.
unfoldable pub rel_below : FilePath → FilePath → Option FilePath
rel_below [] p = some p
rel_below (x ∷ root) [] = none
rel_below (x ∷ root) (y ∷ p) = ite (Bytes-discrete x y) (rel_below root p) none

abbrev is_nonempty : Option FilePath → Bool
is_nonempty none = false
is_nonempty (some []) = false
is_nonempty (some (x ∷ p)) = true

unfoldable pub owned_path : FilePath → FilePath → Bool
owned_path root path = is_nonempty (rel_below root path)

unfoldable pub owned_directory : FilePath → FilePath → Bytes → Bool
owned_directory root path prefix =
    ite (FilePath-discrete (dir path) root) true false
    && has_prefix (base path) prefix
    && ltb (length prefix) (length (base path))

unfoldable pub expired : CacheEntry → ℕ → Bool
expired entry now = not (ltb now (entry.last_used + cache_idle_ttl)) || past entry.expires_at
  where
    past : Option ℕ → Bool
    past none = false
    past (some t) = not (ltb now t)
