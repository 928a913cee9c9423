-- ===== src/Silo/Cache/Commit.antt =====
-- `commit` of internal/silo/cache.go, by which a finished extraction becomes a cache entry.
pub mod Laws
pub mod Publish
pub mod Stored
use bloem_community_crowquil.Prelude.{
  ℕ, suc, ◌+◌, Bool, true, false, not, ◌||◌, Bytes, FilePath, List, [], ◌∷◌, ◌++◌, map, Option,
  none, some, Result, ok, err, ◌>>=◌, ◌>>◌, reject_if, length, ◌==◌, if◌then◌else◌,
}
use bloem_community_crowquil.Prelude.Int.{ℤ, pos, ◌+ℤ◌, ◌-ℤ◌, ltb_ℤ}
use bloem_community_crowquil.Silo.Constants.{max_page_bytes, max_total_bytes}
use bloem_community_crowquil.Silo.Keys.{normalize_key}
use bloem_community_crowquil.Silo.Cache.State.{
  FileInfo, FileSystem, CachedPage, CacheEntry, CacheReservation, PageCache, base, rel_below,
  owned_path, entry_prefix,
}
use bloem_community_crowquil.Silo.Cache.Entries.{find, insert}
use bloem_community_crowquil.Silo.Cache.Lookup.{is_intact}
use bloem_community_crowquil.Silo.Cache.Remove.{remove_locked}

-- An `archive.Page` as the extractor process reported it. `file` is `none` for a text that is empty
-- or no absolute path, and else the cleaned path.
pub record ReportedPage : Type 0 where
  pub name : Bytes
  pub file : Option FilePath
  pub size : ℤ
  pub media_type : Bytes

pub data CommitError : Type 0 where
  cache_full no_pages invalid_page pages_exceed_total not_published : CommitError

is_one_element : Option FilePath → Bool
is_one_element (some (x ∷ [])) = true
is_one_element _ = false

-- The page lies directly in the output directory.
unfoldable pub valid_page_file : FilePath → Option FilePath → Bool
unfolding is_one_element
valid_page_file output_dir none = false
valid_page_file output_dir (some page_path) = is_one_element (rel_below output_dir page_path)

abbrev pub path_of : Option FilePath → FilePath
path_of none = []
path_of (some path) = path

is_regular_link : Option FileInfo → Bool
is_regular_link none = false
is_regular_link (some info) = info.is_regular

-- The body of the loop over the reported pages; `total` is the sum of the sizes before.
unfoldable pub convert_page :
    FileSystem → FilePath → ℤ → ReportedPage → Result CommitError CachedPage
unfolding is_regular_link
convert_page fs output_dir total page = do
  reject_if
      (not (valid_page_file output_dir page.file)
        || ltb_ℤ page.size (pos 1)
        || ltb_ℤ (pos max_page_bytes) page.size)
      invalid_page
  reject_if (not (is_regular_link (fs.lstat (path_of page.file)))) invalid_page
  reject_if (not (is_intact (fs.stat (path_of page.file)) page.size)) invalid_page
  reject_if (ltb_ℤ (pos max_total_bytes -ℤ page.size) total) pages_exceed_total
  ok (record {
    name = page.name;
    file = output_dir ++ base (path_of page.file) ∷ [];
    size = page.size;
    media_type = page.media_type;
  })

unfoldable pub convert_pages :
    FileSystem → FilePath → ℤ → List ReportedPage → Result CommitError (List CachedPage × ℤ)
convert_pages fs output_dir total [] = ok ([], total)
convert_pages fs output_dir total (page ∷ pages) = do
  converted ← convert_page fs output_dir total page
  (rest, sum) ← convert_pages fs output_dir (total +ℤ page.size) pages
  ok (converted ∷ rest, sum)

unfoldable pub fallback_expiry : Bytes → ℕ → ℕ → Option ℕ
fallback_expiry [] now ttl = some (now + ttl)
fallback_expiry (x ∷ fingerprint) now ttl = none

abbrev move_to : FilePath → CachedPage → CachedPage
move_to root page = record page { file = root ++ base page.file ∷ [] }

abbrev pub Commit : Type 0
Commit = PageCache × CacheReservation × Result CommitError CacheEntry

abbrev pub entry_root : PageCache → Bytes → FilePath
entry_root c key = c.root ++ (entry_prefix ++ key) ∷ []

abbrev pub new_entry : PageCache → Bytes → Bytes → ℕ → List CachedPage → ℤ → CacheEntry
new_entry c key fingerprint now converted total = record {
  serial = c.next_serial;
  key = key;
  root = entry_root c key;
  pages = map (move_to (entry_root c key)) converted;
  total = total;
  expires_at = fallback_expiry fingerprint now c.fallback_ttl;
  last_used = now;
  active = 0;
  retired = false;
}

-- The entry is charged to the cache, and the reservation gives up as much.
abbrev pub published : PageCache → CacheReservation → CacheEntry → Commit
published c r entry = (
  record c {
    entries = insert entry c.entries;
    used_bytes = if ltb_ℤ (pos 0) entry.total then c.used_bytes +ℤ entry.total else c.used_bytes;
    reserved = c.reserved -ℤ entry.total;
    next_serial = suc c.next_serial;
  },
  record r { bytes = r.bytes -ℤ entry.total; committed = true },
  ok entry,
)

unfoldable pub publish :
    FileSystem
    → PageCache
    → CacheReservation
    → Bytes
    → Bytes
    → FilePath
    → ℕ
    → List CachedPage
    → ℤ
    → Commit
publish fs c r key fingerprint output_dir now converted total =
    if not (owned_path c.root (entry_root c key)) || not (owned_path c.root output_dir)
    then (c, r, err cache_full)
    else if not (fs.rename output_dir (entry_root c key))
    then (c, r, err not_published)
    else published c r (new_entry c key fingerprint now converted total)

-- The part of `commit` under the lock.
unfoldable pub commit_locked :
    FileSystem
    → PageCache
    → CacheReservation
    → Bytes
    → Bytes
    → FilePath
    → ℕ
    → List CachedPage
    → ℤ
    → Commit
commit_locked fs c r key fingerprint output_dir now converted total =
    if c.closed || (length (normalize_key key) == 0)
    then (c, r, err cache_full)
    else elim (find key c.entries) [
      | none ↦ publish fs c r key fingerprint output_dir now converted total
      | some existing ↦
          if not (existing.active == 0)
          then (c, r, err cache_full)
          else let (d, removed) = remove_locked fs c key in
            if not removed
            then (d, r, err cache_full)
            else publish fs d r key fingerprint output_dir now converted total
    ]

-- What follows the loop over the reported pages.
unfoldable pub after_convert :
    FileSystem
    → PageCache
    → CacheReservation
    → Bytes
    → Bytes
    → FilePath
    → ℕ
    → Result CommitError (List CachedPage × ℤ)
    → Commit
after_convert fs c r key fingerprint output_dir now (err e) = (c, r, err e)
after_convert fs c r key fingerprint output_dir now (ok (converted, total)) =
    if ltb_ℤ r.bytes total
    then (c, r, err cache_full)
    else commit_locked fs c r key fingerprint output_dir now converted total

unfoldable pub commit :
    FileSystem
    → PageCache
    → CacheReservation
    → Bytes
    → Bytes
    → FilePath
    → List ReportedPage
    → ℕ
    → Commit
commit fs c r key fingerprint output_dir pages now =
    if r.used || r.committed
    then (c, r, err cache_full)
    else if length pages == 0
    then (c, r, err no_pages)
    else after_convert fs c r key fingerprint output_dir now
        (convert_pages fs output_dir (pos 0) pages)
