-- ===== src/Silo/Cache/Start.antt =====
-- The start of a cache: `newPageCache`, `ensureOwnedRoot` and `removeOwnedDirectories` of
-- internal/silo/cache.go. The lock on the root directory is a parameter.
pub mod Owned
pub mod Spared
use bloem_community_crowquil.Prelude.{
  ℕ, zero, suc, ◌+◌, Bool, true, false, ◌||◌, ◌&&◌, not, Bytes, FilePath, List, [], ◌∷◌, ◌++◌,
  Option, none, some, Result, ok, err, length, codes, has_prefix, bytes_eq, ◌==◌, if◌then◌else◌,
}
use bloem_community_crowquil.Prelude.Int.{ℤ, pos, ltb_ℤ}
use bloem_community_crowquil.Silo.Cache.State.{
  FileInfo, PageCache, entry_prefix, job_prefix, owned_path,
}

abbrev pub owner_contents : Bytes
owner_contents = codes "silo-comic-pages-cache-v1" ++ 10 ∷ []

abbrev pub owner_marker : Bytes
owner_marker = codes ".silo-comic-pages-owner"

-- What `os.Lstat` says of the marker.
pub data Marker : Type 0 where
  present : FileInfo → Marker
  absent unknown : Marker

-- What creating the marker exclusively gives.
pub data Creation : Type 0 where
  created already_there failed : Creation

pub record Item : Type 0 where
  pub name : Bytes
  pub is_dir : Bool

-- The operations on the root directory, its marker and its lock; a Boolean is whether one succeeds.
-- `read_marker` is `io.ReadAll` of an `io.LimitReader` on the opened marker.
pub record RootSystem (S : Type 0) : Type 0 where
  pub make_root : S → S × Bool
  pub root_is_no_symlink : S → S × Option Bool
  pub root_is_dir : S → S × Option Bool
  pub protect_root : S → S × Bool
  pub lock_root : S → S × Bool
  pub list_root : S → S × Option (List Item)
  pub lstat_marker : S → S × Marker
  pub open_marker : S → S × Bool
  pub read_marker : S → ℕ → S × Option Bytes
  pub close_marker : S → S × Bool
  pub protect_marker : S → S × Bool
  pub create_marker : S → S × Creation
  pub write_marker : S → Bytes → S × Bool
  pub remove_marker : S → S
  pub remove_all : S → FilePath → S × Bool

pub data StartError : Type 0 where
  not_created is_symlink not_directory not_owned not_protected in_use not_removed : StartError

unfoldable pub is_expected : Option Bytes → Bool
is_expected none = false
is_expected (some contents) = bytes_eq contents owner_contents

unfoldable pub is_removable : Item → Bool
is_removable item =
    item.is_dir && (has_prefix item.name entry_prefix || has_prefix item.name job_prefix)

abbrev pub holds : Option Bool → Bool
holds none = false
holds (some b) = b

module _ {S : Type 0} (sys : RootSystem S) where
  -- A marker that is there; all refusals are one error.
  unfoldable pub check_marker : S → FileInfo → S × Bool
  check_marker s info =
      if not info.is_regular || ltb_ℤ (pos (length owner_contents)) info.size
      then (s, false)
      else let (s1, opened) = sys.open_marker s in
        if not opened
        then (s1, false)
        else let (s2, contents) = sys.read_marker s1 (length owner_contents + 1) in
          let (s3, closed) = sys.close_marker s2 in
          if not closed || not (is_expected contents) then (s3, false) else sys.protect_marker s3

  unfoldable pub fill_marker : S → S × Bool
  fill_marker s =
      let (s1, written) = sys.write_marker s owner_contents in
      let (s2, closed) = sys.close_marker s1 in
      if not written || not closed then (sys.remove_marker s2, false) else (s2, true)

  -- On fuel for the attempts: another process may make the marker first, and remove it again. An
  -- attempt that is out of fuel counts as refused.
  unfoldable pub ensure_owned_root : ℕ → S → S × Bool
  ensure_owned_root zero s = (s, false)
  ensure_owned_root (suc fuel) s =
      let (s1, marker) = sys.lstat_marker s in
      elim marker [
        | present info ↦ check_marker s1 info
        | unknown ↦ (s1, false)
        | absent ↦
            let (s2, items) = sys.list_root s1 in
            elim items [
              | none ↦ (s2, false)
              | some (item ∷ rest) ↦ (s2, false)
              | some [] ↦
                  let (s3, creation) = sys.create_marker s2 in
                  elim creation [
                    | created ↦ fill_marker s3
                    | already_there ↦ ensure_owned_root fuel s3
                    | failed ↦ (s3, false)
                  ]
            ]
      ]

  module _ (root : FilePath) where
    unfoldable pub remove_items : List Item → S → S × Bool
    remove_items [] s = (s, true)
    remove_items (item ∷ items) s =
        let path = root ++ item.name ∷ [] in
        elim (is_removable item && owned_path root path) [
          | false ↦ remove_items items s
          | true ↦
              let (s', removed) = sys.remove_all s path in
              elim removed [ false ↦ (s', false) | true ↦ remove_items items s' ]
        ]

    unfoldable pub remove_owned_directories : S → S × Bool
    remove_owned_directories s =
        let (s', items) = sys.list_root s in
        elim items [ none ↦ (s', false) | some found ↦ remove_items found s' ]

    abbrev pub fresh_cache : ℤ → ℕ → PageCache
    fresh_cache max_bytes fallback_ttl = record {
      root = root;
      max_bytes = max_bytes;
      fallback_ttl = fallback_ttl;
      entries = [];
      used_bytes = pos 0;
      reserved = pos 0;
      has_lease = true;
      pending = [];
      closed = false;
      next_serial = 0;
    }

    -- From the ownership check on.
    unfoldable pub start_owned : ℤ → ℕ → S → S × Result StartError PageCache
    start_owned max_bytes fallback_ttl s =
        let (s1, protected) = sys.protect_root s in
        if not protected
        then (s1, err not_protected)
        else let (s2, locked) = sys.lock_root s1 in
          if not locked
          then (s2, err in_use)
          else let (s3, done) = remove_owned_directories s2 in
            if not done
            then (s3, err not_removed)
            else (s3, ok (fresh_cache max_bytes fallback_ttl))

    unfoldable pub new_page_cache : ℕ → ℤ → ℕ → S → S × Result StartError PageCache
    new_page_cache fuel max_bytes fallback_ttl s =
        let (s1, made) = sys.make_root s in
        if not made
        then (s1, err not_created)
        else let (s2, no_symlink) = sys.root_is_no_symlink s1 in
          if not (holds no_symlink)
          then (s2, err is_symlink)
          else let (s3, directory) = sys.root_is_dir s2 in
            if not (holds directory)
            then (s3, err not_directory)
            else let (s4, owned) = ensure_owned_root fuel s3 in
              if not owned then (s4, err not_owned) else start_owned max_bytes fallback_ttl s4
