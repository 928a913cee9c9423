-- ===== src/Silo/Cache/Start/Spared.antt =====
-- What the start of a cache in internal/silo/cache.go removes, and where.
use bloem_community_crowquil.Prelude.{
  Bool, ℕ, ◌≡◌, ◌⊎◌, true, Bytes, FilePath, [], ◌∷◌, ◌++◌, Result, ok, err, has_prefix,
}
use bloem_community_crowquil.Prelude.Int.{ℤ}
use bloem_community_crowquil.Silo.Cache.State.{PageCache, entry_prefix, job_prefix}
use bloem_community_crowquil.Silo.Cache.System
use bloem_community_crowquil.Silo.Cache.Start.{RootSystem, StartError}
use bloem_community_crowquil.Silo.Cache.Start.{owner_marker}
use bloem_community_crowquil.Silo.Cache.Start.Owned.{IsOwned}

-- Whatever is there before is there behind, or is one of these paths.
abbrev pub Loses : {S : Type 0} → (S → FilePath → Bool) → (FilePath → Type 0) → S → S → Type 0
Loses is_there P s s' = (p : FilePath) → is_there s p ≡ true → (is_there s' p ≡ true) ⊎ P p

abbrev pub Stays : {S : Type 0} → (S → FilePath → Bool) → S → S → Type 0
Stays is_there s s' = (p : FilePath) → is_there s p ≡ true → is_there s' p ≡ true

-- What calls of the operating system leave: only the two removals take files away, and `os.RemoveAll`
-- only its path and what is below it.
pub record IsSystem {S : Type 0} (sys : RootSystem S) (is_there : S → FilePath → Bool)
    (root : FilePath) : Type 0 where
  pub make_root : (s : S) → Stays is_there s (sys.make_root s).0
  pub root_is_no_symlink : (s : S) → Stays is_there s (sys.root_is_no_symlink s).0
  pub root_is_dir : (s : S) → Stays is_there s (sys.root_is_dir s).0
  pub protect_root : (s : S) → Stays is_there s (sys.protect_root s).0
  pub lock_root : (s : S) → Stays is_there s (sys.lock_root s).0
  pub list_root : (s : S) → Stays is_there s (sys.list_root s).0
  pub lstat_marker : (s : S) → Stays is_there s (sys.lstat_marker s).0
  pub open_marker : (s : S) → Stays is_there s (sys.open_marker s).0
  pub read_marker : (s : S) (n : ℕ) → Stays is_there s (sys.read_marker s n).0
  pub close_marker : (s : S) → Stays is_there s (sys.close_marker s).0
  pub protect_marker : (s : S) → Stays is_there s (sys.protect_marker s).0
  pub create_marker : (s : S) → Stays is_there s (sys.create_marker s).0
  pub write_marker : (s : S) (contents : Bytes) → Stays is_there s (sys.write_marker s contents).0
  pub remove_marker :
      (s : S) → Loses is_there (λ p. p ≡ root ++ owner_marker ∷ []) s (sys.remove_marker s)
  pub remove_all :
      (s : S) (path : FilePath)
      → Loses is_there (λ p. (rest : FilePath) × (p ≡ path ++ rest)) s (sys.remove_all s path).0

module _ {S : Type 0} (sys : RootSystem S) (is_there : S → FilePath → Bool) (root : FilePath)
    (laws : IsSystem sys is_there root) where
  -- The marker that a failed start has made itself.
  abbrev pub IsMarker : FilePath → Type 0
  IsMarker p = p ≡ root ++ owner_marker ∷ []

  -- The marker, or what is in a directory that the cache made itself, directly in its root.
  abbrev pub IsOwn : FilePath → Type 0
  IsOwn p =
      IsMarker p
      ⊎ ((name : Bytes) × (rest : FilePath) × (p ≡ root ++ name ∷ rest)
          × ((has_prefix name entry_prefix ≡ true) ⊎ (has_prefix name job_prefix ≡ true)))

  module _ (max_bytes : ℤ) (fallback_ttl : ℕ) (before_start : S) where
    pub data Started : S × Result StartError PageCache → Type 0 where
      refused :
          (s : S) (e : StartError) → Loses is_there IsMarker before_start s → Started (s, err e)
      stopped :
          (s : S) (e : StartError)
          → IsOwned sys
          → Loses is_there IsOwn before_start s
          → Started (s, err e)
      begun :
          (s : S)
          → IsOwned sys
          → Loses is_there IsOwn before_start s
          → Started (s, ok (System.init root max_bytes fallback_ttl).cache)
