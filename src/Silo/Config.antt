-- ===== src/Silo/Config.antt =====
-- `Config`, `defaultConfig` and `normalizeConfig` of internal/silo/config.go.
pub mod Bounds
pub mod Twice
pub mod Entries
use bloem_community_crowquil.Prelude.{
  ℕ, ◌*◌, ◌^◌, Bool, ◌||◌, Bytes, FilePath, FilePath-discrete, Option, none, some, Result, ok, err,
  ◌>>=◌, ◌>>◌, reject_if, true, false, ite,
}
use bloem_community_crowquil.Prelude.Int.{ℤ, pos, ltb_ℤ}
use bloem_community_crowquil.Silo.Constants.{
  default_cache_bytes, max_cache_bytes, max_archive_bytes, max_page_bytes, max_total_bytes,
  max_entries, max_dictionary_bytes, cache_fallback_ttl,
}
use bloem_community_crowquil.Silo.Cache.State.{dir}
use bloem_community_crowquil.Archive.Limits.{Limits, or_default}

pub record Config : Type 0 where
  pub base_url : Bytes
  pub cache_dir : Bytes
  pub cache_size : ℤ
  pub cache_ttl : ℤ
  pub limits : Limits

pub data ConfigError : Type 0 where
  base_url_required base_url_invalid cache_dir_required cache_dir_invalid : ConfigError
  cache_dir_not_private cache_size_outside cache_ttl_outside limits_outside : ConfigError

abbrev pub bounded_defaults : Limits
bounded_defaults = record {
  max_entries = pos max_entries;
  max_page_bytes = pos max_page_bytes;
  max_total_bytes = pos max_total_bytes;
  max_archive_bytes = pos max_archive_bytes;
  max_dictionary_bytes = pos max_dictionary_bytes;
}

unfoldable pub fill_limits : Limits → Limits
fill_limits l = record {
  max_entries = or_default l.max_entries bounded_defaults.max_entries;
  max_page_bytes = or_default l.max_page_bytes bounded_defaults.max_page_bytes;
  max_total_bytes = or_default l.max_total_bytes bounded_defaults.max_total_bytes;
  max_archive_bytes = or_default l.max_archive_bytes bounded_defaults.max_archive_bytes;
  max_dictionary_bytes = or_default l.max_dictionary_bytes bounded_defaults.max_dictionary_bytes;
}

-- `x < 1 || x > max`
abbrev pub is_outside : ℤ → ℕ → Bool
is_outside x max = ltb_ℤ x (pos 1) || ltb_ℤ (pos max) x

unfoldable pub limits_outside_bounds : Limits → Bool
limits_outside_bounds l =
    is_outside l.max_entries max_entries
    || is_outside l.max_page_bytes max_page_bytes
    || is_outside l.max_total_bytes max_total_bytes
    || is_outside l.max_archive_bytes max_archive_bytes
    || is_outside l.max_dictionary_bytes max_dictionary_bytes

abbrev pub second : ℕ
second = 10 ^ 9

-- One day.
abbrev pub max_cache_ttl : ℕ
max_cache_ttl = 24 * 3600 * 10 ^ 9

-- The tests after the paths, in the source's order.
unfoldable pub check_bounds : Config → Result ConfigError (Unit {0})
check_bounds cfg = do
  reject_if (is_outside cfg.cache_size max_cache_bytes) cache_size_outside
  reject_if (ltb_ℤ cfg.cache_ttl (pos second) || ltb_ℤ (pos max_cache_ttl) cfg.cache_ttl)
      cache_ttl_outside
  reject_if (limits_outside_bounds cfg.limits) limits_outside

-- A zero field takes its default; the two paths are the normalized ones.
abbrev pub normalized_config : Config → Bytes → Bytes → Config
normalized_config cfg base path = record {
  base_url = base;
  cache_dir = path;
  cache_size = or_default cfg.cache_size (pos default_cache_bytes);
  cache_ttl = or_default cfg.cache_ttl (pos cache_fallback_ttl);
  limits = fill_limits cfg.limits;
}

-- `strings.TrimSpace(s) == ""`, `validateBaseURL` and `filepath.Abs(filepath.Clean(s))` are parameters;
-- the last gives the directory with whether it is the root directory.
module _ (is_blank : Bytes → Bool) (validate_base_url : Bytes → Option Bytes)
    (absolute : Bytes → Option (Bytes × Bool)) where
  unfoldable pub normalize_base_url : Bytes → Result ConfigError Bytes
  normalize_base_url raw = do
    reject_if (is_blank raw) base_url_required
    elim (validate_base_url raw) [ none ↦ err base_url_invalid | some base ↦ ok base ]

  unfoldable pub normalize_cache_dir : Bytes → Result ConfigError Bytes
  normalize_cache_dir raw = do
    reject_if (is_blank raw) cache_dir_required
    elim (absolute raw) [
      | none ↦ err cache_dir_invalid
      | some (path, is_root) ↦ reject_if is_root cache_dir_not_private >> ok path
    ]

  unfoldable pub normalize_config : Config → Result ConfigError Config
  normalize_config cfg = do
    base ← normalize_base_url cfg.base_url
    path ← normalize_cache_dir cfg.cache_dir
    check_bounds (normalized_config cfg base path)
    ok (normalized_config cfg base path)
