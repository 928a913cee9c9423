-- ===== src/Silo/Config/Bounds.antt =====
-- The bounds that a normalized configuration keeps, and what they give the extraction and the cache.
use mathlib.Core.Path.{subst}
use bloem_community_crowquil.Prelude.{
  ◌≡◌, Bool, false, Bytes, Option, ok, arith, Result-cases, inl, inr,
}
use bloem_community_crowquil.Prelude.Int.{pos, ◌≤ℤ◌}
use bloem_community_crowquil.Silo.Constants.{max_cache_bytes}
use bloem_community_crowquil.Silo.Config.{
  Config, check_bounds, limits_outside_bounds, second, max_cache_ttl, normalize_config,
  normalized_config, normalize_base_url, normalize_cache_dir,
}
use bloem_community_crowquil.Archive.Limits.{Limits, normalize_limits, check_limits, with_defaults}

pub record IsBounded (cfg : Config) : Type 0 where
  pub cache_size : pos 1 ≤ℤ cfg.cache_size
  pub cache_size_max : cfg.cache_size ≤ℤ pos max_cache_bytes
  pub cache_ttl : pos second ≤ℤ cfg.cache_ttl
  pub cache_ttl_max : cfg.cache_ttl ≤ℤ pos max_cache_ttl
  pub limits : normalize_limits cfg.limits ≡ ok cfg.limits

inside_limits : (l : Limits) → limits_outside_bounds l ≡ false → normalize_limits l ≡ ok l
unfolding limits_outside_bounds normalize_limits check_limits with_defaults
inside_limits l h = ground arith

check_bounds-IsBounded : (cfg : Config) → check_bounds cfg ≡ ok tt → IsBounded cfg
unfolding check_bounds
check_bounds-IsBounded cfg h = record {
  cache_size = ground arith;
  cache_size_max = ground arith;
  cache_ttl = ground arith;
  cache_ttl_max = ground arith;
  limits = inside_limits cfg.limits (ground arith);
}

module _ (is_blank : Bytes → Bool) (validate_base_url : Bytes → Option Bytes)
    (absolute : Bytes → Option (Bytes × Bool)) where
  -- A configuration that normalization returned has a cache size between one byte and the maximum,
  -- a time to live between a second and a day, and limits that the extraction's own normalization
  -- accepts and returns unchanged.
  pub normalize_config-IsBounded :
      (cfg normalized : Config)
      → normalize_config is_blank validate_base_url absolute cfg ≡ ok normalized
      → IsBounded normalized
  unfolding normalize_config
  normalize_config-IsBounded cfg normalized h =
      elim (Result-cases (normalize_base_url is_blank validate_base_url absolute cfg.base_url)) [
        | inl (e, failed) ↦ absurd (ground arith)
        | inr (base, based) ↦
            elim (Result-cases
              (normalize_cache_dir is_blank validate_base_url absolute cfg.cache_dir)) [
                | inl (e, failed) ↦ absurd (ground arith)
                | inr (path, located) ↦
                    elim (Result-cases (check_bounds (normalized_config cfg base path))) [
                      | inl (e, failed) ↦ absurd (ground arith)
                      | inr (done, checked) ↦
                          let same : normalized_config cfg base path ≡ normalized = ground arith in
                          subst IsBounded same
                            (check_bounds-IsBounded (normalized_config cfg base path) checked)
                    ]
              ]
      ]
