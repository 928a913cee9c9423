-- ===== src/Silo/Config/Twice.antt =====
-- A second normalization, as `Configure` of internal/silo/backend.go makes it, in
-- internal/silo/config.go.
use mathlib.Core.Path.{subst}
use bloem_community_crowquil.Prelude.{
  Bool-cases, ◌≡◌, refl, ap, ◌∙◌, Bool, false, Bytes, Option, some, ok, ok-injective, arith,
  Result-cases, Option-cases, inl, inr, reject_if-eq-ok,
}
use bloem_community_crowquil.Prelude.Int.{ℤ, pos}
use bloem_community_crowquil.Archive.Limits.{Limits, or_default}
use bloem_community_crowquil.Silo.Constants.{default_cache_bytes, cache_fallback_ttl}
use bloem_community_crowquil.Silo.Config.{
  Config, ConfigError, bounded_defaults, fill_limits, check_bounds, normalize_config,
  normalized_config, normalize_base_url, normalize_cache_dir,
}

or_default_twice : (x d : ℤ) → or_default (or_default x d) d ≡ or_default x d
or_default_twice x d = ground arith

fill_limits_twice : (l : Limits) → fill_limits (fill_limits l) ≡ fill_limits l
unfolding fill_limits
fill_limits_twice l = λ i. record {
  max_entries = or_default_twice l.max_entries bounded_defaults.max_entries i;
  max_page_bytes = or_default_twice l.max_page_bytes bounded_defaults.max_page_bytes i;
  max_total_bytes = or_default_twice l.max_total_bytes bounded_defaults.max_total_bytes i;
  max_archive_bytes = or_default_twice l.max_archive_bytes bounded_defaults.max_archive_bytes i;
  max_dictionary_bytes =
      or_default_twice l.max_dictionary_bytes bounded_defaults.max_dictionary_bytes i;
}

normalized_config_twice :
    (cfg : Config) (base path : Bytes)
    → normalized_config (normalized_config cfg base path) base path
      ≡ normalized_config cfg base path
normalized_config_twice cfg base path = λ i. record {
  base_url = base;
  cache_dir = path;
  cache_size = or_default_twice cfg.cache_size (pos default_cache_bytes) i;
  cache_ttl = or_default_twice cfg.cache_ttl (pos cache_fallback_ttl) i;
  limits = fill_limits_twice cfg.limits i;
}

-- A base that was accepted is accepted again as it is, as is a directory.
pub record AreStable (is_blank : Bytes → Bool) (validate_base_url : Bytes → Option Bytes)
    (absolute : Bytes → Option (Bytes × Bool)) : Type 0 where
  pub base_not_blank :
      (raw base : Bytes) → validate_base_url raw ≡ some base → is_blank base ≡ false
  pub base :
      (raw base : Bytes) → validate_base_url raw ≡ some base → validate_base_url base ≡ some base
  pub path_not_blank :
      (raw path : Bytes) → absolute raw ≡ some (path, false) → is_blank path ≡ false
  pub path :
      (raw path : Bytes) → absolute raw ≡ some (path, false) → absolute path ≡ some (path, false)

module _ (is_blank : Bytes → Bool) (validate_base_url : Bytes → Option Bytes)
    (absolute : Bytes → Option (Bytes × Bool))
    (stable : AreStable is_blank validate_base_url absolute) where
  normalize_base_url_twice :
      (raw base : Bytes)
      → normalize_base_url is_blank validate_base_url absolute raw ≡ ok base
      → normalize_base_url is_blank validate_base_url absolute base ≡ ok base
  unfolding normalize_base_url
  normalize_base_url_twice raw base h =
      let (given, rest) = reject_if-eq-ok (is_blank raw) _ _ h in
      elim (Option-cases (validate_base_url raw)) [
        | inl refused ↦ absurd (ground (arith, refused, rest))
        | inr (b, valid) ↦
            let same : b ≡ base = ok-injective {E = ConfigError} (ground (arith, valid, rest)) in
            let valid' = valid ∙ ap some same in
            let shown = stable.base_not_blank raw base valid' in
            let again = stable.base raw base valid' in ground (arith, shown, again)
      ]

  normalize_cache_dir_twice :
      (raw path : Bytes)
      → normalize_cache_dir is_blank validate_base_url absolute raw ≡ ok path
      → normalize_cache_dir is_blank validate_base_url absolute path ≡ ok path
  unfolding normalize_cache_dir
  normalize_cache_dir_twice raw path h =
      let (given, rest) = reject_if-eq-ok (is_blank raw) _ _ h in
      elim (Option-cases (absolute raw)) [
        | inl refused ↦ absurd (ground (arith, refused, rest))
        | inr ((p, is_root), found) ↦ elim (Bool-cases is_root) [
          | inl root ↦ absurd (ground (arith, found, root, rest))
          | inr private ↦
              let same : p ≡ path =
                ok-injective {E = ConfigError} (ground (arith, found, private, rest)) in
              let found' : absolute raw ≡ some (path, false) =
                found ∙ ap some (λ i. (same i, private i)) in
              let shown = stable.path_not_blank raw path found' in
              let again = stable.path raw path found' in ground (arith, shown, again)
        ]
      ]

  pub normalize_config_twice :
      (cfg normalized : Config)
      → normalize_config is_blank validate_base_url absolute cfg ≡ ok normalized
      → normalize_config is_blank validate_base_url absolute normalized ≡ ok normalized
  unfolding normalize_config
  normalize_config_twice cfg normalized h =
      elim (Result-cases (normalize_base_url is_blank validate_base_url absolute cfg.base_url)) [
        | inl (e, failed) ↦ absurd (ground (arith, failed, h))
        | inr (base, based) ↦
            elim (Result-cases
              (normalize_cache_dir is_blank validate_base_url absolute cfg.cache_dir)) [
                | inl (e, failed) ↦ absurd (ground (arith, based, failed, h))
                | inr (path, located) ↦
                    elim (Result-cases (check_bounds (normalized_config cfg base path))) [
                      | inl (e, outside) ↦ absurd (ground (arith, based, located, outside, h))
                      | inr (u, inside) ↦
                          let same : normalized_config cfg base path ≡ normalized =
                            ok-injective {E = ConfigError}
                              (ground (arith, based, located, inside, h)) in
                          let base_again = normalize_base_url_twice cfg.base_url base based in
                          let path_again = normalize_cache_dir_twice cfg.cache_dir path located in
                          let filled = normalized_config_twice cfg base path in
                          subst (λ n. normalize_config is_blank validate_base_url absolute n ≡ ok n)
                            same (rw (base_again, path_again, filled, inside) refl)
                    ]
              ]
      ]
