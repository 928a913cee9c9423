-- ===== src/Silo/Config/Entries/Origin.antt =====
-- Lemmas on the configurations that `ConfigFromEntries` of internal/silo/config.go accepts.
use mathlib.Core.Path.{subst}
use bloem_community_crowquil.Prelude.{
  length, ◌==◌, [], ◌≢◌, ◌≡◌, ap, ◌∙◌, ◌⊎◌, inl, inr, Bool, true, false, Bytes, List, Option, none,
  some, ok, codes, bytes_eq, bytes_eq_sound, arith, Bool-cases, Option-cases, Result-cases,
  reject_if-eq-ok, ok-injective,
}
use bloem_community_crowquil.Prelude.Int.{pos}
use bloem_community_crowquil.Silo.Constants.{default_cache_bytes, cache_fallback_ttl}
use bloem_community_crowquil.Silo.Config.{
  Config, ConfigError, check_bounds, normalized_config, normalize_base_url, normalize_cache_dir,
  normalize_config,
}
use bloem_community_crowquil.Silo.Config.Entries.{
  Url, UrlTexts, Fields, ConfigEntry, is_origin, is_loopback_host, accepts_url, validate_base_url,
  collect_entries, get_string, read_int, read_limits, are_known, normalize, config_from_fields,
  config_from_entries,
}

module _ (t : UrlTexts) where
  -- An origin to which a token may be sent: over https, or over http to the host itself.
  pub record IsOrigin (base : Bytes) : Type 0 where
    pub raw : Bytes
    pub url : Url
    pub parsed : t.parse (t.trim raw) ≡ some url
    pub accepted : accepts_url t url ≡ true
    pub no_user : url.has_user ≡ false
    pub scheme :
        (url.scheme ≡ codes "https")
        ⊎ ((url.scheme ≡ codes "http") × (is_loopback_host t url.hostname ≡ true))
    pub host : length url.host ≢ 0
    pub no_path : (length url.path ≡ 0) ⊎ (url.path ≡ codes "/")
    pub no_query : length url.raw_query ≡ 0
    pub no_fragment : length url.fragment ≡ 0
    pub base_is : base ≡ t.trim_slashes (t.to_string (record url { path = []; raw_path = [] }))

  accepts_url-scheme :
      (u : Url)
      → accepts_url t u ≡ true
      → (u.scheme ≡ codes "https")
        ⊎ ((u.scheme ≡ codes "http") × (is_loopback_host t u.hostname ≡ true))
  unfolding accepts_url
  accepts_url-scheme u h = elim (Bool-cases (bytes_eq u.scheme (codes "http"))) [
    | inl http ↦ inr (bytes_eq_sound u.scheme (codes "http") http, ground (arith, http, h))
    | inr other ↦ inl (bytes_eq_sound u.scheme (codes "https") (ground (arith, other, h)))
  ]

  accepts_url-plain :
      (u : Url)
      → accepts_url t u ≡ true
      → (u.has_user ≡ false)
        × (length u.host ≢ 0)
        × (length u.raw_query ≡ 0)
        × (length u.fragment ≡ 0)
  unfolding accepts_url is_origin
  accepts_url-plain u h = ground (arith, h)

  accepts_url-path : (u : Url) → accepts_url t u ≡ true → (length u.path ≡ 0) ⊎ (u.path ≡ codes "/")
  unfolding accepts_url is_origin
  accepts_url-path u h = elim (Bool-cases (length u.path == 0)) [
    | inl none_given ↦ inl (ground (arith, none_given))
    | inr some_given ↦ inr (bytes_eq_sound u.path (codes "/") (ground (arith, some_given, h)))
  ]

  validate_base_url-IsOrigin :
      (raw base : Bytes) → validate_base_url t raw ≡ some base → IsOrigin base
  unfolding validate_base_url
  validate_base_url-IsOrigin raw base h = elim (Option-cases (t.parse (t.trim raw))) [
    | inl missing ↦ absurd (ground (arith, missing, h))
    | inr (u, parsed) ↦ elim (Bool-cases (accepts_url t u)) [
      | inr refused ↦ absurd (ground (arith, parsed, refused, h))
      | inl accepted ↦
          let (no_user, host, no_query, no_fragment) = accepts_url-plain u accepted in
          record {
            raw = raw;
            url = u;
            parsed = parsed;
            accepted = accepted;
            no_user = no_user;
            scheme = accepts_url-scheme u accepted;
            host = host;
            no_path = accepts_url-path u accepted;
            no_query = no_query;
            no_fragment = no_fragment;
            base_is = ground (arith, parsed, accepted, h);
          }
    ]
  ]

  module _ (is_blank : Bytes → Bool) (absolute : Bytes → Option (Bytes × Bool)) where
    normalize_base_url-IsOrigin :
        (raw base : Bytes)
        → normalize_base_url is_blank (validate_base_url t) absolute raw ≡ ok base
        → IsOrigin base
    unfolding normalize_base_url
    normalize_base_url-IsOrigin raw base h =
        let (given, rest) = reject_if-eq-ok (is_blank raw) _ _ h in
        elim (Option-cases (validate_base_url t raw)) [
          | inl refused ↦ absurd (ground (arith, refused, rest))
          | inr (b, valid) ↦
              let same : b ≡ base = ok-injective {E = ConfigError} (ground (arith, valid, rest)) in
              subst IsOrigin same (validate_base_url-IsOrigin raw b valid)
        ]

    pub normalize_config-IsOrigin :
        (cfg normalized : Config)
        → normalize_config is_blank (validate_base_url t) absolute cfg ≡ ok normalized
        → IsOrigin normalized.base_url
    unfolding normalize_config
    normalize_config-IsOrigin cfg normalized h =
        elim (Result-cases
          (normalize_base_url is_blank (validate_base_url t) absolute cfg.base_url)) [
            | inl (e, failed) ↦ absurd (ground (arith, failed, h))
            | inr (base, based) ↦
                elim (Result-cases
                  (normalize_cache_dir is_blank (validate_base_url t) absolute cfg.cache_dir)) [
                    | inl (e, failed) ↦ absurd (ground (arith, based, failed, h))
                    | inr (path, located) ↦
                        elim (Result-cases (check_bounds (normalized_config cfg base path))) [
                          | inl (e, outside) ↦ absurd (ground (arith, based, located, outside, h))
                          | inr (u, inside) ↦
                              let same : normalized_config cfg base path ≡ normalized =
                                ok-injective {E = ConfigError}
                                  (ground (arith, based, located, inside, h)) in
                              subst (λ c. IsOrigin c.base_url) same
                                (normalize_base_url-IsOrigin cfg.base_url base based)
                        ]
                  ]
          ]

    -- What a configuration was normalized from.
    config_from_fields-normalized :
        (raw : Fields) (cfg : Config)
        → config_from_fields t is_blank absolute raw ≡ ok cfg
        → (are_known t raw ≡ true)
          × (given : Config) × (normalize t is_blank absolute given ≡ ok cfg)
    unfolding config_from_fields
    config_from_fields-normalized raw cfg h =
        elim (Result-cases (get_string t raw (codes "base_url"))) [
          | inl (e, failed) ↦ absurd (ground (arith, failed, h))
          | inr (base_url, e1) ↦ elim (Result-cases (get_string t raw (codes "cache_dir"))) [
            | inl (e, failed) ↦ absurd (ground (arith, e1, failed, h))
            | inr (cache_dir, e2) ↦ elim (Bool-cases (are_known t raw)) [
              | inr strange ↦ absurd (ground (arith, e1, e2, strange, h))
              | inl known ↦
                  elim (Result-cases
                    (read_int t raw (codes "max_cache_bytes") (pos default_cache_bytes))) [
                      | inl (e, failed) ↦ absurd (ground (arith, e1, e2, known, failed, h))
                      | inr (cache_size, e3) ↦ elim (Result-cases (read_limits t raw)) [
                        | inl (e, failed) ↦ absurd (ground (arith, e1, e2, known, e3, failed, h))
                        | inr (limits, e4) ↦ (
                          known,
                          record {
                            base_url = base_url;
                            cache_dir = cache_dir;
                            cache_size = cache_size;
                            cache_ttl = pos cache_fallback_ttl;
                            limits = limits;
                          },
                          ground (arith, e1, e2, known, e3, e4, h),
                        )
                      ]
                    ]
            ]
          ]
        ]

    pub config_from_entries-normalized :
        (entries : List (Option ConfigEntry)) (cfg : Config)
        → config_from_entries t is_blank absolute entries ≡ ok cfg
        → (raw : Fields) × (collect_entries t none entries ≡ ok (some raw))
          × (are_known t raw ≡ true)
          × (given : Config) × (normalize t is_blank absolute given ≡ ok cfg)
    unfolding config_from_entries
    config_from_entries-normalized entries cfg h =
        elim (Result-cases (collect_entries t none entries)) [
          | inl (e, failed) ↦ absurd (ground (arith, failed, h))
          | inr (raw, collected) ↦ elim (Option-cases raw) [
            | inl missing ↦ absurd (ground (arith, collected, missing, h))
            | inr (fields, found) ↦
                let (known, given, normalized) =
                  config_from_fields-normalized fields cfg (ground (arith, collected, found, h)) in
                (fields, collected ∙ ap ok found, known, given, normalized)
          ]
        ]
