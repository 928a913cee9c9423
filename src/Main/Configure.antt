-- ===== src/Main/Configure.antt =====
-- `Configure` of the runtime server in main.go: the host's entries on their way to the backend.
use mathlib.Core.Path.{subst}
use bloem_community_crowquil.Prelude.{
  ◌≡◌, ap, sym, ◌∙◌, true, false, Bytes, [], List, Option, none, some, ok, err, ok-injective, arith,
  Bool-cases, Option-cases, Result-cases, inl, inr,
}
use bloem_community_crowquil.Silo.Constants.{upstream_timeout}
use bloem_community_crowquil.Silo.Requests.{ApiError}
use bloem_community_crowquil.Silo.Config.{Config, normalize_config}
use bloem_community_crowquil.Silo.Config.Twice.{AreStable, normalize_config_twice}
use bloem_community_crowquil.Silo.Config.Entries.{
  Url, UrlTexts, ConfigEntry, EntryError, is_origin, accepts_url, origin_of, validate_base_url,
  normalize, config_from_entries,
}
use bloem_community_crowquil.Silo.Config.Entries.Origin.{
  normalize_config-IsOrigin, config_from_entries-normalized,
}
use bloem_community_crowquil.Silo.Lifecycle.{
  ConfigTexts, replacing, new_upstream_client, validate_configuration,
}

-- The request has no configuration; its entries are refused; or the backend refuses the configuration.
pub data ConfigureError : Type 0 where
  configuration_required : ConfigureError
  invalid_entries : EntryError → ConfigureError
  refused : ApiError → ConfigureError

abbrev as_refused : Option ApiError → Option ConfigureError
as_refused none = none
as_refused (some e) = some (refused e)

module _ {S : Type 0} (t : UrlTexts) (c : ConfigTexts)
    (backend : S → Config → S × Option ApiError) where
  unfoldable pub configure : S → Option (List (Option ConfigEntry)) → S × Option ConfigureError
  configure s none = (s, some configuration_required)
  configure s (some entries) = elim (config_from_entries t c.is_blank c.absolute entries) [
    | err e ↦ (s, some (invalid_entries e))
    | ok cfg ↦ let (s', e) = backend s cfg in (s', as_refused e)
  ]

abbrev plain_origin : Url → Url
plain_origin u = record u { path = []; raw_path = [] }

-- What the libraries promise of texts that they made: an origin is printed as a text that is parsed as
-- that origin, with nothing to trim and not blank, and an absolute clean path is one.
pub record Reparses (t : UrlTexts) (c : ConfigTexts) : Type 0 where
  pub origin :
      (s : Bytes) (u : Url)
      → t.parse s ≡ some u
      → accepts_url t u ≡ true
      → t.parse (t.trim (origin_of t u)) ≡ some (plain_origin u)
  pub parses :
      (s : Bytes) (u : Url)
      → t.parse s ≡ some u
      → accepts_url t u ≡ true
      → c.parses (origin_of t u) ≡ true
  pub not_blank :
      (s : Bytes) (u : Url)
      → t.parse s ≡ some u
      → accepts_url t u ≡ true
      → c.is_blank (origin_of t u) ≡ false
  pub path_not_blank :
      (raw path : Bytes) → c.absolute raw ≡ some (path, false) → c.is_blank path ≡ false
  pub path :
      (raw path : Bytes)
      → c.absolute raw ≡ some (path, false)
      → c.absolute path ≡ some (path, false)

module _ (t : UrlTexts) (c : ConfigTexts) (laws : Reparses t c)
    (validates : c.validate_base_url ≡ validate_base_url t) where
  validate_base_url_origin :
      (raw base : Bytes)
      → validate_base_url t raw ≡ some base
      → (u : Url) × (t.parse (t.trim raw) ≡ some u)
        × (accepts_url t u ≡ true)
        × (base ≡ origin_of t u)
  unfolding validate_base_url
  validate_base_url_origin raw base h = elim (Option-cases (t.parse (t.trim raw))) [
    | inl missing ↦ absurd (ground (arith, missing, h))
    | inr (u, parsed) ↦ elim (Bool-cases (accepts_url t u)) [
      | inr other ↦ absurd (ground (arith, parsed, other, h))
      | inl accepted ↦ (u, parsed, accepted, ground (arith, parsed, accepted, h))
    ]
  ]

  plain_origin-accepted : (u : Url) → accepts_url t u ≡ true → accepts_url t (plain_origin u) ≡ true
  unfolding accepts_url is_origin
  plain_origin-accepted u h = ground (arith, h)

  validate_base_url_accepted :
      (s : Bytes) (u : Url)
      → t.parse (t.trim s) ≡ some u
      → accepts_url t u ≡ true
      → validate_base_url t s ≡ some (origin_of t u)
  unfolding validate_base_url
  validate_base_url_accepted s u parsed accepted = ground (arith, parsed, accepted)

  validate_base_url-AreStable : AreStable c.is_blank (validate_base_url t) c.absolute
  validate_base_url-AreStable = record {
    base_not_blank = λ raw base h.
        let (u, parsed, accepted, printed) = validate_base_url_origin raw base h in
        ap c.is_blank printed ∙ laws.not_blank (t.trim raw) u parsed accepted;
    base = λ raw base h.
        let (u, parsed, accepted, printed) = validate_base_url_origin raw base h in
        ap (validate_base_url t) printed
        ∙ validate_base_url_accepted (origin_of t u) (plain_origin u)
            (laws.origin (t.trim raw) u parsed accepted) (plain_origin-accepted u accepted)
        ∙ ap some (sym printed);
    path_not_blank = laws.path_not_blank;
    path = laws.path;
  }

  normalize-inversion :
      (given cfg : Config)
      → normalize t c.is_blank c.absolute given ≡ ok cfg
      → normalize_config c.is_blank (validate_base_url t) c.absolute given ≡ ok cfg
  normalize-inversion given cfg h =
      elim (Result-cases (normalize_config c.is_blank (validate_base_url t) c.absolute given)) [
        | inl (e, failed) ↦ absurd (ground (arith, failed, h))
        | inr (cfg', accepted) ↦
            accepted ∙ ap ok (ok-injective {E = EntryError} (ground (arith, accepted, h)))
      ]

  normalize_config-parses :
      (given cfg : Config)
      → normalize_config c.is_blank (validate_base_url t) c.absolute given ≡ ok cfg
      → c.parses cfg.base_url ≡ true
  normalize_config-parses given cfg h =
      let o = normalize_config-IsOrigin t c.is_blank c.absolute given cfg h in
      ap c.parses o.base_is ∙ laws.parses (t.trim o.raw) o.url o.parsed o.accepted

  -- Over libraries that read their own texts back, a configuration that was decoded from the host's
  -- entries passes the second validation in the backend's Configure, which leaves it as it is and
  -- makes a client with its archive limit.
  pub validate_configuration-config_from_entries :
      (entries : List (Option ConfigEntry)) (cfg : Config)
      → config_from_entries t c.is_blank c.absolute entries ≡ ok cfg
      → validate_configuration c cfg
        ≡ ok (
            replacing cfg
              (record { limit = cfg.limits.max_archive_bytes; timeout = upstream_timeout }))
  unfolding validate_configuration new_upstream_client
  validate_configuration-config_from_entries entries cfg h =
      let (raw, collected, known, given, normalized) =
        config_from_entries-normalized t c.is_blank c.absolute entries cfg h in
      let first = normalize-inversion given cfg normalized in
      let parses = normalize_config-parses given cfg first in
      let second =
        normalize_config_twice c.is_blank (validate_base_url t) c.absolute
          validate_base_url-AreStable given cfg first in
      let second' =
        subst (λ v. normalize_config c.is_blank v c.absolute cfg ≡ ok cfg) (sym validates) second in
      ground (arith, second', parses)
