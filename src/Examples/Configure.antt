-- ===== src/Examples/Configure.antt =====
-- A plugin that is configured with an origin behind a slash.
use bloem_community_crowquil.Prelude.{
  ◌≡◌, refl, ap, true, false, Bytes, [], ◌∷◌, Option, none, some, ok, codes, bytes_eq,
  if◌then◌else◌, ℕ_discrete,
}
use bloem_community_crowquil.Silo.Config.{
  normalize_base_url, normalize_cache_dir, check_bounds, fill_limits, limits_outside_bounds,
  normalize_config,
}
use bloem_community_crowquil.Silo.Config.Entries.{
  Url, UrlTexts, is_origin, is_loopback_host, accepts_url, validate_base_url, collect_entries,
  find_field, get_string, read_int, are_known, read_limits, config_from_fields, config_from_entries,
}
use bloem_community_crowquil.Silo.Lifecycle.{ConfigTexts, replacing, validate_configuration}
use bloem_community_crowquil.Silo.Constants.{upstream_timeout}
use bloem_community_crowquil.Main.Configure.{Reparses, validate_configuration-config_from_entries}
use bloem_community_crowquil.Examples.Settings.{normalized, entries}

abbrev url : Bytes → Url
url path = record {
  scheme = codes "https";
  host = codes "silo";
  hostname = codes "silo";
  has_user = false;
  path = path;
  raw_path = [];
  force_query = false;
  raw_query = [];
  fragment = [];
}

abbrev origin : Bytes
origin = codes "https://silo"

abbrev texts : UrlTexts
texts = record {
  trim = λ s. s;
  trim_slashes = λ s. s;
  equal_fold = λ a b. false;
  parse = λ s. some (url (if bytes_eq s origin then [] else codes "/"));
  to_string = λ u. origin;
  is_loopback_ip = λ s. false;
}

abbrev config_texts : ConfigTexts
config_texts = record {
  is_blank = λ s. false;
  validate_base_url = validate_base_url texts;
  absolute = λ path. some (path, false);
  parses = λ s. true;
  split = λ s. s ∷ [];
}

abbrev plain_of : Option Url → Option Url
plain_of none = none
plain_of (some u) = some (record u { path = []; raw_path = [] })

laws : Reparses texts config_texts
unfolding bytes_eq ℕ_discrete
laws = record {
  origin = λ s u parsed accepted. ap plain_of parsed;
  parses = λ s u parsed accepted. refl;
  not_blank = λ s u parsed accepted. refl;
  path_not_blank = λ raw path h. refl;
  path = λ raw path h. refl;
}

entries_accepted :
    config_from_entries texts config_texts.is_blank config_texts.absolute entries ≡ ok normalized
unfolding config_from_entries collect_entries config_from_fields get_string find_field are_known
    read_int read_limits validate_base_url accepts_url is_origin is_loopback_host normalize_config
    normalize_base_url normalize_cache_dir check_bounds fill_limits limits_outside_bounds bytes_eq
    ℕ_discrete
entries_accepted = refl

validate_configuration-config_from_entries_example :
    validate_configuration config_texts normalized
    ≡ ok (
        replacing normalized
          (record { limit = normalized.limits.max_archive_bytes; timeout = upstream_timeout }))
validate_configuration-config_from_entries_example =
    validate_configuration-config_from_entries texts config_texts laws refl entries normalized
      entries_accepted
