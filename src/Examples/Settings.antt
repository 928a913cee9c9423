-- ===== src/Examples/Settings.antt =====
-- A request that is valid, and a configuration with two fields set.
use bloem_community_crowquil.Prelude.{
  ◌*◌, ◌^◌, ◌≡◌, refl, Bool, true, false, Bytes, List, [], ◌∷◌, Option, none, some, ok, codes,
  ℕ_discrete, bytes_eq,
}
use bloem_community_crowquil.Prelude.Int.{pos}
use bloem_community_crowquil.Silo.Requests.{
  Request, validate_request, valid_path_id, path_chars, valid_header_value,
}
use bloem_community_crowquil.Silo.Requests.Paths.{IsSafe, validate_request-IsSafe}
use bloem_community_crowquil.Silo.Config.{Config, bounded_defaults}
use bloem_community_crowquil.Silo.Config.Entries.{UrlTexts, Fields, ConfigEntry, text}

abbrev is_blank : Bytes → Bool
is_blank [] = true
is_blank (c ∷ s) = false

abbrev request : Request
request = record {
  token = codes "token";
  profile_id = codes "7";
  profile_token = [];
  content_id = codes "book";
  file_id = pos 3;
  api_version = codes "v1";
  cache_key = [];
  offset = 0;
}

request_valid : validate_request is_blank request false ≡ ok tt
unfolding validate_request valid_path_id path_chars valid_header_value bytes_eq ℕ_discrete
request_valid = refl

validate_request-IsSafe_example : IsSafe request
validate_request-IsSafe_example = validate_request-IsSafe is_blank request false request_valid

abbrev pub same_path : Bytes → Option (Bytes × Bool)
same_path path = some (path, false)

abbrev pub normalized : Config
normalized = record {
  base_url = codes "https://silo";
  cache_dir = codes "/cache";
  cache_size = pos (2 * 2 ^ 30);
  cache_ttl = pos (600 * 10 ^ 9);
  limits = bounded_defaults;
}

abbrev texts : UrlTexts
texts = record {
  trim = λ s. s;
  trim_slashes = λ s. s;
  equal_fold = λ a b. false;
  parse = λ s. some (record {
    scheme = codes "https";
    host = codes "silo";
    hostname = codes "silo";
    has_user = false;
    path = codes "/";
    raw_path = [];
    force_query = false;
    raw_query = [];
    fragment = [];
  });
  to_string = λ u. codes "https://silo";
  is_loopback_ip = λ s. false;
}

abbrev fields : Fields
fields =
    (codes "base_url", text (codes "https://silo/"))
    ∷ (codes "cache_dir", text (codes "/cache"))
    ∷ []

abbrev pub entries : List (Option ConfigEntry)
entries = none ∷ some (record { key = codes "connection"; value = some fields }) ∷ []
