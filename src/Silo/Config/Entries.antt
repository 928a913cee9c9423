-- ===== src/Silo/Config/Entries.antt =====
-- `ConfigFromEntries`, `validateBaseURL` and `isLoopbackHost` of internal/silo/config.go. The URL
-- library is a parameter.
pub mod Origin
use bloem_community_crowquil.Prelude.{
  ℕ, Bool, true, false, ◌||◌, ◌&&◌, not, Bytes, List, [], ◌∷◌, Option, none, some, Result, ok, err,
  ◌>>=◌, ◌>>◌, reject_if, length, codes, ◌==◌, bytes_eq, if◌then◌else◌,
}
use bloem_community_crowquil.Prelude.Int.{ℤ, pos}
use bloem_community_crowquil.Archive.Limits.{Limits}
use bloem_community_crowquil.Silo.Constants.{default_cache_bytes, cache_fallback_ttl}
use bloem_community_crowquil.Silo.Config.{Config, ConfigError, bounded_defaults, normalize_config}

-- `force_query` is whether a question mark without a query follows.
pub record Url : Type 0 where
  pub scheme : Bytes
  pub host : Bytes
  pub hostname : Bytes
  pub has_user : Bool
  pub path : Bytes
  pub raw_path : Bytes
  pub force_query : Bool
  pub raw_query : Bytes
  pub fragment : Bytes

-- `strings.TrimSpace`, `TrimRight(s, "/")` and `EqualFold`, `url.Parse` and `String`, and whether
-- `net.ParseIP` gives a loopback address.
pub record UrlTexts : Type 0 where
  pub trim : Bytes → Bytes
  pub trim_slashes : Bytes → Bytes
  pub equal_fold : Bytes → Bytes → Bool
  pub parse : Bytes → Option Url
  pub to_string : Url → Bytes
  pub is_loopback_ip : Bytes → Bool

-- A field of the connection: a text, a number that is an integer, one that is not, or something else.
pub data FieldValue : Type 0 where
  text : Bytes → FieldValue
  integer : ℤ → FieldValue
  fraction other : FieldValue

abbrev pub Fields : Type 0
Fields = List (Bytes × FieldValue)

pub record ConfigEntry : Type 0 where
  pub key : Bytes
  pub value : Option Fields

pub data EntryError : Type 0 where
  unknown_key connection_required connection_duplicated : EntryError
  field_required not_text unknown_field not_integer : EntryError
  rejected : ConfigError → EntryError

unfoldable pub is_origin : Url → Bool
is_origin u =
    (length u.raw_query == 0)
    && (length u.fragment == 0)
    && ((length u.path == 0) || bytes_eq u.path (codes "/"))

module _ (t : UrlTexts) where
  unfoldable pub is_loopback_host : Bytes → Bool
  is_loopback_host host = t.equal_fold host (codes "localhost") || t.is_loopback_ip host

  -- The tests on a parsed URL, in the source's order; its errors are one to the caller.
  unfoldable pub accepts_url : Url → Bool
  accepts_url u =
      not (length u.scheme == 0)
      && not (length u.host == 0)
      && not u.has_user
      && (bytes_eq u.scheme (codes "http") || bytes_eq u.scheme (codes "https"))
      && is_origin u
      && (not (bytes_eq u.scheme (codes "http")) || is_loopback_host u.hostname)

  abbrev pub origin_of : Url → Bytes
  origin_of u = t.trim_slashes (t.to_string (record u { path = []; raw_path = [] }))

  unfoldable pub validate_base_url : Bytes → Option Bytes
  validate_base_url raw = elim (t.parse (t.trim raw)) [
    | none ↦ none
    | some u ↦ if accepts_url u then some (origin_of u) else none
  ]

  -- The loop over the entries; a nil entry is skipped.
  unfoldable pub collect_entries :
      Option Fields → List (Option ConfigEntry) → Result EntryError (Option Fields)
  collect_entries raw [] = ok raw
  collect_entries raw (none ∷ entries) = collect_entries raw entries
  collect_entries raw (some entry ∷ entries) = elim (bytes_eq entry.key (codes "connection")) [
    | false ↦ err unknown_key
    | true ↦ elim entry.value [
      | none ↦ err connection_required
      | some fields ↦ elim raw [
        | some before ↦ err connection_duplicated
        | none ↦ collect_entries (some fields) entries
      ]
    ]
  ]

  unfoldable pub find_field : Bytes → Fields → Option FieldValue
  find_field key [] = none
  find_field key ((k, value) ∷ fields) =
      let rest = find_field key fields in if bytes_eq k key then some value else rest

  -- `getString` of a required key.
  unfoldable pub get_string : Fields → Bytes → Result EntryError Bytes
  get_string raw key = elim (find_field key raw) [
    | none ↦ err field_required
    | some (text s) ↦ if length (t.trim s) == 0 then err not_text else ok (t.trim s)
    | some _ ↦ err not_text
  ]

  -- `readInt`
  unfoldable pub read_int : Fields → Bytes → ℤ → Result EntryError ℤ
  read_int raw key current = elim (find_field key raw) [
    | none ↦ ok current
    | some (integer n) ↦ ok n
    | some _ ↦ err not_integer
  ]

  abbrev pub is_known_field : Bytes → Bool
  is_known_field key =
      bytes_eq key (codes "base_url")
      || bytes_eq key (codes "cache_dir")
      || bytes_eq key (codes "max_cache_bytes")
      || bytes_eq key (codes "max_entries")
      || bytes_eq key (codes "max_page_bytes")
      || bytes_eq key (codes "max_total_bytes")
      || bytes_eq key (codes "max_archive_bytes")
      || bytes_eq key (codes "max_dictionary_bytes")

  unfoldable pub are_known : Fields → Bool
  are_known [] = true
  are_known ((key, value) ∷ fields) = is_known_field key && are_known fields

  -- The four limits of sizes are read in an order that Go leaves open, with one error for all.
  unfoldable pub read_limits : Fields → Result EntryError Limits
  read_limits raw = do
    entries ← read_int raw (codes "max_entries") bounded_defaults.max_entries
    page_bytes ← read_int raw (codes "max_page_bytes") bounded_defaults.max_page_bytes
    total_bytes ← read_int raw (codes "max_total_bytes") bounded_defaults.max_total_bytes
    archive_bytes ← read_int raw (codes "max_archive_bytes") bounded_defaults.max_archive_bytes
    dictionary ← read_int raw (codes "max_dictionary_bytes") bounded_defaults.max_dictionary_bytes
    ok (record {
      max_entries = entries;
      max_page_bytes = page_bytes;
      max_total_bytes = total_bytes;
      max_archive_bytes = archive_bytes;
      max_dictionary_bytes = dictionary;
    })

  module _ (is_blank : Bytes → Bool) (absolute : Bytes → Option (Bytes × Bool)) where
    abbrev pub normalize : Config → Result EntryError Config
    normalize cfg = elim (normalize_config is_blank validate_base_url absolute cfg) [
      | err e ↦ err (rejected e)
      | ok normalized ↦ ok normalized
    ]

    unfoldable pub config_from_fields : Fields → Result EntryError Config
    config_from_fields raw = do
      base_url ← get_string raw (codes "base_url")
      cache_dir ← get_string raw (codes "cache_dir")
      reject_if (not (are_known raw)) unknown_field
      cache_size ← read_int raw (codes "max_cache_bytes") (pos default_cache_bytes)
      limits ← read_limits raw
      normalize (record {
        base_url = base_url;
        cache_dir = cache_dir;
        cache_size = cache_size;
        cache_ttl = pos cache_fallback_ttl;
        limits = limits;
      })

    unfoldable pub config_from_entries : List (Option ConfigEntry) → Result EntryError Config
    config_from_entries entries = collect_entries none entries >>= λ raw. elim raw [
      | none ↦ err connection_required
      | some fields ↦ config_from_fields fields
    ]
