-- ===== src/Silo/Requests.antt =====
-- Requests and their errors: `Request`, `validateRequest`, `validPathID` and `validHeaderValue` of
-- internal/silo/backend.go, and internal/silo/errors.go.
pub mod Paths
pub mod Decode
use bloem_community_crowquil.Prelude.{
  ℕ, ◌*◌, ◌^◌, Bool, true, false, ◌&&◌, ◌||◌, not, Bytes, List, [], ◌∷◌, Result, ok, err, ◌>>=◌,
  ◌>>◌, reject_if, length, ltb, ◌==◌, codes, bytes_eq, if◌then◌else◌,
}
use bloem_community_crowquil.Prelude.Int.{ℤ, pos, ltb_ℤ}
use bloem_community_crowquil.Silo.Keys.{normalize_key}

pub record ApiError : Type 0 where
  pub status : ℕ
  pub code : Bytes

abbrev pub api_error : ℕ → Bytes → ApiError
api_error status code = record { status = status; code = code }

pub record Request : Type 0 where
  pub token : Bytes
  pub profile_id : Bytes
  pub profile_token : Bytes
  pub content_id : Bytes
  pub file_id : ℤ
  pub api_version : Bytes
  pub cache_key : Bytes
  pub offset : ℕ

abbrev pub is_separator : ℕ → Bool
is_separator c = c == b'/' || c == 92 || c == b'?' || c == b'#'

-- The loops over the characters; a character outside ASCII is never refused, and neither are its bytes.
unfoldable pub path_chars : Bytes → Bool
path_chars [] = true
path_chars (c ∷ s) = let rest = path_chars s in if ltb c 32 || is_separator c then false else rest

unfoldable pub valid_path_id : Bytes → Bool
valid_path_id value = if ltb 512 (length value) then false else path_chars value

unfoldable pub valid_header_value : Bytes → Bool
valid_header_value [] = true
valid_header_value (c ∷ s) =
    let rest = valid_header_value s in if ltb c 32 || c == 127 then false else rest

-- `strings.TrimSpace(s) == ""` is a parameter.
unfoldable pub validate_request : (Bytes → Bool) → Request → Bool → Result ApiError (Unit {0})
validate_request is_blank req require_cache_key = do
  reject_if (is_blank req.token || ltb (16 * 2 ^ 10) (length req.token))
      (api_error 401 (codes "unauthorized"))
  reject_if
      (ltb (16 * 2 ^ 10) (length req.profile_token) || not (valid_header_value req.profile_token))
      (api_error 422 (codes "invalid_profile_token"))
  reject_if (is_blank req.profile_id || not (valid_path_id req.profile_id))
      (api_error 422 (codes "invalid_profile"))
  reject_if (is_blank req.content_id || not (valid_path_id req.content_id))
      (api_error 422 (codes "invalid_content"))
  reject_if (ltb_ℤ req.file_id (pos 1)) (api_error 422 (codes "invalid_file"))
  reject_if
      (not (bytes_eq req.api_version (codes "v1")) && not (bytes_eq req.api_version (codes "v2")))
      (api_error 422 (codes "invalid_api_version"))
  reject_if (not (length req.cache_key == 0) && (length (normalize_key req.cache_key) == 0))
      (api_error 422 (codes "invalid_cache_key"))
  reject_if (require_cache_key && (length req.cache_key == 0))
      (api_error 422 (codes "cache_key_required"))

abbrev pub not_configured : ApiError
not_configured = api_error 503 (codes "not_configured")

abbrev pub preparing : ApiError
preparing = api_error 202 (codes "preparing")

abbrev pub cache_stale : ApiError
cache_stale = api_error 409 (codes "cache_key_changed")

abbrev pub cache_missing : ApiError
cache_missing = api_error 409 (codes "cache_evicted")
