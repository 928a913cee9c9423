-- ===== src/Silo/Jobs.antt =====
-- The fingerprint of an upstream file and the errors of a job, in internal/silo/backend.go.
pub mod Fingerprint
use bloem_community_crowquil.Prelude.{
  Bool, true, false, ◌||◌, Bytes, List, [], ◌∷◌, ◌++◌, Option, none, some, codes, if◌then◌else◌,
}
use bloem_community_crowquil.Prelude.Int.{ℤ}
use bloem_community_crowquil.Prelude.Strconv.{format_int}
use bloem_community_crowquil.Archive.Errors.{Error, canceled, deadline_exceeded}
use bloem_community_crowquil.Silo.Requests.{ApiError, api_error, Request}

-- The fields of an upstream file that its fingerprint reads.
pub record UpstreamFile : Type 0 where
  pub size : ℤ
  pub etag : Bytes
  pub last_modified : Bytes

-- `strings.Join(parts, "\x00")`
unfoldable pub join_nul : List Bytes → Bytes
join_nul [] = []
join_nul (s ∷ []) = s
join_nul (s ∷ t ∷ parts) = s ++ 0 ∷ join_nul (t ∷ parts)

unfoldable pub fingerprint_for : Request → UpstreamFile → Bytes
fingerprint_for req file = join_nul (
    req.api_version
    ∷ req.content_id
    ∷ format_int req.file_id
    ∷ format_int file.size
    ∷ file.etag
    ∷ file.last_modified
    ∷ [])

is_context_error : Error → Bool
is_context_error canceled = true
is_context_error deadline_exceeded = true
is_context_error _ = false

is_done : Option Error → Bool
is_done none = false
is_done (some e) = true

unfoldable pub map_extract_error : Option Error → Error → ApiError
unfolding is_context_error is_done
map_extract_error context_error e =
    if is_context_error e || is_done context_error
    then api_error 503 (codes "extraction_timeout")
    else api_error 422 (codes "invalid_archive")
