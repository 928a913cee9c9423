-- ===== src/Silo/Requests/Paths.antt =====
-- What a validated request can put into an upstream URL and its headers.
use bloem_community_crowquil.Prelude.{
  ℕ, ◌≤◌, ◌≡◌, ◌≢◌, Bool, true, Bytes, [], ◌∷◌, ok, length, arith, All,
}
use bloem_community_crowquil.Prelude.Int.{pos, ◌≤ℤ◌}
use bloem_community_crowquil.Silo.Requests.{
  Request, path_chars, valid_path_id, valid_header_value, validate_request,
}

-- A byte that ends no path segment and is none of the first 32.
abbrev pub IsPathChar : ℕ → Type 0
IsPathChar c = (32 ≤ c) × (c ≢ b'/') × (c ≢ 92) × (c ≢ b'?') × (c ≢ b'#')

abbrev pub IsHeaderChar : ℕ → Type 0
IsHeaderChar c = (32 ≤ c) × (c ≢ 127)

path_chars-IsPathChar : (s : Bytes) → path_chars s ≡ true → All IsPathChar s
unfolding path_chars
path_chars-IsPathChar [] h = tt
path_chars-IsPathChar (c ∷ s) h = (ground arith, path_chars-IsPathChar s (ground arith))

valid_header_value-IsHeaderChar : (s : Bytes) → valid_header_value s ≡ true → All IsHeaderChar s
unfolding valid_header_value
valid_header_value-IsHeaderChar [] h = tt
valid_header_value-IsHeaderChar (c ∷ s) h =
    (ground arith, valid_header_value-IsHeaderChar s (ground arith))

pub record IsSafe (req : Request) : Type 0 where
  pub profile_id : All IsPathChar req.profile_id
  pub profile_id_length : length req.profile_id ≤ 512
  pub content_id : All IsPathChar req.content_id
  pub content_id_length : length req.content_id ≤ 512
  pub profile_token : All IsHeaderChar req.profile_token
  pub token_length : length req.token ≤ 16384
  pub file_id : pos 1 ≤ℤ req.file_id

module _ (is_blank : Bytes → Bool) (req : Request) (require_cache_key : Bool)
    (valid : validate_request is_blank req require_cache_key ≡ ok tt) where
  profile_id_valid : valid_path_id req.profile_id ≡ true
  unfolding validate_request
  profile_id_valid = ground arith

  content_id_valid : valid_path_id req.content_id ≡ true
  unfolding validate_request
  content_id_valid = ground arith

  profile_token_valid : valid_header_value req.profile_token ≡ true
  unfolding validate_request
  profile_token_valid = ground arith

  numbers_valid : (length req.token ≤ 16384) × (pos 1 ≤ℤ req.file_id)
  unfolding validate_request
  numbers_valid = ground arith

path_id-short : (s : Bytes) → valid_path_id s ≡ true → (length s ≤ 512) × (path_chars s ≡ true)
unfolding valid_path_id
path_id-short s h = ground arith

-- A request that was validated has profile and content identifiers of at most 512 bytes that hold
-- no byte below 32, slash, backslash, question mark or hash, a profile token without a byte below
-- 32 or the byte 127, a token of at most 16 KiB, and a positive file identifier.
pub validate_request-IsSafe :
    (is_blank : Bytes → Bool) (req : Request) (require_cache_key : Bool)
    → validate_request is_blank req require_cache_key ≡ ok tt
    → IsSafe req
validate_request-IsSafe is_blank req require_cache_key valid =
    let (profile_short, profile) =
      path_id-short req.profile_id (profile_id_valid is_blank req require_cache_key valid) in
    let (content_short, content) =
      path_id-short req.content_id (content_id_valid is_blank req require_cache_key valid) in
    let (token, file) = numbers_valid is_blank req require_cache_key valid in
    record {
      profile_id = path_chars-IsPathChar req.profile_id profile;
      profile_id_length = profile_short;
      content_id = path_chars-IsPathChar req.content_id content;
      content_id_length = content_short;
      profile_token =
          valid_header_value-IsHeaderChar req.profile_token
            (profile_token_valid is_blank req require_cache_key valid);
      token_length = token;
      file_id = file;
    }
