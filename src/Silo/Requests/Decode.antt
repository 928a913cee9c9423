-- ===== src/Silo/Requests/Decode.antt =====
-- `UnmarshalJSON` of a request in internal/silo/backend.go.
use mathlib.Core.Path.{subst}
use bloem_community_crowquil.Prelude.{
  ℕ, ◌≡◌, ap, Bytes, Option, none, some, arith, Option-cases, inl, inr,
}
use bloem_community_crowquil.Prelude.Int.{ℤ, pos, ◌≤ℤ◌}
use bloem_community_crowquil.Silo.Requests.{Request}
use bloem_community_crowquil.Silo.Client.{Texts, parse_json_int64}
use bloem_community_crowquil.Silo.Client.Answers.{parse_json_int64-positive}

-- A request as it is sent: the file's identifier is any JSON value.
pub record WireRequest : Type 0 where
  pub token : Bytes
  pub profile_id : Bytes
  pub profile_token : Bytes
  pub content_id : Bytes
  pub file_id : Bytes
  pub api_version : Bytes
  pub cache_key : Bytes
  pub offset : ℕ

abbrev pub request_of : WireRequest → ℤ → Request
request_of wire file_id = record {
  token = wire.token;
  profile_id = wire.profile_id;
  profile_token = wire.profile_token;
  content_id = wire.content_id;
  file_id = file_id;
  api_version = wire.api_version;
  cache_key = wire.cache_key;
  offset = wire.offset;
}

-- `decode` is the JSON decoder, which refuses unknown fields.
unfoldable pub unmarshal_request : Texts → (Bytes → Option WireRequest) → Bytes → Option Request
unmarshal_request t decode body = elim (decode body) [
  | none ↦ none
  | some wire ↦ elim (parse_json_int64 t wire.file_id) [
    | none ↦ none
    | some file_id ↦ some (request_of wire file_id)
  ]
]

abbrev id_of : ℤ → Option Request → ℤ
id_of n none = n
id_of n (some req) = req.file_id

-- The identifier of a file that was read is positive.
pub unmarshal_request-positive :
    (t : Texts) (decode : Bytes → Option WireRequest) (body : Bytes) (req : Request)
    → unmarshal_request t decode body ≡ some req
    → pos 1 ≤ℤ req.file_id
unfolding unmarshal_request
unmarshal_request-positive t decode body req h = elim (Option-cases (decode body)) [
  | inl refused ↦ absurd (ground (arith, refused, h))
  | inr (wire, decoded) ↦ elim (Option-cases (parse_json_int64 t wire.file_id)) [
    | inl strange ↦ absurd (ground (arith, decoded, strange, h))
    | inr (n, parsed) ↦
        let same : some (request_of wire n) ≡ some req = ground (arith, decoded, parsed, h) in
        subst (λ m. pos 1 ≤ℤ m) (ap (id_of n) same)
          (parse_json_int64-positive t wire.file_id n parsed)
  ]
]
