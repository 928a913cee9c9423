-- ===== src/Server.antt =====
-- internal/server/server.go: the routes, and how answers and errors of the backend become responses.
-- The JSON library and the backend are parameters.
pub mod Routes
pub mod Answered
use bloem_community_crowquil.Prelude.{
  ℕ, ◌+◌, ◌*◌, ◌^◌, ◌-◌, Bool, true, false, ◌||◌, ◌&&◌, not, Bytes, List, [], ◌∷◌, ◌++◌, Option,
  none, some, Result, ok, err, length, drop, codes, ltb, ◌==◌, bytes_eq, has_prefix, if◌then◌else◌,
}
use bloem_community_crowquil.Prelude.Strconv.{parse_decimal, format_uint}
use bloem_community_crowquil.Prelude.Int.{ℤ, pos, ltb_ℤ}
use bloem_community_crowquil.Silo.Constants.{chunk_bytes}
use bloem_community_crowquil.Silo.Requests.{ApiError, api_error, Request, not_configured}
use bloem_community_crowquil.Silo.Page.{PageInfo}

pub record HttpRequest : Type 0 where
  pub method : Bytes
  pub path : Bytes
  pub headers : List (Bytes × Bytes)
  pub body : Bytes

pub record HttpResponse : Type 0 where
  pub status : ℕ
  pub headers : List (Bytes × Bytes)
  pub body : Bytes

-- `silo.Result`; `Body` is none where it is nil.
pub record Outcome : Type 0 where
  pub status : ℕ
  pub pages : List PageInfo
  pub cache_key : Bytes
  pub body : Option Bytes
  pub status_json : Bytes

-- A value that is marshalled.
pub data Value : Type 0 where
  ok_status preparing_status : Value
  error_code : Bytes → Value
  page_list : Bytes → List PageInfo → ℕ → Value

-- `strings.ToUpper`, `TrimSpace` and `EqualFold`, `json.Marshal`, and a JSON decoder that
-- refuses unknown fields: the first value, and what follows it where that is not the end.
pub record ServerTexts : Type 0 where
  pub to_upper : Bytes → Bytes
  pub trim : Bytes → Bytes
  pub equal_fold : Bytes → Bytes → Bool
  pub marshal : Value → Option Bytes
  pub decode : Bytes → Option (Request × Bytes)
  pub at_end : Bytes → Bool

-- An error of the backend, `none` where it is no `APIError`.
abbrev pub Failure : Type 0
Failure = Option ApiError

-- A backend that was configured with the server; a call changes the world.
pub record Backend (S : Type 0) : Type 0 where
  pub health : S → Bytes → S × Option Failure
  pub pages : S → Request → Bytes → S × Result Failure Outcome
  pub page : S → Request → Bytes → ℤ → S × Result Failure Outcome

abbrev pub max_request_body : ℕ
max_request_body = 16 * 2 ^ 10

-- Up to the first question mark.
unfoldable pub before_question : Bytes → Bytes
before_question [] = []
before_question (c ∷ path) = let rest = before_question path in if c == b'?' then [] else c ∷ rest

unfoldable pub has_slash : Bytes → Bool
has_slash [] = false
has_slash (c ∷ s) = let rest = has_slash s in if c == b'/' then true else rest

abbrev pub page_prefix : Bytes
page_prefix = codes "/v1/page/"

abbrev pub not_found : ApiError
not_found = api_error 404 (codes "not_found")

abbrev pub invalid_page : ApiError
invalid_page = api_error 422 (codes "invalid_page")

module _ (t : ServerTexts) where
  unfoldable pub json_response : ℕ → Value → HttpResponse
  json_response status value = elim (t.marshal value) [
    | some body ↦ record {
      status = status;
      headers =
          (codes "Content-Type", codes "application/json")
          ∷ (codes "Content-Length", format_uint (length body))
          ∷ [];
      body = body;
    }
    | none ↦ record {
      status = 503;
      headers =
          (codes "Content-Type", codes "application/json")
          ∷ (codes "Content-Length", format_uint 23)
          ∷ [];
      body = codes "{\"error\":\"unavailable\"}";
    }
  ]

  unfoldable pub response_for_error : Failure → HttpResponse
  response_for_error none = json_response 503 (error_code (codes "unavailable"))
  response_for_error (some e) =
      if e.status == 202
      then json_response e.status preparing_status
      else json_response e.status (error_code e.code)

  unfoldable pub response_for_outcome : Outcome → HttpResponse
  response_for_outcome result = elim result.body [
    | some body ↦ record {
      status = result.status;
      headers =
          (codes "Content-Type", codes "application/octet-stream")
          ∷ (codes "Cache-Control", codes "no-store")
          ∷ (codes "Content-Length", format_uint (length body))
          ∷ [];
      body = body;
    }
    | none ↦
        if not (length result.status_json == 0)
        then record {
          status = result.status;
          headers = (codes "Content-Type", codes "application/json") ∷ [];
          body = result.status_json;
        }
        else json_response result.status (page_list result.cache_key result.pages chunk_bytes)
  ]

  unfoldable pub response_for_result : Result Failure Outcome → HttpResponse
  response_for_result (err e) = response_for_error e
  response_for_result (ok result) = response_for_outcome result

  unfoldable pub header_value : List (Bytes × Bytes) → Bytes → Bytes
  header_value [] name = []
  header_value ((key, value) ∷ headers) name =
      let rest = header_value headers name in if t.equal_fold key name then t.trim value else rest

  unfoldable pub decode_request : Bytes → Result ApiError Request
  decode_request body =
      if ltb max_request_body (length body)
      then err (api_error 413 (codes "request_too_large"))
      else elim (t.decode body) [
        | none ↦ err (api_error 422 (codes "invalid_request"))
        | some (request, rest) ↦
            if t.at_end rest then ok request else err (api_error 422 (codes "invalid_request"))
      ]

  -- The number of a page in a path.
  unfoldable pub page_index : Bytes → Result ApiError ℤ
  page_index text =
      if (length text == 0) || has_slash text then err not_found else elim (parse_decimal text) [
        | none ↦ err invalid_page
        | some index ↦ if ltb_ℤ index (pos 0) then err invalid_page else ok index
      ]

  module _ {S : Type 0} (backend : Option (Backend S)) where
    unfoldable pub handle_health : S → HttpRequest → S × HttpResponse
    handle_health s req = elim backend [
      | none ↦ (s, response_for_error (some not_configured))
      | some b ↦
          let (s', failed) = b.health s (header_value req.headers (codes "X-Silo-User-Id")) in
          elim failed [
            | some e ↦ (s', response_for_error e)
            | none ↦ (s', json_response 200 ok_status)
          ]
    ]

    unfoldable pub handle_page : Backend S → S → Request → Bytes → Bytes → S × HttpResponse
    handle_page b s request user text = elim (page_index text) [
      | err e ↦ (s, response_for_error (some e))
      | ok index ↦
          let (s', result) = b.page s request user index in (s', response_for_result result)
    ]

    -- The routes of a request that was decoded.
    unfoldable pub route : Backend S → S → Bytes → Request → Bytes → S × HttpResponse
    route b s path request user =
        if bytes_eq path (codes "/v1/pages")
        then (let (s', result) = b.pages s request user in (s', response_for_result result))
        else if has_prefix path page_prefix
        then handle_page b s request user (drop (length page_prefix) path)
        else (s, response_for_error (some not_found))

    unfoldable pub handle_post : S → HttpRequest → Bytes → S × HttpResponse
    handle_post s req path = elim (decode_request req.body) [
      | err e ↦ (s, response_for_error (some e))
      | ok request ↦ elim backend [
        | none ↦ (s, response_for_error (some not_configured))
        | some b ↦ route b s path request (header_value req.headers (codes "X-Silo-User-Id"))
      ]
    ]

    -- `none` is a request that is nil.
    unfoldable pub handle : S → Option HttpRequest → S × HttpResponse
    handle s none = (s, response_for_error (some (api_error 422 (codes "invalid_request"))))
    handle s (some req) =
        let method = t.to_upper (t.trim req.method) in
        let path = before_question req.path in
        if bytes_eq method (codes "GET") && bytes_eq path (codes "/v1/health")
        then handle_health s req
        else if not (bytes_eq method (codes "POST"))
        then (s, response_for_error (some not_found))
        else handle_post s req path
