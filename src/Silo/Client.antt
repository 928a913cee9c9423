-- ===== src/Silo/Client.antt =====
-- internal/silo/client.go, and `parseJSONInt64` of internal/silo/backend.go. The HTTP and JSON
-- libraries are parameters.
pub mod Answers
use bloem_community_crowquil.Prelude.{
  ℕ, ◌+◌, ◌*◌, ◌^◌, Bool, true, false, ◌||◌, ◌&&◌, not, Bytes, List, [], ◌∷◌, ◌++◌, Option, none,
  some, Result, ok, err, ◌>>=◌, ◌>>◌, reject_if, length, ltb, ◌==◌, codes, bytes_eq, has_prefix,
  if◌then◌else◌,
}
use bloem_community_crowquil.Prelude.Int.{ℤ, pos, ltb_ℤ, eqb_ℤ}
use bloem_community_crowquil.Prelude.Strconv.{parse_decimal, format_int}
use bloem_community_crowquil.Silo.Requests.{ApiError, api_error}
use bloem_community_crowquil.Silo.Jobs.{UpstreamFile}

pub data Method : Type 0 where
  get head : Method

-- A request to the configured host; no time limit is zero.
pub record Call : Type 0 where
  pub method : Method
  pub path : Bytes
  pub headers : List (Bytes × Bytes)
  pub timeout : ℕ

-- What the answer's head says. The trimmed values of the two headers are empty where they are missing.
pub record Response : Type 0 where
  pub status : ℕ
  pub content_length : ℤ
  pub etag : Bytes
  pub last_modified : Bytes

-- `send` makes a request and sends it, without following a redirect; `read_all` is `io.ReadAll` of an
-- `io.LimitReader` on the answer's body.
pub record Http (S : Type 0) : Type 0 where
  pub send : S → Call → S × Option Response
  pub read_all : S → Response → ℕ → S × Option Bytes
  pub close_body : S → Response → S × Bool

-- `strings.TrimSpace`, and `json.Unmarshal` into a string, into
-- the identifier of a user, and into the file identifiers of an item's versions.
pub record Texts : Type 0 where
  pub trim : Bytes → Bytes
  pub unmarshal_string : Bytes → Option Bytes
  pub unmarshal_id : Bytes → Option Bytes
  pub unmarshal_versions : Bytes → Option (List Bytes)

pub record UpstreamClient : Type 0 where
  pub limit : ℤ
  pub timeout : ℕ

pub record UpstreamDownload : Type 0 where
  pub body : Response
  pub size : ℤ
  pub etag : Bytes
  pub last_modified : Bytes

abbrev pub upstream_unavailable : ApiError
upstream_unavailable = api_error 503 (codes "upstream_unavailable")

abbrev pub unauthorized : ApiError
unauthorized = api_error 401 (codes "unauthorized")

abbrev pub forbidden : ApiError
forbidden = api_error 403 (codes "forbidden")

abbrev pub not_found : ApiError
not_found = api_error 404 (codes "not_found")

unfoldable pub endpoint : Bytes → Bytes → Result ApiError Bytes
endpoint version path =
    if not (bytes_eq version (codes "v1")) && not (bytes_eq version (codes "v2"))
    then err (api_error 422 (codes "invalid_api_version"))
    else if not (has_prefix path (codes "/"))
    then err (api_error 422 (codes "invalid_upstream_path"))
    else ok (codes "/api/" ++ version ++ path)

abbrev pub optional_header : Bytes → Bytes → List (Bytes × Bytes)
optional_header name [] = []
optional_header name (c ∷ value) = (name, c ∷ value) ∷ []

abbrev pub headers_of : Bytes → Bytes → Bytes → List (Bytes × Bytes)
headers_of token profile_id profile_token =
    (codes "Authorization", codes "Bearer " ++ token)
      ∷ optional_header (codes "X-Profile-Id") profile_id
    ++ optional_header (codes "X-Profile-Token") profile_token

-- The tests on the status of an item or of its file.
unfoldable pub check_status : ℕ → Result ApiError (Unit {0})
check_status status = do
  reject_if (status == 401) unauthorized
  reject_if (status == 403) forbidden
  reject_if (status == 404) not_found
  reject_if (ltb status 200 || ltb 299 status) upstream_unavailable

unfoldable pub check_user_status : ℕ → Result ApiError (Unit {0})
check_user_status status = do
  reject_if (status == 401 || status == 403) unauthorized
  reject_if (ltb status 200 || ltb 299 status) upstream_unavailable

module _ (t : Texts) where
  starts_quoted : Bytes → Bool
  starts_quoted [] = false
  starts_quoted (c ∷ s) = c == 34

  positive_id : Option ℤ → Option ℤ
  positive_id none = none
  positive_id (some value) = if ltb_ℤ value (pos 1) then none else some value

  parse_user : Option Bytes → Option Bytes
  unfolding positive_id
  parse_user none = none
  parse_user (some text) =
      if length (t.trim text) == 0 then none else elim (positive_id (parse_decimal (t.trim text))) [
        | none ↦ none
        | some value ↦ some (format_int value)
      ]

  -- `jsonUserID`
  unfoldable pub json_user_id : Bytes → Option Bytes
  unfolding starts_quoted parse_user
  json_user_id raw =
      if length raw == 0
      then none
      else parse_user (if starts_quoted raw then t.unmarshal_string raw else some raw)

  parse_file : Option Bytes → Option ℤ
  unfolding positive_id
  parse_file none = none
  parse_file (some text) = positive_id (parse_decimal (t.trim text))

  -- `parseJSONInt64`
  unfoldable pub parse_json_int64 : Bytes → Option ℤ
  unfolding starts_quoted parse_file
  parse_json_int64 raw = parse_file (
      if ltb 1 (length (t.trim raw)) && starts_quoted (t.trim raw)
      then t.unmarshal_string raw
      else some (t.trim raw))

  -- The loop over the versions of an item.
  unfoldable pub lists_file : List Bytes → ℤ → Bool
  lists_file [] file_id = false
  lists_file (raw ∷ versions) file_id =
      let rest = lists_file versions file_id in
      elim (parse_json_int64 raw) [
        | none ↦ rest
        | some catalog_id ↦ if eqb_ℤ catalog_id file_id then true else rest
      ]

  unfoldable pub user_of : Option Bytes → Result ApiError Bytes
  user_of none = err upstream_unavailable
  user_of (some body) = elim (t.unmarshal_id body) [
    | none ↦ err upstream_unavailable
    | some raw ↦ elim (json_user_id raw) [ none ↦ err upstream_unavailable | some user ↦ ok user ]
  ]

  unfoldable pub find_file : Option Bytes → ℤ → Result ApiError (Unit {0})
  find_file none file_id = err upstream_unavailable
  find_file (some body) file_id = elim (t.unmarshal_versions body) [
    | none ↦ err upstream_unavailable
    | some versions ↦ if lists_file versions file_id then ok tt else err not_found
  ]

-- The length of the file that an answer announces.
unfoldable pub file_of : UpstreamClient → Response → Result ApiError UpstreamFile
file_of c r =
    if ltb_ℤ r.content_length (pos 0)
    then err upstream_unavailable
    else if ltb_ℤ c.limit r.content_length
    then err (api_error 413 (codes "archive_too_large"))
    else ok (record { size = r.content_length; etag = r.etag; last_modified = r.last_modified })

unfoldable pub download_of : UpstreamClient → Response → Result ApiError UpstreamDownload
download_of c r =
    if ltb_ℤ c.limit r.content_length
    then err (api_error 413 (codes "archive_too_large"))
    else ok (record {
      body = r;
      size = r.content_length;
      etag = r.etag;
      last_modified = r.last_modified;
    })

abbrev pub me_path : Bytes → Bytes
me_path version = if bytes_eq version (codes "v2") then codes "/account/me" else codes "/auth/me"

module _ {S : Type 0} (http : Http S) (t : Texts) (c : UpstreamClient) where
  unfoldable pub do_with_timeout :
      S → ℕ → Method → Bytes → Bytes → Bytes → Bytes → Bytes → S × Result ApiError Response
  do_with_timeout s timeout method version path token profile_id profile_token =
      elim (endpoint version path) [
        | err e ↦ (s, err e)
        | ok url ↦
            let (s', answer) = http.send s (record {
              method = method;
              path = url;
              headers = headers_of token profile_id profile_token;
              timeout = timeout;
            }) in
            elim answer [ none ↦ (s', err upstream_unavailable) | some r ↦ (s', ok r) ]
      ]

  unfoldable pub do_request :
      S → Method → Bytes → Bytes → Bytes → Bytes → Bytes → S × Result ApiError Response
  do_request s method version path token profile_id profile_token =
      do_with_timeout s c.timeout method version path token profile_id profile_token

  -- `readBounded`; both of its errors are one to its callers.
  unfoldable pub read_bounded : S → Response → ℕ → S × Option Bytes
  read_bounded s r max =
      if max == 0
      then (s, none)
      else let (s', got) = http.read_all s r (max + 1) in
        elim got [
          | none ↦ (s', none)
          | some bytes ↦ (s', if ltb max (length bytes) then none else some bytes)
        ]

  unfoldable pub read_user : S → Response → S × Result ApiError Bytes
  read_user s r = elim (check_user_status r.status) [
    | err e ↦ (s, err e)
    | ok done ↦ let (s', body) = read_bounded s r (2 ^ 20) in (s', user_of t body)
  ]

  unfoldable pub authenticate : S → Bytes → Bytes → S × Result ApiError Bytes
  authenticate s version token =
      let (s', answer) = do_request s get version (me_path version) token [] [] in
      elim answer [
        | err e ↦ (s', err e)
        | ok r ↦ let (s'', user) = read_user s' r in ((http.close_body s'' r).0, user)
      ]

  unfoldable pub read_item : S → Response → ℤ → S × Result ApiError (Unit {0})
  read_item s r file_id = elim (check_status r.status) [
    | err e ↦ (s, err e)
    | ok done ↦ let (s', body) = read_bounded s r (4 * 2 ^ 20) in (s', find_file t body file_id)
  ]

  unfoldable pub authorize_item :
      S → Bytes → Bytes → Bytes → Bytes → Bytes → ℤ → S × Result ApiError (Unit {0})
  authorize_item s version token profile_id profile_token content_id file_id =
      let (s', answer) =
        do_request s get version (codes "/catalog/items/" ++ content_id) token profile_id
          profile_token in
      elim answer [
        | err e ↦ (s', err e)
        | ok r ↦ let (s'', found) = read_item s' r file_id in ((http.close_body s'' r).0, found)
      ]

  abbrev pub file_path : Bytes → ℤ → Bytes
  file_path content_id file_id =
      codes "/ebooks/" ++ content_id ++ codes "/files/" ++ format_int file_id ++ codes "/read"

  unfoldable pub head_file :
      S → Bytes → Bytes → Bytes → Bytes → Bytes → ℤ → S × Result ApiError UpstreamFile
  head_file s version token profile_id profile_token content_id file_id =
      let (s', answer) =
        do_request s head version (file_path content_id file_id) token profile_id profile_token in
      elim answer [
        | err e ↦ (s', err e)
        | ok r ↦ ((http.close_body s' r).0, check_status r.status >> file_of c r)
      ]

  -- The body stays open where the answer is accepted.
  unfoldable pub download :
      S → Bytes → Bytes → Bytes → Bytes → Bytes → ℤ → S × Result ApiError UpstreamDownload
  download s version token profile_id profile_token content_id file_id =
      let (s', answer) =
        do_with_timeout s 0 get version (file_path content_id file_id) token profile_id
          profile_token in
      elim answer [
        | err e ↦ (s', err e)
        | ok r ↦ elim (check_status r.status >> download_of c r) [
          | err e ↦ ((http.close_body s' r).0, err e)
          | ok d ↦ (s', ok d)
        ]
      ]
