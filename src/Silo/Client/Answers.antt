-- ===== src/Silo/Client/Answers.antt =====
-- Lemmas on the answers that internal/silo/client.go accepts.
use mathlib.Core.Path.{subst}
use mathlib.Core.Option.{some-injective}
use bloem_community_crowquil.Prelude.Strconv.{format_int}
use bloem_community_crowquil.Prelude.{
  ℕ, ◌+◌, ◌∙◌, ap, sym, ◌≢◌, ◌⊎◌, ◌∷◌, length, ltb, ◌==◌, bytes_eq, bytes_eq_sound, ℕ_discrete, ◌*◌,
  ◌^◌, ◌≤◌, ◌≡◌, refl, true, Bytes, List, [], ok-injective, Option, none, some, ok, codes, arith,
  Option-cases, Result-cases, Bool-cases, inl, inr, ◌++◌,
}
use bloem_community_crowquil.Prelude.Int.{not_ltb_ℤ→≤ℤ, ℤ, pos, ltb_ℤ, ◌≤ℤ◌, eqb_ℤ, eq_of_parts}
use bloem_community_crowquil.Silo.Requests.{ApiError}
use bloem_community_crowquil.Silo.Jobs.{UpstreamFile}
use bloem_community_crowquil.Silo.Client.{
  get, head, Method, Call, endpoint, optional_header, headers_of, do_with_timeout, Response, Http,
  Texts, UpstreamClient, check_status, check_user_status, json_user_id, positive_id, parse_file,
  parse_json_int64, lists_file, user_of, find_file, file_of, me_path, do_request, read_bounded,
  read_user, authenticate, read_item, authorize_item, file_path, head_file,
}

abbrev pub IsSuccess : Response → Type 0
IsSuccess r = (200 ≤ r.status) × (r.status ≤ 299)

check_status-IsSuccess : (r : Response) (u : Unit {0}) → check_status r.status ≡ ok u → IsSuccess r
unfolding check_status
check_status-IsSuccess r u h = ground arith

check_user_status-IsSuccess :
    (r : Response) (u : Unit {0}) → check_user_status r.status ≡ ok u → IsSuccess r
unfolding check_user_status
check_user_status-IsSuccess r u h = ground arith

module _ (t : Texts) where
  parse_file-positive : (o : Option Bytes) (n : ℤ) → parse_file t o ≡ some n → pos 1 ≤ℤ n
  unfolding parse_file positive_id
  parse_file-positive none n h = cc
  parse_file-positive (some text) n h = ground (arith, h)

  -- A file's identifier is a positive number, in either form.
  pub parse_json_int64-positive :
      (raw : Bytes) (n : ℤ) → parse_json_int64 t raw ≡ some n → pos 1 ≤ℤ n
  unfolding parse_json_int64
  parse_json_int64-positive raw n h = parse_file-positive _ n h

-- An optional header of a call.
pub data IsOptional (name value : Bytes) : List (Bytes × Bytes) → Type 0 where
  left_out : value ≡ [] → IsOptional name value []
  given : value ≢ [] → IsOptional name value ((name, value) ∷ [])

optional_header-IsOptional :
    (name value : Bytes) → IsOptional name value (optional_header name value)
optional_header-IsOptional name [] = left_out refl
optional_header-IsOptional name (x ∷ value) = given (λ h. cc)

module _ {S : Type 0} (http : Http S) (t : Texts) (c : UpstreamClient) where
  -- The host was asked with the method at the path below its interface of the version, with the token
  -- as a bearer and the profile's headers where they are given, within the client's time, and answered.
  pub record IsAsked (before : S) (method : Method)
      (version path token profile_id profile_token : Bytes) (answer : Response) : Type 0 where
    pub known : (version ≡ codes "v1") ⊎ (version ≡ codes "v2")
    pub profile_header : List (Bytes × Bytes)
    pub is_profile : IsOptional (codes "X-Profile-Id") profile_id profile_header
    pub token_header : List (Bytes × Bytes)
    pub is_token : IsOptional (codes "X-Profile-Token") profile_token token_header
    pub sent :
        (http.send before (record {
          method = method;
          path = codes "/api/" ++ version ++ path;
          headers =
              (codes "Authorization", codes "Bearer " ++ token) ∷ profile_header ++ token_header;
          timeout = c.timeout;
        })).1
        ≡ some answer

  endpoint-known :
      (version path url : Bytes)
      → endpoint version path ≡ ok url
      → ((version ≡ codes "v1") ⊎ (version ≡ codes "v2")) × (url ≡ codes "/api/" ++ version ++ path)
  unfolding endpoint
  endpoint-known version path url h = elim (Bool-cases (bytes_eq version (codes "v1"))) [
    | inl first ↦ (inl (bytes_eq_sound version (codes "v1") first), ground (arith, first, h))
    | inr other ↦ elim (Bool-cases (bytes_eq version (codes "v2"))) [
      | inl second ↦
          (inr (bytes_eq_sound version (codes "v2") second), ground (arith, other, second, h))
      | inr unknown ↦ absurd (ground (arith, other, unknown, h))
    ]
  ]

  do_request-IsAsked :
      (s : S) (method : Method) (version path token profile_id profile_token : Bytes)
      (answer : Response)
      → (do_request http t c s method version path token profile_id profile_token).1 ≡ ok answer
      → IsAsked s method version path token profile_id profile_token answer
  unfolding do_request do_with_timeout
  do_request-IsAsked s method version path token profile_id profile_token answer h =
      elim (Result-cases (endpoint version path)) [
        | inl (e, refused) ↦ absurd (ground (arith, refused, h))
        | inr (url, allowed) ↦
            let (known, url_is) = endpoint-known version path url allowed in
            let call : Call = record {
              method = method;
              path = url;
              headers = headers_of token profile_id profile_token;
              timeout = c.timeout;
            } in
            elim (Option-cases (http.send s call).1) [
              | inl silent ↦ absurd (ground (arith, allowed, silent, h))
              | inr (r, sent) ↦
                  let same : r ≡ answer =
                    ok-injective {E = ApiError} (ground (arith, allowed, sent, h)) in
                  record {
                    known = known;
                    profile_header = optional_header (codes "X-Profile-Id") profile_id;
                    is_profile = optional_header-IsOptional (codes "X-Profile-Id") profile_id;
                    token_header = optional_header (codes "X-Profile-Token") profile_token;
                    is_token = optional_header-IsOptional (codes "X-Profile-Token") profile_token;
                    sent =
                        ap (λ (u : Bytes). (http.send s (record call { path = u })).1) (sym url_is)
                        ∙ sent
                        ∙ ap some same;
                  }
            ]
      ]

  -- The whole body of an answer, no longer than a bound.
  pub record IsBody (at : S) (answer : Response) (max : ℕ) (body : Bytes) : Type 0 where
    pub read : (http.read_all at answer (max + 1)).1 ≡ some body
    pub short : length body ≤ max

  read_bounded-IsBody :
      (at : S) (answer : Response) (max : ℕ) (body : Bytes)
      → (read_bounded http t c at answer max).1 ≡ some body
      → IsBody at answer max body
  unfolding read_bounded
  read_bounded-IsBody at answer max body h = elim (Bool-cases (max == 0)) [
    | inl nothing ↦ absurd (ground (arith, nothing, h))
    | inr positive ↦ elim (Option-cases (http.read_all at answer (max + 1)).1) [
      | inl failed ↦ absurd (ground (arith, positive, failed, h))
      | inr (bytes, read) ↦ elim (Bool-cases (ltb max (length bytes))) [
        | inl long ↦ absurd (ground (arith, positive, read, long, h))
        | inr short ↦
            let same : bytes ≡ body =
              some-injective _ _ (ground (arith, positive, read, short, h)) in
            record {
              read = read ∙ ap some same;
              short = subst (λ b. length b ≤ max) same (ground (arith, short));
            }
      ]
    ]
  ]

  -- One of the versions of an item is this file.
  lists_file-found :
      (versions : List Bytes) (file_id : ℤ)
      → lists_file t versions file_id ≡ true
      → (front : List Bytes) × (raw : Bytes) × (back : List Bytes) × (versions
          ≡ front ++ raw ∷ back)
        × (parse_json_int64 t raw ≡ some file_id)
  unfolding lists_file
  lists_file-found [] file_id h = cc
  lists_file-found (raw ∷ versions) file_id h = elim (Option-cases (parse_json_int64 t raw)) [
    | inl wrong ↦
        let (front, found, back, at, parsed) =
          lists_file-found versions file_id (ground (arith, wrong, h)) in
        (raw ∷ front, found, back, ap (◌∷◌ raw) at, parsed)
    | inr (id, parsed) ↦ elim (Bool-cases (eqb_ℤ id file_id)) [
      | inl same ↦ (
        [],
        raw,
        versions,
        refl,
        parsed ∙ ap some (eq_of_parts id file_id (ground (arith, same))),
      )
      | inr other ↦
          let (front, found, back, at, is) =
            lists_file-found versions file_id (ground (arith, parsed, other, h)) in
          (raw ∷ front, found, back, ap (◌∷◌ raw) at, is)
    ]
  ]

  -- The host answered for the token that its user is this one.
  pub record IsUser (version token user : Bytes) : Type 0 where
    pub before : S
    pub at : S
    pub answer : Response
    pub body : Bytes
    pub raw : Bytes
    pub path : Bytes
    pub own_path :
        ((version ≡ codes "v1") × (path ≡ codes "/auth/me"))
        ⊎ ((version ≡ codes "v2") × (path ≡ codes "/account/me"))
    pub asked : IsAsked before get version path token [] [] answer
    pub success : IsSuccess answer
    pub received : IsBody at answer (2 ^ 20) body
    pub parsed : t.unmarshal_id body ≡ some raw
    pub user_is : json_user_id t raw ≡ some user

  -- The host answered for the token and the profile with an item that has this file.
  pub record HasFile (version token profile_id profile_token content_id : Bytes) (file_id : ℤ)
      : Type 0 where
    pub before : S
    pub at : S
    pub answer : Response
    pub body : Bytes
    pub versions : List Bytes
    pub asked :
        IsAsked before get version
          (codes "/catalog/items/" ++ content_id)
          token
          profile_id
          profile_token
          answer
    pub success : IsSuccess answer
    pub received : IsBody at answer (4 * 2 ^ 20) body
    pub parsed : t.unmarshal_versions body ≡ some versions
    pub front : List Bytes
    pub raw : Bytes
    pub back : List Bytes
    pub listed : versions ≡ front ++ raw ∷ back
    pub own_id : parse_json_int64 t raw ≡ some file_id

  -- The host answered for the token and the profile with this description of the file.
  pub record IsDescribed (version token profile_id profile_token content_id : Bytes) (file_id : ℤ)
      (file : UpstreamFile) : Type 0 where
    pub before : S
    pub answer : Response
    pub asked :
        IsAsked before head version
          (codes "/ebooks/" ++ content_id ++ codes "/files/" ++ format_int file_id ++ codes "/read")
          token
          profile_id
          profile_token
          answer
    pub success : IsSuccess answer
    pub size : file.size ≡ answer.content_length
    pub etag : file.etag ≡ answer.etag
    pub last_modified : file.last_modified ≡ answer.last_modified
    pub not_negative : pos 0 ≤ℤ file.size
    pub within : file.size ≤ℤ c.limit

  user_of-parsed :
      (body : Option Bytes) (user : Bytes)
      → user_of t body ≡ ok user
      → (b : Bytes) × (raw : Bytes) × (body ≡ some b)
        × (t.unmarshal_id b ≡ some raw)
        × (json_user_id t raw ≡ some user)
  unfolding user_of
  user_of-parsed none user h = absurd (ground arith)
  user_of-parsed (some b) user h = elim (Option-cases (t.unmarshal_id b)) [
    | inl missing ↦ absurd (ground (arith, missing, h))
    | inr (raw, parsed) ↦ elim (Option-cases (json_user_id t raw)) [
      | inl invalid ↦ absurd (ground (arith, parsed, invalid, h))
      | inr (u, valid) ↦ (b, raw, refl, parsed, ground (arith, parsed, valid, h))
    ]
  ]

  me_path-own :
      (version : Bytes)
      → (version ≡ codes "v1") ⊎ (version ≡ codes "v2")
      → ((version ≡ codes "v1") × (me_path version ≡ codes "/auth/me"))
        ⊎ ((version ≡ codes "v2") × (me_path version ≡ codes "/account/me"))
  unfolding bytes_eq ℕ_discrete
  me_path-own version (inl first) = inl (first, ap me_path first)
  me_path-own version (inr second) = inr (second, ap me_path second)

  pub authenticate-IsUser :
      (s : S) (version token user : Bytes)
      → (authenticate http t c s version token).1 ≡ ok user
      → IsUser version token user
  unfolding authenticate read_user
  authenticate-IsUser s version token user h =
      let asked = do_request http t c s get version (me_path version) token [] [] in
      elim (Result-cases asked.1) [
        | inl (e, failed) ↦ absurd (ground (arith, failed, h))
        | inr (r, sent) ↦ elim (Result-cases (check_user_status r.status)) [
          | inl (e, refused) ↦ absurd (ground (arith, sent, refused, h))
          | inr (u, success) ↦
              let read = read_bounded http t c asked.0 r (2 ^ 20) in
              let path_asked =
                do_request-IsAsked s get version (me_path version) token [] [] r sent in
              let (body, raw, received, parsed, user_is) =
                user_of-parsed read.1 user (ground (arith, sent, success, h)) in
              record {
                before = s;
                at = asked.0;
                answer = r;
                body = body;
                raw = raw;
                path = me_path version;
                own_path = me_path-own version path_asked.known;
                asked = path_asked;
                success = check_user_status-IsSuccess r u success;
                received = read_bounded-IsBody asked.0 r (2 ^ 20) body received;
                parsed = parsed;
                user_is = user_is;
              }
        ]
      ]

  find_file-parsed :
      (body : Option Bytes) (file_id : ℤ) (u : Unit {0})
      → find_file t body file_id ≡ ok u
      → (b : Bytes) × (versions : List Bytes) × (body ≡ some b)
        × (t.unmarshal_versions b ≡ some versions)
        × (lists_file t versions file_id ≡ true)
  unfolding find_file
  find_file-parsed none file_id u h = absurd (ground arith)
  find_file-parsed (some b) file_id u h = elim (Option-cases (t.unmarshal_versions b)) [
    | inl missing ↦ absurd (ground (arith, missing, h))
    | inr (versions, parsed) ↦ (b, versions, refl, parsed, ground (arith, parsed, h))
  ]

  pub authorize_item-HasFile :
      (s : S) (version token profile_id profile_token content_id : Bytes) (file_id : ℤ)
      (u : Unit {0})
      → (authorize_item http t c s version token profile_id profile_token content_id file_id).1
        ≡ ok u
      → HasFile version token profile_id profile_token content_id file_id
  unfolding authorize_item read_item
  authorize_item-HasFile s version token profile_id profile_token content_id file_id u h =
      let asked =
        do_request http t c s get version (codes "/catalog/items/" ++ content_id) token profile_id
          profile_token in
      elim (Result-cases asked.1) [
        | inl (e, failed) ↦ absurd (ground (arith, failed, h))
        | inr (r, sent) ↦ elim (Result-cases (check_status r.status)) [
          | inl (e, refused) ↦ absurd (ground (arith, sent, refused, h))
          | inr (v, success) ↦
              let read = read_bounded http t c asked.0 r (4 * 2 ^ 20) in
              let (body, versions, received, parsed, listed) =
                find_file-parsed read.1 file_id u (ground (arith, sent, success, h)) in
              let (front, raw, back, at, own_id) = lists_file-found versions file_id listed in
              record {
                before = s;
                at = asked.0;
                answer = r;
                body = body;
                versions = versions;
                asked =
                    do_request-IsAsked s get version (codes "/catalog/items/" ++ content_id) token
                      profile_id profile_token r sent;
                success = check_status-IsSuccess r v success;
                received = read_bounded-IsBody asked.0 r (4 * 2 ^ 20) body received;
                parsed = parsed;
                front = front;
                raw = raw;
                back = back;
                listed = at;
                own_id = own_id;
              }
        ]
      ]

  file_of-within :
      (r : Response) (file : UpstreamFile)
      → file_of c r ≡ ok file
      → (file.size ≡ r.content_length)
        × (file.etag ≡ r.etag)
        × (file.last_modified ≡ r.last_modified)
        × (pos 0 ≤ℤ file.size)
        × (file.size ≤ℤ c.limit)
  unfolding file_of
  file_of-within r file h = elim (Bool-cases (ltb_ℤ r.content_length (pos 0))) [
    | inl negative ↦ absurd (ground (arith, negative, h))
    | inr positive ↦ elim (Bool-cases (ltb_ℤ c.limit r.content_length)) [
      | inl large ↦ absurd (ground (arith, positive, large, h))
      | inr fits ↦
          let answered : UpstreamFile = record {
            size = r.content_length;
            etag = r.etag;
            last_modified = r.last_modified;
          } in
          let found : answered ≡ file =
            ok-injective {E = ApiError} (ground (arith, positive, fits, h)) in
          subst
            (λ f.
              (f.size ≡ r.content_length)
              × (f.etag ≡ r.etag)
              × (f.last_modified ≡ r.last_modified)
              × (pos 0 ≤ℤ f.size)
              × (f.size ≤ℤ c.limit))
            found
            (
              refl,
              refl,
              refl,
              not_ltb_ℤ→≤ℤ r.content_length (pos 0) positive,
              not_ltb_ℤ→≤ℤ c.limit r.content_length fits,
            )
    ]
  ]

  pub head_file-IsDescribed :
      (s : S) (version token profile_id profile_token content_id : Bytes) (file_id : ℤ)
      (file : UpstreamFile)
      → (head_file http t c s version token profile_id profile_token content_id file_id).1 ≡ ok file
      → IsDescribed version token profile_id profile_token content_id file_id file
  unfolding head_file
  head_file-IsDescribed s version token profile_id profile_token content_id file_id file h =
      let asked =
        do_request http t c s head version (file_path http t c content_id file_id) token profile_id
          profile_token in
      elim (Result-cases asked.1) [
        | inl (e, failed) ↦ absurd (ground (arith, failed, h))
        | inr (r, sent) ↦ elim (Result-cases (check_status r.status)) [
          | inl (e, refused) ↦ absurd (ground (arith, sent, refused, h))
          | inr (u, success) ↦
              let (size, etag, last_modified, not_negative, within) =
                file_of-within r file (ground (arith, sent, success, h)) in
              record {
                before = s;
                answer = r;
                asked =
                    do_request-IsAsked s head version (file_path http t c content_id file_id) token
                      profile_id profile_token r sent;
                success = check_status-IsSuccess r u success;
                size = size;
                etag = etag;
                last_modified = last_modified;
                not_negative = not_negative;
                within = within;
              }
        ]
      ]
