-- ===== src/Server/Answered.antt =====
-- How internal/server/server.go answers with what the backend returns, described apart from it.
use mathlib.Core.Path.{subst}
use bloem_community_crowquil.Prelude.{
  sym, ℕ, ◌≤◌, ◌≡◌, ◌≢◌, inl, inr, refl, ap, ◌∙◌, true, false, Bytes, List, [], ◌∷◌, ◌++◌, none,
  some, Result, ok, err, length, codes, ltb, ◌==◌, not, arith, Option-cases, Bool-cases, All,
  ok-injective,
}
use bloem_community_crowquil.Prelude.Strconv.{format_uint}
use bloem_community_crowquil.Silo.Constants.{chunk_bytes}
use bloem_community_crowquil.Silo.Requests.{ApiError, Request}
use bloem_community_crowquil.Server.{
  HttpResponse, ServerTexts, Failure, Outcome, Value, preparing_status, error_code, page_list,
  max_request_body, json_response, response_for_error, response_for_outcome, response_for_result,
  header_value, decode_request,
}

module _ (t : ServerTexts) where
  -- A JSON answer with the status, or the fixed one where the value has no text.
  pub data IsJson (status : ℕ) (value : Value) (r : HttpResponse) : Type 0 where
    written :
        t.marshal value ≡ some r.body
        → r.status ≡ status
        → r.headers
          ≡ (codes "Content-Type", codes "application/json")
            ∷ (codes "Content-Length", format_uint (length r.body))
            ∷ []
        → IsJson status value r
    unwritten :
        t.marshal value ≡ none
        → r.status ≡ 503
        → r.body ≡ codes "{\"error\":\"unavailable\"}"
        → IsJson status value r

  -- The answer to a result of the backend.
  pub data IsAnswer : Result Failure Outcome → HttpResponse → Type 0 where
    unknown :
        {r : HttpResponse} → IsJson 503 (error_code (codes "unavailable")) r → IsAnswer (err none) r
    preparing :
        {e : ApiError} {r : HttpResponse}
        → e.status ≡ 202
        → IsJson 202 preparing_status r
        → IsAnswer (err (some e)) r
    failed :
        {e : ApiError} {r : HttpResponse}
        → e.status ≢ 202
        → IsJson e.status (error_code e.code) r
        → IsAnswer (err (some e)) r
    chunk :
        {o : Outcome} {r : HttpResponse}
        → o.body ≡ some r.body
        → r.status ≡ o.status
        → r.headers
          ≡ (codes "Content-Type", codes "application/octet-stream")
            ∷ (codes "Cache-Control", codes "no-store")
            ∷ (codes "Content-Length", format_uint (length r.body))
            ∷ []
        → IsAnswer (ok o) r
    status_text :
        {o : Outcome} {r : HttpResponse}
        → o.body ≡ none
        → length o.status_json ≢ 0
        → r.status ≡ o.status
        → r.headers ≡ (codes "Content-Type", codes "application/json") ∷ []
        → r.body ≡ o.status_json
        → IsAnswer (ok o) r
    listing :
        {o : Outcome} {r : HttpResponse}
        → o.body ≡ none
        → length o.status_json ≡ 0
        → IsJson o.status (page_list o.cache_key o.pages chunk_bytes) r
        → IsAnswer (ok o) r

  pub json_response-IsJson :
      (status : ℕ) (value : Value) → IsJson status value (json_response t status value)
  unfolding json_response
  json_response-IsJson status value = elim (Option-cases (t.marshal value)) [
    | inl no_text ↦ rw (no_text, json_response) (unwritten no_text refl refl)
    | inr (body, text) ↦ rw (text, json_response) (written text refl refl)
  ]

  pub response_for_error-IsAnswer : (e : Failure) → IsAnswer (err e) (response_for_error t e)
  unfolding response_for_error
  response_for_error-IsAnswer none =
      unknown (json_response-IsJson 503 (error_code (codes "unavailable")))
  response_for_error-IsAnswer (some e) = elim (Bool-cases (e.status == 202)) [
    | inl accepted ↦
        let same : e.status ≡ 202 = ground (arith, accepted) in
        rw (accepted, response_for_error)
          (preparing same (
            subst (λ n. IsJson 202 preparing_status (json_response t n preparing_status)) (sym same)
              (json_response-IsJson 202 preparing_status)))
    | inr other ↦
        rw (other, response_for_error)
          (failed (λ h. ground (arith, other, h))
            (json_response-IsJson e.status (error_code e.code)))
  ]

  abbrev chunk_response : ℕ → Bytes → HttpResponse
  chunk_response status body = record {
    status = status;
    headers =
        (codes "Content-Type", codes "application/octet-stream")
        ∷ (codes "Cache-Control", codes "no-store")
        ∷ (codes "Content-Length", format_uint (length body))
        ∷ [];
    body = body;
  }

  abbrev status_response : ℕ → Bytes → HttpResponse
  status_response status body = record {
    status = status;
    headers = (codes "Content-Type", codes "application/json") ∷ [];
    body = body;
  }

  pub response_for_result-IsAnswer :
      (o : Result Failure Outcome) → IsAnswer o (response_for_result t o)
  unfolding response_for_result response_for_outcome
  response_for_result-IsAnswer (err e) = response_for_error-IsAnswer e
  response_for_result-IsAnswer (ok o) = elim (Option-cases o.body) [
    | inr (body, given) ↦
        let made : chunk_response o.status body ≡ response_for_outcome t o =
          ground (arith, given) in
        subst (IsAnswer (ok o)) made (chunk given refl refl)
    | inl missing ↦ elim (Bool-cases (not (length o.status_json == 0))) [
      | inl text ↦
          let made : status_response o.status o.status_json ≡ response_for_outcome t o =
            ground (arith, missing, text) in
          subst (IsAnswer (ok o)) made
            (status_text missing (λ h. ground (arith, text, h)) refl refl refl)
      | inr no_text ↦
          let value = page_list o.cache_key o.pages chunk_bytes in
          let made : json_response t o.status value ≡ response_for_outcome t o =
            ground (arith, missing, no_text) in
          subst (IsAnswer (ok o)) made
            (listing missing (ground (arith, no_text)) (json_response-IsJson o.status value))
    ]
  ]

  -- The value of the first header that has the name, or nothing.
  pub data IsHeader (headers : List (Bytes × Bytes)) (name : Bytes) : Bytes → Type 0 where
    first :
        (front : List (Bytes × Bytes)) (key value : Bytes) (back : List (Bytes × Bytes))
        → headers ≡ front ++ (key, value) ∷ back
        → All (λ (h : Bytes × Bytes). t.equal_fold h.0 name ≡ false) front
        → t.equal_fold key name ≡ true
        → IsHeader headers name (t.trim value)
    absent :
        All (λ (h : Bytes × Bytes). t.equal_fold h.0 name ≡ false) headers
        → IsHeader headers name []

  IsHeader-skip :
      (key value : Bytes) (headers : List (Bytes × Bytes)) (name v : Bytes)
      → t.equal_fold key name ≡ false
      → IsHeader headers name v
      → IsHeader ((key, value) ∷ headers) name v
  IsHeader-skip key value headers name _ other (first front k v back split before same) =
      first ((key, value) ∷ front) k v back (ap (◌∷◌ (key, value)) split) (other, before) same
  IsHeader-skip key value headers name _ other (absent all) = absent (other, all)

  pub header_value-IsHeader :
      (headers : List (Bytes × Bytes)) (name : Bytes)
      → IsHeader headers name (header_value t headers name)
  unfolding header_value
  header_value-IsHeader [] name = absent tt
  header_value-IsHeader ((key, value) ∷ headers) name = elim (Bool-cases (t.equal_fold key name)) [
    | inl same ↦ rw (same, header_value) (first [] key value headers refl tt same)
    | inr other ↦
        rw (other, header_value)
          (IsHeader-skip key value headers name _ other (header_value-IsHeader headers name))
  ]

  -- A body within the bound that decodes, with nothing behind it.
  pub record IsDecoded (body : Bytes) (request : Request) : Type 0 where
    pub short : length body ≤ max_request_body
    pub rest : Bytes
    pub decoded : t.decode body ≡ some (request, rest)
    pub at_end : t.at_end rest ≡ true

  pub decode_request-IsDecoded :
      (body : Bytes) (request : Request)
      → decode_request t body ≡ ok request
      → IsDecoded body request
  unfolding decode_request
  decode_request-IsDecoded body request h = elim (Bool-cases (ltb max_request_body (length body))) [
    | inl long ↦ absurd (ground (arith, long, h))
    | inr short ↦ elim (Option-cases (t.decode body)) [
      | inl wrong ↦ absurd (ground (arith, short, wrong, h))
      | inr ((r, rest), decoded) ↦ elim (Bool-cases (t.at_end rest)) [
        | inr more ↦ absurd (ground (arith, short, decoded, more, h))
        | inl at_end ↦
            let same : r ≡ request =
              ok-injective {E = ApiError} (ground (arith, short, decoded, at_end, h)) in
            record {
              short = ground (arith, short);
              rest = rest;
              decoded = decoded ∙ ap (λ (q : Request). some (q, rest)) same;
              at_end = at_end;
            }
      ]
    ]
  ]
