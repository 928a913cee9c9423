-- ===== src/Server/Routes.antt =====
-- Lemmas on the routes of internal/server/server.go.
use mathlib.Core.Path.{subst, ◌∙◌, ap}
use bloem_community_crowquil.Prelude.{
  ok-injective, err, ◌≡◌, true, false, not, ◌||◌, ◌&&◌, Bytes, none, some, ok, length, drop, codes,
  ◌==◌, bytes_eq, has_prefix, arith, Option-cases, Result-cases, Bool-cases, inl, inr,
  bytes_eq_sound, if_cases,
}
use bloem_community_crowquil.Prelude.Strconv.{parse_decimal}
use bloem_community_crowquil.Prelude.Int.{ℤ, pos, ltb_ℤ, ◌≤ℤ◌, not_ltb_ℤ→≤ℤ}
use bloem_community_crowquil.Silo.Requests.{ApiError, Request}
use bloem_community_crowquil.Server.Answered.{
  IsJson, IsAnswer, IsHeader, IsDecoded, json_response-IsJson, response_for_error-IsAnswer,
  response_for_result-IsAnswer, header_value-IsHeader, decode_request-IsDecoded,
}
use bloem_community_crowquil.Server.{
  HttpRequest, HttpResponse, ServerTexts, Backend, Failure, before_question, has_slash, page_prefix,
  not_found, ok_status, response_for_error, header_value, decode_request, page_index, handle_health,
  handle_page, route, handle_post, handle,
}

module _ (t : ServerTexts) {S : Type 0} (b : Backend S) where
  abbrev pub user_of : HttpRequest → Bytes
  user_of req = header_value t req.headers (codes "X-Silo-User-Id")

  -- A request that reaches the backend was posted, is small enough, and decodes to its end.
  pub record IsPosted (req : HttpRequest) (request : Request) : Type 0 where
    pub method : t.to_upper (t.trim req.method) ≡ codes "POST"
    pub decoded : IsDecoded t req.body request

  -- The number of a page behind the prefix.
  pub record IsPage (text : Bytes) (index : ℤ) : Type 0 where
    pub one_element : has_slash text ≡ false
    pub parsed : parse_decimal text ≡ some index
    pub not_negative : pos 0 ≤ℤ index

  -- The result of one call of the backend, made for the user that the request's header names.
  pub data Handled (s : S) (req : HttpRequest) : S × HttpResponse → Type 0 where
    refused : {r : HttpResponse} (e : ApiError) → IsAnswer t (err (some e)) r → Handled s req (s, r)
    unhealthy :
        {user : Bytes} {r : HttpResponse} (e : Failure)
        → IsHeader t req.headers (codes "X-Silo-User-Id") user
        → before_question req.path ≡ codes "/v1/health"
        → (b.health s user).1 ≡ some e
        → IsAnswer t (err e) r
        → Handled s req ((b.health s user).0, r)
    healthy :
        {user : Bytes} {r : HttpResponse}
        → IsHeader t req.headers (codes "X-Silo-User-Id") user
        → before_question req.path ≡ codes "/v1/health"
        → (b.health s user).1 ≡ none
        → IsJson t 200 ok_status r
        → Handled s req ((b.health s user).0, r)
    pages :
        {user : Bytes} {r : HttpResponse} (request : Request)
        → IsHeader t req.headers (codes "X-Silo-User-Id") user
        → IsPosted req request
        → before_question req.path ≡ codes "/v1/pages"
        → IsAnswer t (b.pages s request user).1 r
        → Handled s req ((b.pages s request user).0, r)
    page :
        {user : Bytes} {r : HttpResponse} (request : Request) (index : ℤ)
        → IsHeader t req.headers (codes "X-Silo-User-Id") user
        → IsPosted req request
        → has_prefix (before_question req.path) page_prefix ≡ true
        → IsPage (drop (length page_prefix) (before_question req.path)) index
        → IsAnswer t (b.page s request user index).1 r
        → Handled s req ((b.page s request user index).0, r)

  page_index-IsPage : (text : Bytes) (index : ℤ) → page_index t text ≡ ok index → IsPage text index
  unfolding page_index
  page_index-IsPage text index h = elim (Bool-cases ((length text == 0) || has_slash text)) [
    | inl bad ↦ absurd (ground (arith, bad, h))
    | inr good ↦ elim (Option-cases (parse_decimal text)) [
      | inl wrong ↦ absurd (ground (arith, good, wrong, h))
      | inr (i, parsed) ↦ elim (Bool-cases (ltb_ℤ i (pos 0))) [
        | inl negative ↦ absurd (ground (arith, good, parsed, negative, h))
        | inr positive ↦
            let found : i ≡ index =
              ok-injective {E = ApiError} (ground (arith, good, parsed, positive, h)) in
            record {
              one_element = ground (arith, good);
              parsed = parsed ∙ ap some found;
              not_negative = subst (λ n. pos 0 ≤ℤ n) found (not_ltb_ℤ→≤ℤ i (pos 0) positive);
            }
      ]
    ]
  ]

  module _ (s : S) (req : HttpRequest) where
    own_user : IsHeader t req.headers (codes "X-Silo-User-Id") (user_of req)
    own_user = header_value-IsHeader t req.headers (codes "X-Silo-User-Id")

    refused_with : (e : ApiError) → Handled s req (s, response_for_error t (some e))
    refused_with e = refused e (response_for_error-IsAnswer t (some e))

    handle_health-Handled :
        before_question req.path ≡ codes "/v1/health"
        → Handled s req (handle_health t (some b) s req)
    unfolding handle_health
    handle_health-Handled path = elim (Option-cases (b.health s (user_of req)).1) [
      | inl well ↦
          rw (well, handle_health)
            (healthy own_user path well (json_response-IsJson t 200 ok_status))
      | inr (e, ill) ↦
          rw (ill, handle_health) (unhealthy e own_user path ill (response_for_error-IsAnswer t e))
    ]

    handle_page-Handled :
        (request : Request)
        → IsPosted req request
        → has_prefix (before_question req.path) page_prefix ≡ true
        → Handled s req (
            handle_page t
              (some b)
              b
              s
              request
              (user_of req)
              (drop (length page_prefix) (before_question req.path)))
    unfolding handle_page
    handle_page-Handled request posted prefix =
        let text = drop (length page_prefix) (before_question req.path) in
        elim (Result-cases (page_index t text)) [
          | inl (e, failed) ↦ rw (failed, handle_page) (refused_with e)
          | inr (index, found) ↦
              rw (found, handle_page)
                (page request index own_user posted prefix (page_index-IsPage text index found)
                  (response_for_result-IsAnswer t (b.page s request (user_of req) index).1))
        ]

    route-Handled :
        (request : Request)
        → IsPosted req request
        → Handled s req (route t (some b) b s (before_question req.path) request (user_of req))
    unfolding route
    route-Handled request posted =
        let path = before_question req.path in
        if_cases (Handled s req) (bytes_eq path (codes "/v1/pages"))
          (λ h.
            pages request own_user posted (bytes_eq_sound path (codes "/v1/pages") h)
              (response_for_result-IsAnswer t (b.pages s request (user_of req)).1))
          (λ other.
            if_cases (Handled s req) (has_prefix path page_prefix)
              (λ h. handle_page-Handled request posted h) (λ h. refused_with not_found))

    handle_post-Handled :
        t.to_upper (t.trim req.method) ≡ codes "POST"
        → Handled s req (handle_post t (some b) s req (before_question req.path))
    unfolding handle_post
    handle_post-Handled method = elim (Result-cases (decode_request t req.body)) [
      | inl (e, failed) ↦ rw (failed, handle_post) (refused_with e)
      | inr (request, decoded) ↦
          rw (decoded, handle_post)
            (route-Handled request (record {
              method = method;
              decoded = decode_request-IsDecoded t req.body request decoded;
            }))
    ]

    -- A configured server answers a request in one of these ways: with an error of a status and
    -- code and the backend untouched; at the health path with the backend's verdict on the user;
    -- or, for a posted body within the bound that decodes with nothing behind it, with the result
    -- of one call of the backend, for the pages at their path, or for one page at a path that ends
    -- in a single element, a number that is not negative. The user is the value of the first header
    -- with the name of the user's header. A result is answered with its own status: with its bytes,
    -- its text of the status, or its list of pages; an error with its status and code, or 503 where
    -- it has none; and a JSON value without a text with the fixed 503.
    pub handle-Handled : Handled s req (handle t (some b) s (some req))
    unfolding handle
    handle-Handled =
        let method = t.to_upper (t.trim req.method) in
        let path = before_question req.path in
        if_cases (Handled s req)
          (bytes_eq method (codes "GET") && bytes_eq path (codes "/v1/health"))
          (λ h.
            handle_health-Handled (bytes_eq_sound path (codes "/v1/health") (ground (arith, h))))
          (λ other.
            if_cases (Handled s req) (not (bytes_eq method (codes "POST")))
              (λ h. refused_with not_found)
              (λ h. handle_post-Handled (bytes_eq_sound method (codes "POST") (ground (arith, h)))))
