-- ===== src/Silo/Authorize/Sound.antt =====
-- Lemmas on the requests that `authorize` of internal/silo/backend.go lets pass.
use mathlib.Core.Path.{subst}
use bloem_community_crowquil.Prelude.{
  ◌≡◌, refl, ap, true, Bytes, Option, none, some, ok, ok-injective, length, ◌==◌, arith,
  Result-cases, Bool-cases, inl, inr, bytes_eq_sound,
}
use bloem_community_crowquil.Silo.Requests.{ApiError, Request}
use bloem_community_crowquil.Silo.Jobs.{fingerprint_for}
use bloem_community_crowquil.Silo.Client.{
  Http, Texts, UpstreamClient, json_user_id, authenticate, authorize_item, head_file,
}
use bloem_community_crowquil.Silo.Client.Answers.{
  IsUser, HasFile, IsDescribed, authenticate-IsUser, authorize_item-HasFile, head_file-IsDescribed,
}
use bloem_community_crowquil.Silo.Authorize.{
  AuthorizedRequest, Digests, is_trusted, authorized, authorize_file, authorize,
}

module _ {S : Type 0} (http : Http S) (t : Texts) (c : UpstreamClient) (d : Digests) where
  -- What the host answered for the token and the profile of an authorized request.
  pub record IsAuthorized (req : Request) (trusted_user : Bytes) (a : AuthorizedRequest)
      : Type 0 where
    pub user : Bytes
    pub is_user : IsUser http t c req.api_version req.token user
    pub trusted : json_user_id t (d.quote (t.trim trusted_user)) ≡ some user
    pub has_file :
        HasFile http t c req.api_version req.token req.profile_id req.profile_token req.content_id
          req.file_id
    pub described :
        IsDescribed http t c req.api_version req.token req.profile_id req.profile_token
          req.content_id req.file_id a.file
    pub request : a.request ≡ req
    pub cache_key : a.cache_key ≡ d.hash_fingerprint (fingerprint_for req a.file)

  is_trusted-eq :
      (trusted : Option Bytes) (user : Bytes) → is_trusted trusted user ≡ true → trusted ≡ some user
  unfolding is_trusted
  is_trusted-eq none user h = cc
  is_trusted-eq (some id) user h = ap some (bytes_eq_sound id user h)

  authorize_file-found :
      (s : S) (req : Request) (a : AuthorizedRequest)
      → (authorize_file http t c d s req).1 ≡ ok a
      → HasFile http t c req.api_version req.token req.profile_id req.profile_token req.content_id
          req.file_id
        × IsDescribed http t c req.api_version req.token req.profile_id req.profile_token
            req.content_id req.file_id a.file
        × (a.request ≡ req)
        × (a.cache_key ≡ d.hash_fingerprint (fingerprint_for req a.file))
  unfolding authorize_file authorized
  authorize_file-found s req a h =
      let item =
        authorize_item http t c s req.api_version req.token req.profile_id req.profile_token
          req.content_id req.file_id in
      let file =
        head_file http t c item.0 req.api_version req.token req.profile_id req.profile_token
          req.content_id req.file_id in
      elim (Result-cases item.1) [
        | inl (e, failed) ↦ absurd (ground (arith, failed, h))
        | inr (u, found) ↦ elim (Result-cases file.1) [
          | inl (e, failed) ↦ absurd (ground (arith, found, failed, h))
          | inr (f, described) ↦
              let made : authorized t d req f ≡ a =
                ok-injective {E = ApiError} (ground (arith, found, described, h)) in
              subst
                (λ b.
                  HasFile http t c req.api_version req.token req.profile_id req.profile_token
                    req.content_id req.file_id
                  × IsDescribed http t c req.api_version req.token req.profile_id req.profile_token
                      req.content_id req.file_id b.file
                  × (b.request ≡ req)
                  × (b.cache_key ≡ d.hash_fingerprint (fingerprint_for req b.file)))
                made
                (
                  authorize_item-HasFile http t c s req.api_version req.token req.profile_id
                      req.profile_token req.content_id req.file_id u found,
                  head_file-IsDescribed http t c item.0 req.api_version req.token req.profile_id
                      req.profile_token req.content_id req.file_id f described,
                  refl,
                  refl,
                )
        ]
      ]

  -- Where a request is authorized, its version is v1 or v2, and the host was sent, each with the
  -- request's token as the bearer, and answered successfully: for the version's own path of the
  -- account, without a profile, with the user that the plugin's host vouches for; for the item's
  -- path, with the request's profile headers where they are not empty, with an item one of whose
  -- versions is the request's file, both bodies within their bounds; and for the head of the file's
  -- path, with the same headers, with the file's size, not negative and within the archive limit,
  -- and validators. The cache key is the digest of the fingerprint of the request with these.
  pub authorize-IsAuthorized :
      (s : S) (req : Request) (trusted_user : Bytes) (a : AuthorizedRequest)
      → (authorize http t c d s req trusted_user).1 ≡ ok a
      → IsAuthorized req trusted_user a
  unfolding authorize
  authorize-IsAuthorized s req trusted_user a h =
      let asked = authenticate http t c s req.api_version req.token in
      let trusted = json_user_id t (d.quote (t.trim trusted_user)) in
      elim (Bool-cases (length (t.trim trusted_user) == 0)) [
        | inl blank ↦ absurd (ground (arith, blank, h))
        | inr given ↦ elim (Result-cases asked.1) [
          | inl (e, failed) ↦ absurd (ground (arith, given, failed, h))
          | inr (user, known) ↦ elim (Bool-cases (is_trusted trusted user)) [
            | inr other ↦ absurd (ground (arith, given, known, other, h))
            | inl same ↦
                let (has_file, described, request, cache_key) =
                  authorize_file-found asked.0 req a (ground (arith, given, known, same, h)) in
                record {
                  user = user;
                  is_user = authenticate-IsUser http t c s req.api_version req.token user known;
                  trusted = is_trusted-eq trusted user same;
                  has_file = has_file;
                  described = described;
                  request = request;
                  cache_key = cache_key;
                }
          ]
        ]
      ]
