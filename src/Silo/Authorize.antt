-- ===== src/Silo/Authorize.antt =====
-- `authorize`, `hashFingerprint` and `Health` of internal/silo/backend.go, over the client.
pub mod Sound
use bloem_community_crowquil.Prelude.{
  Bool, true, false, not, Bytes, Option, none, some, Result, ok, err, length, ◌==◌, codes, bytes_eq,
  if◌then◌else◌,
}
use bloem_community_crowquil.Silo.Requests.{ApiError, api_error, Request}
use bloem_community_crowquil.Silo.Jobs.{UpstreamFile, fingerprint_for}
use bloem_community_crowquil.Silo.Client.{
  Http, Texts, UpstreamClient, unauthorized, forbidden, json_user_id, authenticate, authorize_item,
  head_file,
}

pub record AuthorizedRequest : Type 0 where
  pub request : Request
  pub file : UpstreamFile
  pub fingerprint : Bytes
  pub cache_key : Bytes

-- The hexadecimal digest of a fingerprint, and `strconv.Quote`.
pub record Digests : Type 0 where
  pub hash_fingerprint : Bytes → Bytes
  pub quote : Bytes → Bytes

-- A user that the plugin's host vouches for is the one of the token.
unfoldable pub is_trusted : Option Bytes → Bytes → Bool
is_trusted none user = false
is_trusted (some trusted) user = bytes_eq trusted user

module _ (t : Texts) (d : Digests) where
  -- The part of `Health` behind the test that a runtime is configured.
  unfoldable pub health : Bytes → Option ApiError
  health trusted_user =
      if length (t.trim trusted_user) == 0
      then some unauthorized
      else elim (json_user_id t (d.quote (t.trim trusted_user))) [
        | none ↦ some forbidden
        | some user ↦ none
      ]

  unfoldable pub authorized : Request → UpstreamFile → AuthorizedRequest
  authorized req file =
      let fingerprint = fingerprint_for req file in
      record {
        request = req;
        file = file;
        fingerprint = fingerprint;
        cache_key = d.hash_fingerprint fingerprint;
      }

module _ {S : Type 0} (http : Http S) (t : Texts) (c : UpstreamClient) (d : Digests) where
  -- The file's description, once the user is known.
  unfoldable pub authorize_file : S → Request → S × Result ApiError AuthorizedRequest
  authorize_file s req =
      let (s1, item) =
        authorize_item http t c s req.api_version req.token req.profile_id req.profile_token
          req.content_id req.file_id in
      elim item [
        | err e ↦ (s1, err e)
        | ok done ↦
            let (s2, file) =
              head_file http t c s1 req.api_version req.token req.profile_id req.profile_token
                req.content_id req.file_id in
            elim file [ err e ↦ (s2, err e) | ok f ↦ (s2, ok (authorized t d req f)) ]
      ]

  unfoldable pub authorize : S → Request → Bytes → S × Result ApiError AuthorizedRequest
  authorize s req trusted_user =
      if length (t.trim trusted_user) == 0
      then (s, err unauthorized)
      else let (s1, user) = authenticate http t c s req.api_version req.token in
        elim user [
          | err e ↦ (s1, err e)
          | ok id ↦
              if not (is_trusted (json_user_id t (d.quote (t.trim trusted_user))) id)
              then (s1, err forbidden)
              else authorize_file s1 req
        ]
