-- ===== src/Examples/Runtime.antt =====
-- A runtime that is asked for one archive, and the host that authorizes the request.
use bloem_community_crowquil.Prelude.Strconv.{
  parse_decimal, parse_digits, has_underscore, read_digits, format_int, format_uint, digits,
}
use bloem_community_crowquil.Prelude.{
  ℕ, suc, ◌+◌, ◌≡◌, refl, Bool, true, false, Bytes, [], ◌∷◌, none, some, ok, codes, arith, bytes_eq,
  has_prefix, ℕ_discrete,
}
use bloem_community_crowquil.Prelude.Int.{pos}
use bloem_community_crowquil.Archive.Limits.{Limits}
use bloem_community_crowquil.Silo.Requests.{
  Request, validate_request, valid_path_id, path_chars, valid_header_value,
}
use bloem_community_crowquil.Silo.Jobs.{UpstreamFile, fingerprint_for}
use bloem_community_crowquil.Silo.Jobs.Fingerprint.{fingerprint_for-injective}
use bloem_community_crowquil.Silo.Client.{
  Http, Texts, UpstreamClient, endpoint, check_status, check_user_status, json_user_id,
  parse_json_int64, lists_file, user_of, find_file, file_of, do_with_timeout, do_request,
  read_bounded, read_user, authenticate, read_item, authorize_item, head_file,
}
use bloem_community_crowquil.Silo.Authorize.{
  AuthorizedRequest, Digests, is_trusted, authorized, authorize_file, authorize,
}
use bloem_community_crowquil.Silo.Authorize.Sound.{IsAuthorized, authorize-IsAuthorized}
use bloem_community_crowquil.Silo.Cache.System
use bloem_community_crowquil.Silo.Runtime.{
  Live, new_runtime, acquire_request, get_or_start_job, push_started, callers, acquire, start,
  Reach, here, next, init,
}
use bloem_community_crowquil.Silo.Runtime.Counts.{AreCounted, runtime_counted}
use bloem_community_crowquil.Silo.Runtime.Listing.{IsListed, runtime-IsListed}
use bloem_community_crowquil.Silo.Runtime.Refines.{runtime-System}
use bloem_community_crowquil.Examples.System.{fs, root, key}

abbrev pub limits : Limits
limits = record {
  max_entries = pos 2;
  max_page_bytes = pos 100;
  max_total_bytes = pos 100;
  max_archive_bytes = pos 300;
  max_dictionary_bytes = pos 100;
}

abbrev idle : Live
idle = init (System.init root (pos 1000) 60).cache

abbrev admitted : Live
admitted = record idle {
  runtime = record idle.runtime { wg = idle.runtime.wg + 1 };
  requests = none ∷ idle.requests;
}

abbrev busy : Live
busy = record admitted {
  runtime = (get_or_start_job fs limits 5 key admitted.runtime).0;
  running = push_started key (get_or_start_job fs limits 5 key admitted.runtime).1 admitted.running;
}

busy_reached : Reach idle busy
unfolding init new_runtime acquire_request
busy_reached = next (next here (acquire _ refl)) (start fs limits 5 key [] [] refl)

runtime_counted_example : AreCounted busy
unfolding System.init
runtime_counted_example =
    runtime_counted (System.init root (pos 1000) 60).cache busy refl busy_reached

runtime-IsListed_example : IsListed busy
runtime-IsListed_example = runtime-IsListed (System.init root (pos 1000) 60).cache busy busy_reached

runtime-System_example : System.Reach (System.init root (pos 1000) 60) (callers busy)
runtime-System_example = runtime-System root (pos 1000) 60 busy busy_reached

-- A host that answers each request with one digit: the user's, and the file's.
abbrev pub http : Http ℕ
http = record {
  send = λ s call. (
    suc s,
    some (record {
      status = 200;
      content_length = pos 90;
      etag = codes "e";
      last_modified = codes "m";
    }),
  );
  read_all = λ s r max. (s, some (codes "7"));
  close_body = λ s r. (s, true);
}

abbrev pub texts : Texts
texts = record {
  trim = λ s. s;
  unmarshal_string = some;
  unmarshal_id = some;
  unmarshal_versions = λ body. some (body ∷ []);
}

abbrev pub client : UpstreamClient
client = record { limit = pos 300; timeout = 15 }

abbrev digests : Digests
digests = record { hash_fingerprint = λ s. s; quote = λ s. s }

abbrev pub request : Request
request = record {
  token = codes "token";
  profile_id = codes "7";
  profile_token = [];
  content_id = codes "book";
  file_id = pos 7;
  api_version = codes "v1";
  cache_key = [];
  offset = 0;
}

abbrev pub file : UpstreamFile
file = record { size = pos 90; etag = codes "e"; last_modified = codes "m" }

abbrev answer : AuthorizedRequest
answer = record {
  request = request;
  file = file;
  fingerprint = fingerprint_for request file;
  cache_key = fingerprint_for request file;
}

request_authorized : (authorize http texts client digests 0 request (codes "7")).1 ≡ ok answer
unfolding authorize authenticate do_request do_with_timeout endpoint read_user check_user_status
    read_bounded user_of json_user_id is_trusted authorize_file authorize_item read_item
    check_status find_file lists_file parse_json_int64 parse_decimal parse_digits has_underscore
    read_digits format_int format_uint digits head_file file_of authorized bytes_eq has_prefix
    ℕ_discrete
request_authorized = refl

authorize-IsAuthorized_example : IsAuthorized http texts client digests request (codes "7") answer
authorize-IsAuthorized_example =
    authorize-IsAuthorized http texts client digests 0 request (codes "7") answer request_authorized

abbrev pub is_blank : Bytes → Bool
is_blank [] = true
is_blank (c ∷ s) = false

request_valid : validate_request is_blank request false ≡ ok tt
unfolding validate_request valid_path_id path_chars valid_header_value bytes_eq ℕ_discrete
request_valid = refl

abbrev retried : Request
retried = record request { token = codes "other" }

retried_valid : validate_request is_blank retried false ≡ ok tt
unfolding validate_request valid_path_id path_chars valid_header_value bytes_eq ℕ_discrete
retried_valid = refl

same_fingerprint : fingerprint_for request file ≡ fingerprint_for retried file
unfolding fingerprint_for
same_fingerprint = refl

fingerprint_for-injective_example :
    (request.api_version ≡ retried.api_version)
    × (request.content_id ≡ retried.content_id)
    × (request.file_id ≡ retried.file_id)
    × (file ≡ file)
fingerprint_for-injective_example =
    fingerprint_for-injective is_blank false false request retried file file request_valid
      retried_valid (λ p. omega (arith, p), tt) (λ p. omega (arith, p), tt) same_fingerprint
