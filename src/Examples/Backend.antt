-- ===== src/Examples/Backend.antt =====
-- A runtime whose cache holds one entry of one page of three bytes.
use bloem_community_crowquil.Prelude.Strconv.{
  parse_decimal, parse_digits, has_underscore, read_digits, format_int, format_uint, digits,
}
use bloem_community_crowquil.Prelude.{
  ℕ, ◌≡◌, refl, true, false, [], ◌∷◌, none, some, ok, codes, bytes_eq, has_prefix, ℕ_discrete,
  Bytes-discrete,
}
use bloem_community_crowquil.Prelude.Int.{pos}
use bloem_community_crowquil.Silo.Keys.{normalize_key}
use bloem_community_crowquil.Silo.Requests.{
  Request, validate_request, valid_path_id, path_chars, valid_header_value,
}
use bloem_community_crowquil.Silo.Client.{
  endpoint, check_status, check_user_status, json_user_id, parse_json_int64, lists_file, user_of,
  find_file, file_of, do_with_timeout, do_request, read_bounded, read_user, authenticate, read_item,
  authorize_item, head_file,
}
use bloem_community_crowquil.Silo.Authorize.{
  AuthorizedRequest, Digests, is_trusted, authorized, authorize_file, authorize,
}
use bloem_community_crowquil.Silo.Page.{page_info, page_at, serve_chunk, read_section, chunk_size}
use bloem_community_crowquil.Silo.Cache.State.{FileSystem, PageCache, expired}
use bloem_community_crowquil.Silo.Cache.Entries
use bloem_community_crowquil.Silo.Cache.Lookup
use bloem_community_crowquil.Silo.Runtime.{new_runtime, acquire_request}
use bloem_community_crowquil.Silo.Backend.{
  Service, Answer, timer_fired, entry_pages, with_entry, page_answer, find_pages, list_authorized,
  serve_authorized, with_authorized, handle_pages, handle_page, pages, page,
}
use bloem_community_crowquil.Silo.Backend.Found.{IsListed, IsServed}
use bloem_community_crowquil.Silo.Backend.Served.{
  IsAllowed, behind_calls, joined_by_one, pages-IsAllowed, page-IsAllowed,
}
use bloem_community_crowquil.Examples.System.{root, key}
use bloem_community_crowquil.Examples.Runtime.{http, texts, client, limits, request, is_blank}

abbrev fs : FileSystem
fs = record {
  lstat = λ p. some (record { is_regular = true; size = pos 3 });
  stat = λ p. some (record { is_regular = true; size = pos 3 });
  remove_all = λ p. true;
  rename = λ p q. true;
}

abbrev cache : PageCache
cache = record {
  root = root;
  max_bytes = pos 1000;
  fallback_ttl = 60;
  entries =
      record {
        serial = 0;
        key = key;
        root = codes "cache" ∷ codes "entry" ∷ [];
        pages =
            record {
              name = codes "1.png";
              file = codes "cache" ∷ codes "entry" ∷ codes "1.png" ∷ [];
              size = pos 3;
              media_type = codes "image/png";
            }
            ∷ [];
        total = pos 3;
        expires_at = none;
        last_used = 5;
        active = 0;
        retired = false;
      }
      ∷ [];
  used_bytes = pos 3;
  reserved = pos 0;
  has_lease = true;
  pending = [];
  closed = false;
  next_serial = 1;
}

abbrev digests : Digests
digests = record { hash_fingerprint = λ s. key; quote = λ s. s }

abbrev service : Service ℕ
service = record {
  now = λ s. (s, 7);
  files = λ s. fs;
  read_file = λ s path. some (1 ∷ 2 ∷ 3 ∷ []);
  wait = λ s r job. (s, r, timer_fired);
  meanwhile = λ s r. r;
}

abbrev page_request : Request
page_request = record request { cache_key = key }

abbrev listed : Answer
listed = record {
  cache_key = key;
  pages = record { name = codes "1.png"; size = pos 3 } ∷ [];
  body = [];
}

abbrev served : Answer
served = record { cache_key = key; pages = []; body = 1 ∷ 2 ∷ 3 ∷ [] }

pages_listed :
    (pages service http texts client digests is_blank limits 0
      (new_runtime cache)
      request
      (codes "7")).1
    ≡ ok listed
unfolding pages new_runtime acquire_request handle_pages validate_request valid_path_id path_chars
    valid_header_value with_authorized list_authorized find_pages with_entry entry_pages page_info
    Lookup.lookup Lookup.pages_present Lookup.is_intact expired Entries.find Entries.update
    authorize authenticate do_request do_with_timeout endpoint read_user check_user_status
    read_bounded user_of json_user_id is_trusted authorize_file authorize_item read_item
    check_status find_file lists_file parse_json_int64 parse_decimal parse_digits has_underscore
    read_digits format_int format_uint digits head_file file_of authorized bytes_eq has_prefix
    ℕ_discrete Bytes-discrete Entries.use_at
pages_listed = refl

pages-IsAllowed_example :
    (a : AuthorizedRequest) × IsAllowed service http texts client digests is_blank
      (new_runtime cache)
      0
      request
      (codes "7")
      false
      a
    × IsListed service limits a.cache_key
        (behind_calls service http texts client digests is_blank
          (new_runtime cache)
          0
          request
          (codes "7")
          (joined_by_one (new_runtime cache)))
        listed
pages-IsAllowed_example =
    pages-IsAllowed service http texts client digests is_blank (new_runtime cache) 0 request
      (codes "7") limits listed pages_listed

page_served :
    (page service http texts client digests is_blank 0
      (new_runtime cache)
      page_request
      (codes "7")
      (pos 0)).1
    ≡ ok served
unfolding page new_runtime acquire_request handle_page validate_request valid_path_id path_chars
    normalize_key valid_header_value with_authorized serve_authorized with_entry entry_pages
    page_answer page_at serve_chunk read_section chunk_size Lookup.lookup Lookup.pages_present
    Lookup.is_intact expired Entries.find Entries.update authorize authenticate do_request
    do_with_timeout endpoint read_user check_user_status read_bounded user_of json_user_id
    is_trusted authorize_file authorize_item read_item check_status find_file lists_file
    parse_json_int64 parse_decimal parse_digits has_underscore read_digits format_int format_uint
    digits head_file file_of authorized bytes_eq has_prefix ℕ_discrete Bytes-discrete Entries.use_at
page_served = refl

page-IsAllowed_example :
    (a : AuthorizedRequest) × IsAllowed service http texts client digests is_blank
      (new_runtime cache)
      0
      page_request
      (codes "7")
      true
      a
    × IsServed service
        (behind_calls service http texts client digests is_blank
          (new_runtime cache)
          0
          page_request
          (codes "7")
          (joined_by_one (new_runtime cache))).cache
        a.cache_key
        (pos 0)
        page_request.offset
        served
page-IsAllowed_example =
    page-IsAllowed service http texts client digests is_blank (new_runtime cache) 0 page_request
      (codes "7") (pos 0) served page_served
