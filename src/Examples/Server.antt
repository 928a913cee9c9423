-- ===== src/Examples/Server.antt =====
-- A page that is asked of a server whose backend counts its calls.
use bloem_community_crowquil.Prelude.{ℕ, suc, true, [], ◌∷◌, none, some, ok, err, codes}
use bloem_community_crowquil.Prelude.Int.{pos}
use bloem_community_crowquil.Silo.Requests.{Request, cache_stale}
use bloem_community_crowquil.Server.{HttpRequest, Outcome, ServerTexts, Backend, handle}
use bloem_community_crowquil.Server.Routes.{Handled, handle-Handled}

abbrev request : Request
request = record {
  token = codes "token";
  profile_id = codes "7";
  profile_token = [];
  content_id = codes "book";
  file_id = pos 3;
  api_version = codes "v1";
  cache_key = [];
  offset = 0;
}

abbrev texts : ServerTexts
texts = record {
  to_upper = λ s. s;
  trim = λ s. s;
  equal_fold = λ a b. true;
  marshal = λ v. some (codes "json");
  decode = λ body. some (request, []);
  at_end = λ rest. true;
}

abbrev outcome : Outcome
outcome = record {
  status = 200;
  pages = [];
  cache_key = [];
  body = some (codes "image");
  status_json = [];
}

abbrev backend : Backend ℕ
backend = record {
  health = λ s user. (suc s, none);
  pages = λ s req user. (suc s, err (some cache_stale));
  page = λ s req user index. (suc s, ok outcome);
}

abbrev page_request : HttpRequest
page_request = record {
  method = codes "POST";
  path = codes "/v1/page/4?x";
  headers = (codes "X-Silo-User-Id", codes "7") ∷ [];
  body = codes "{}";
}

handle-Handled_example :
    Handled texts backend 0 page_request (handle texts (some backend) 0 (some page_request))
handle-Handled_example = handle-Handled texts backend 0 page_request
