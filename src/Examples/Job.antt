-- ===== src/Examples/Job.antt =====
-- A job that downloads an archive of ninety bytes and publishes its one page.
use bloem_community_crowquil.Prelude.{
  ℕ, ◌≡◌, refl, true, false, List, [], ◌∷◌, none, some, ok, codes, arith, bytes_eq, has_prefix,
  ℕ_discrete, FilePath-discrete, Bytes-discrete,
}
use bloem_community_crowquil.Prelude.Int.{pos, ◌+ℤ◌, ◌-ℤ◌}
use bloem_community_crowquil.Silo.Client.{
  endpoint, check_status, do_with_timeout, download, download_of,
}
use bloem_community_crowquil.Silo.Keys.{normalize_key}
use bloem_community_crowquil.Silo.Cache.State.{rel_below, owned_path, base}
use bloem_community_crowquil.Silo.Cache.Commit.{ReportedPage}
use bloem_community_crowquil.Silo.Cache.Commit
use bloem_community_crowquil.Silo.Cache.Entries
use bloem_community_crowquil.Silo.Cache.Evict
use bloem_community_crowquil.Silo.Cache.Lookup
use bloem_community_crowquil.Silo.Extraction.{
  JobSystem, Job, source_changed, pages_fit, write_bounded_file, publish_pages, extract_file,
  check_source, receive, fetch, run_job, finish_job, extract_job, validator_fingerprint,
}
use bloem_community_crowquil.Silo.Extraction.Published.{IsPublished, extract_job-IsPublished}
use bloem_community_crowquil.Silo.Authorize.{AuthorizedRequest}
use bloem_community_crowquil.Examples.System.{fs, root, job, key}
use bloem_community_crowquil.Examples.Runtime.{http, texts, client, limits, request, file}

abbrev reported : List ReportedPage
reported =
    record {
      name = codes "1.png";
      file = some (codes "cache" ∷ codes ".job-1" ∷ codes "pages" ∷ codes "1.png" ∷ []);
      size = pos 100;
      media_type = codes "image/png";
    }
    ∷ []

abbrev system : JobSystem ℕ
system = record {
  runtime_done = λ s. (s, false);
  job_error = λ s. (s, none);
  make_job_dir = λ s. (s, some job);
  open_file = λ s path. (s, none);
  copy_body = λ s body max. (s, pos 90, none);
  sync_file = λ s. (s, none);
  close_file = λ s. s;
  change_mode = λ s path. (s, true);
  extractor = λ s input output limits. (s, ok reported);
  now = λ s. (s, 7);
  files = λ s. fs;
  exceeds_limit = λ e. false;
}

abbrev waiting : Job ℕ
waiting = record {
  world = 0;
  cache = record {
    root = root;
    max_bytes = pos 1000;
    fallback_ttl = 60;
    entries = [];
    used_bytes = pos 0;
    reserved = pos 400;
    has_lease = true;
    pending = [];
    closed = false;
    next_serial = 0;
  };
  reservation = record { bytes = pos 400; job_dir = none; committed = false; used = false };
  extract = true;
}

abbrev authorized_request : AuthorizedRequest
authorized_request = record { request = request; file = file; fingerprint = []; cache_key = key }

-- The job ends without an error.
job_published : (extract_job http texts client system limits waiting authorized_request).1 ≡ none
unfolding extract_job finish_job run_job fetch receive write_bounded_file check_source
    source_changed extract_file publish_pages pages_fit validator_fingerprint download
    do_with_timeout endpoint check_status download_of bytes_eq has_prefix ℕ_discrete ◌+ℤ◌ ◌-ℤ◌
    Evict.release Commit.commit Commit.after_convert Commit.commit_locked Commit.publish
    Commit.convert_pages Commit.convert_page Commit.valid_page_file rel_below owned_path base
    normalize_key FilePath-discrete Bytes-discrete Entries.find Entries.insert
    Commit.fallback_expiry Lookup.is_intact
job_published = refl

extract_job-IsPublished_example :
    let o = extract_job http texts client system limits waiting authorized_request in
    (o.0.reservation.used ≡ true)
    × (o.0.extract ≡ false)
    × (o.1 ≡ none → IsPublished http texts client system limits authorized_request o.0)
extract_job-IsPublished_example =
    extract_job-IsPublished http texts client system limits waiting authorized_request (omega arith)
