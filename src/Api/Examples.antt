-- ===== src/Api/Examples.antt =====
-- Requests for internal/api, with a store that creates every job under one id and a queue that
-- takes every message.
use web_gobbler.Prelude.{ℕ, suc, ◌≤◌, pos, true, none, some, [], ◌∷◌, ◌≡◌, ◌⊎◌, refl, All, length}
use web_gobbler.Scraper.{default_options, blank_result}
use web_gobbler.Crawl.Examples.{small_net, small_world, crawl_result}
use web_gobbler.Crawl.Frontier.{normalize_url, run_loop, admissible}
use web_gobbler.Crawl.Pages.{crawl_bfs, crawl_round, take_page, offer}
use web_gobbler.Queue.{JobPayload, kind_crawl, kind_map}
use web_gobbler.Store.Types.{Job, failed, ok, err, not_found}
use web_gobbler.Worker.Process.{crawl_options}
use web_gobbler.Api.Types.{RequestOptions, ScrapeRequest, CrawlRequest, MapRequest}
use web_gobbler.Api.Validator.{
  Strings, depth_range, validate_url, validate_extract, validate_options, out_of_range,
  validate_scrape_request, validate_crawl_request, validate_map_request,
}
use web_gobbler.Api.Backend.{Backend, Serving, Uuids}
use web_gobbler.Api.Convert.{
  to_payload_options, request_to_job_options, no_options, crawl_defaults, map_defaults,
}
use web_gobbler.Api.Handlers.{accept_job, handle_scrape}
use web_gobbler.Api.Listing.{handle_list_jobs, KnownStatus, Listed, handle_list_jobs-code}
use web_gobbler.Api.Limits.{queued_options, crawl_limits}

abbrev pub plain_strings : Strings
plain_strings = record { to_lower = λ s. s; quote = λ s. s }

-- Counts the messages that it takes.
abbrev pub counting : Backend ℕ
counting = record {
  create_job = λ job s. (ok (1, 10), s);
  get_job = λ id s. (err (not_found id), s);
  list_jobs = λ page limit filter s. (ok ([], s), s);
  cancel_job = λ id s. (err (not_found id), s);
  ping_store = λ s. (true, s);
  enqueue = λ payload s. (true, suc s);
  queue_depth = λ s. (some s, s);
  ping_queue = λ s. (true, s);
}

abbrev pub plain_ids : Uuids
plain_ids = record { parse = λ s. none; format = λ id. "1" }

abbrev pub idle : Serving ℕ
idle = record { backend = 0; depth_gauge = 0; queued_jobs = 0 }

abbrev pub scrape_request : ScrapeRequest
scrape_request = record { url = "a"; extract = "links" ∷ []; options = none }

abbrev deep_options : RequestOptions
deep_options = record no_options { max_depth = some (pos 6) }

abbrev deep_request : CrawlRequest
deep_request = record { url = "a"; extract = []; options = some deep_options }

abbrev crawl_request : CrawlRequest
crawl_request = record {
  url = "a";
  extract = [];
  options = some (record no_options { max_pages = some (pos 7) });
}

abbrev map_request : MapRequest
map_request = record { url = "a"; options = none }

abbrev crawl_payload : JobPayload
crawl_payload = record {
  job_id = "1";
  kind = kind_crawl;
  url = "a";
  extract = "markdown" ∷ [];
  options = queued_options (crawl_defaults crawl_request.options);
}

abbrev map_payload : JobPayload
map_payload = record {
  job_id = "1";
  kind = kind_map;
  url = "a";
  extract = "links" ∷ [];
  options = queued_options (map_defaults map_request.options);
}

accepted_run :
    let answer =
      handle_scrape counting plain_ids small_net plain_strings (some scrape_request) idle in
    (answer.0.code ≡ 202) × (answer.1 ≡ record { backend = 1; depth_gauge = 1; queued_jobs = 1 })
unfolding handle_scrape validate_scrape_request accept_job validate_url validate_extract
accepted_run = (refl, refl)

crawl_valid : validate_crawl_request small_net plain_strings crawl_request ≡ none
unfolding validate_crawl_request validate_url validate_extract validate_options out_of_range
crawl_valid = refl

deep_refused : validate_crawl_request small_net plain_strings deep_request ≡ some depth_range
unfolding validate_crawl_request validate_url validate_extract validate_options out_of_range
deep_refused = refl

map_valid : validate_map_request small_net map_request ≡ none
unfolding validate_map_request validate_url
map_valid = refl

crawl_run :
    (crawl_bfs small_net small_world "a" (crawl_options crawl_payload default_options)).result
    ≡ some crawl_result
unfolding crawl_options to_payload_options request_to_job_options crawl_defaults crawl_bfs
    normalize_url run_loop crawl_round take_page offer admissible
crawl_run = refl

crawl_limits_example : (length crawl_result.pages ≤ 100) × All (λ p. p.depth ≤ 5) crawl_result.pages
crawl_limits_example =
    crawl_limits plain_strings small_net crawl_payload default_options small_world "a" crawl_request
      crawl_result crawl_valid refl crawl_run

handle_list_jobs-code_example :
    let answer = handle_list_jobs counting (λ t. pos 500) (some "500") none "failed" idle in
    (KnownStatus "failed" × (Listed answer.0 ⊎ (answer.0.code ≡ 500)))
    ⊎ ((¬ KnownStatus "failed") × (answer.0.code ≡ 400) × (answer.1 ≡ idle))
handle_list_jobs-code_example =
    handle_list_jobs-code counting (λ t. pos 500) (some "500") none "failed" idle

-- A job that failed after a part of a result.
abbrev gone_job : Job
gone_job = record {
  id = 3;
  url = "a";
  extract = [];
  options = none;
  status = failed;
  result = some blank_result;
  error_msg = some "gone";
  http_status = some 404;
  retries_used = 1;
  duration_ms = some 12;
  created_at = 10;
  updated_at = 30;
  completed_at = some 30;
}
