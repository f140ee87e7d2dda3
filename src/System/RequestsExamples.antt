-- ===== src/System/RequestsExamples.antt =====
-- A request to the API over a table and a queue, and a worker's job, as steps of the system.
use web_gobbler.Prelude.{
  ℕ, Memᴰ, false, none, some, [], ◌∷◌, ◌≡◌, refl, ap, subst, inl, inr, arith, ◌==◌, Bool-cases,
}
use web_gobbler.Queue.Examples.{plain_payload, plain_payloads, plain_payloads-IsFaithful}
use web_gobbler.Store.Examples.{bare_codec}
use web_gobbler.Worker.Process.{process_job}
use web_gobbler.Worker.Examples.{setting, small_pool, no_metrics}
use web_gobbler.Server.{Request, Parts, Live, serve}
use web_gobbler.Server.Examples.{small_parts, get_health, page}
use web_gobbler.System.{free, holding, System, set_worker}
use web_gobbler.System.Backend.{Site, site_backend}
use web_gobbler.System.Progress.{stay}
use web_gobbler.System.Examples.{no_rows, no_items, one_row, one_item}
use web_gobbler.System.Requests.{Steps, serve-Steps}
use mathlib.Core.Option.{some-injective}
use web_gobbler.Queue.{JobPayload, kind_scrape}
use web_gobbler.Api.Types.{ScrapeRequest}
use web_gobbler.Api.Convert.{extract_or, to_payload_options, request_to_job_options}
use web_gobbler.Api.Handlers.{handle_scrape, accept_job}
use web_gobbler.Api.Validator.{validate_scrape_request, validate_url, validate_extract}
use web_gobbler.Limits.{rate_limit, find}
use web_gobbler.Store.Jobs.{new_row, create_job}
use web_gobbler.Queue.Refines.{contents}
use web_gobbler.System.Messages.{CanSend}
use web_gobbler.System.Traffic.{Writes, serve_all, empty_live, requests_queue_jobs}
use web_gobbler.System.Rounds.{Working, work_rounds}
use web_gobbler.System.Drained.{Covered, Drained, work_rounds-drain}
use web_gobbler.Queue.Redis.{enqueue, pop_last}
use web_gobbler.Store.Table.{select_id}
use web_gobbler.Store.Laws.{row_of}
use web_gobbler.System.Working.{Ends, process_job-Ends}

abbrev site_parts : Parts Site ℕ ℕ ℕ
site_parts = record {
  backend = site_backend bare_codec plain_payloads (λ n. 1) (λ rows. rows);
  extractor = none;
  llm_enabled = false;
  ids = record { parse = λ text. some 1; format = λ id. "1" };
  net = small_parts.net;
  strings = small_parts.strings;
  atoi = small_parts.atoi;
  trim_space = small_parts.trim_space;
  rate = small_parts.rate;
  find = small_parts.find;
  no_route = small_parts.no_route;
  expose = λ s. page 200;
  max_bytes = small_parts.max_bytes;
  bind_scrape = small_parts.bind_scrape;
  bind_crawl = small_parts.bind_crawl;
  bind_map = small_parts.bind_map;
  bind_extract = small_parts.bind_extract;
}

abbrev site_live : Live Site ℕ ℕ
site_live = record {
  serving = record {
    backend = record { db = no_rows; redis = no_items; clock = 10; made = 0 };
    depth_gauge = 0;
    queued_jobs = 0;
  };
  llm = 0;
  visitors = [];
  log = [];
}

abbrev post_scrape : Request ℕ
post_scrape = record get_health { method = "POST"; path = "/api/v1/scrape" }

serve-Steps_example :
    Steps bare_codec plain_payloads
      (λ n. 1)
      (λ rows. rows)
      []
      (λ i. free)
      site_parts
      (λ n. refl)
      site_live.serving
      (serve site_parts post_scrape site_live).1.serving
serve-Steps_example =
    serve-Steps bare_codec plain_payloads (λ n. 1) (λ rows. rows) [] (λ i. free) site_parts
      (λ n. refl) post_scrape site_live

-- Worker 0 has the message of the one job.
abbrev holds : System
holds = record {
  db = one_row;
  redis = no_items;
  posting = [];
  workers = set_worker 0 (holding plain_payload) (λ j. free);
}

process_job-Ends_example :
    Ends setting small_pool plain_payloads holds 0
      (process_job setting small_pool plain_payload 20 30 one_row no_metrics)
process_job-Ends_example =
    process_job-Ends setting small_pool plain_payloads holds 0 plain_payload 20 30 no_metrics refl
      (λ id named won. record { later = _; steps = stay; table = refl; still = refl })

-- One job, and its message in the queue.
abbrev one_job : Working
one_job = record { db = one_row; redis = one_item; metrics = no_metrics; clock = 20; down = false }

one_job-Covered :
    Covered setting small_pool (λ d. refl) plain_payloads (some plain_payload ∷ []) one_job
unfolding pop_last select_id
one_job-Covered = record {
  sound = record { no_faults = refl; keyed = (tt, tt) };
  still = refl;
  list = refl;
  up = refl;
  named = λ id h. elim (Bool-cases (1 == id)) [
    | inl same ↦ (plain_payload, ap some (ground arith), Memᴰ.head refl)
    | inr other ↦ absurd (ground (arith, other, h))
  ];
}

work_rounds-drain_example :
    Drained setting small_pool
      (λ d. refl)
      plain_payloads
      (some plain_payload ∷ [])
      (work_rounds setting small_pool plain_payloads 1 one_job)
work_rounds-drain_example =
    work_rounds-drain setting small_pool (λ d. refl) plain_payloads (some plain_payload ∷ [])
      one_job one_job-Covered

plain_Writes : Writes bare_codec plain_payloads (λ n. 1) (λ rows. rows) site_parts (λ n. refl)
unfolding to_payload_options request_to_job_options
plain_Writes = record {
  of_scrape = λ body r e n.
      subst (λ x. CanSend bare_codec plain_payloads site_parts.ids.parse (sent_of x))
        (some-injective _ _ e) ("plain", refl);
  of_crawl = λ body r e n. cc e;
  of_map = λ body r e n. cc e;
}
  where
    sent_of : ScrapeRequest → JobPayload
    sent_of r = record {
      job_id = "1";
      kind = kind_scrape;
      url = r.url;
      extract = extract_or ("links" ∷ []) r.extract;
      options = to_payload_options (some (request_to_job_options r.options));
    }

abbrev after_scrape : Live Site ℕ ℕ
after_scrape = serve_all site_parts (post_scrape ∷ []) (empty_live 0)

scraped_row :
    row_of 1 after_scrape.serving.backend.db
    ≡ some (new_row 1 0 (record { url = "a"; extract = "links" ∷ []; options = none }) (some "{}"))
unfolding serve handle_scrape accept_job rate_limit create_job select_id validate_scrape_request
    validate_url validate_extract find enqueue
scraped_row = refl

requests_queue_jobs_example :
    (m : JobPayload) × (site_parts.ids.parse m.job_id ≡ some 1)
    × Memᴰ (some m) (contents plain_payloads after_scrape.serving.backend.redis.items)
requests_queue_jobs_example =
    requests_queue_jobs bare_codec plain_payloads (λ n. 1) (λ rows. rows) site_parts (λ n. refl)
      plain_payloads-IsFaithful plain_Writes (post_scrape ∷ []) 0 1 scraped_row refl
