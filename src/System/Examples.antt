-- ===== src/System/Examples.antt =====
-- Runs of the API and the workers together: one request, and two workers.
use mathlib.Core.List.Memᴰ
use web_gobbler.Prelude.{
  ℕ, suc, none, some, [], ◌∷◌, Memᴰ, ◌≡◌, refl, ap, inl, inr, ◌==◌, if◌then◌else◌,
}
use web_gobbler.Scraper.{blank_result}
use web_gobbler.Crawl.Examples.{small_net}
use web_gobbler.Queue.{JobPayload}
use web_gobbler.Queue.Redis.{Redis, pop_last, enqueue, dequeue}
use web_gobbler.Queue.Examples.{plain_payload, plain_payloads, plain_payloads-IsFaithful}
use web_gobbler.Store.Table.{Db, select_id, update_where}
use web_gobbler.Store.Jobs.{create_job, claim_job}
use web_gobbler.Store.Examples.{queued_row, new_job, bare_codec, bare_codec-IsFaithful}
use web_gobbler.Worker.Examples.{setting, small_pool, no_metrics, parse_id}
use web_gobbler.Api.Convert.{request_to_job_options, to_payload_options}
use web_gobbler.Api.Validator.{validate_scrape_request, validate_url, validate_extract}
use web_gobbler.Worker.Process.{run_kind, extract_hostname}
use web_gobbler.Worker.Retry.{apply_job_options, execute_with_retry}
use web_gobbler.Api.Backend.{Uuids, Serving}
use web_gobbler.Api.Examples.{plain_strings, scrape_request}
use web_gobbler.System.{
  free, holding, running, System, Step, create, send, take, claim, Reach, here, next, start,
  set_worker,
}
use web_gobbler.System.Runners.{one_runner}
use web_gobbler.System.Messages.{CalmReach, calm_here, calm_next, CanSend, Waiting}
use web_gobbler.System.Waiting.{no_lost_job}
use web_gobbler.System.Backend.{Site, site_backend}
use web_gobbler.Api.Handlers.{handle_scrape}
use web_gobbler.System.EndToEnd.{Served, scrape_to_result}

abbrev pub no_rows : Db
no_rows = record { rows = []; faults = [] }

abbrev pub no_items : Redis
no_items = record { items = []; faults = [] }

abbrev pub one_row : Db
one_row = record { rows = queued_row ∷ []; faults = [] }

abbrev pub one_item : Redis
one_item = record { items = "plain" ∷ []; faults = [] }

-- A request has made its row, and then its message is in the queue, and then worker 0 has it.
abbrev pub requested : System
requested = record {
  db = one_row;
  redis = no_items;
  posting = plain_payload ∷ [];
  workers = λ i. free;
}

abbrev pub claimed_by : ℕ → System
claimed_by i = record {
  db = (claim_job 1 20 one_row).1;
  redis = no_items;
  posting = [];
  workers = set_worker i (running 1) (set_worker i (holding plain_payload) (λ j. free));
}

create_step : Step bare_codec plain_payloads parse_id (start no_rows no_items) requested
unfolding create_job select_id
create_step = create 1 10 new_job plain_payload refl refl

send_step :
    Step bare_codec plain_payloads parse_id requested
      (record requested { redis = (enqueue plain_payloads plain_payload no_items).1; posting = [] })
send_step = send [] [] plain_payload refl

take_step :
    Step bare_codec plain_payloads parse_id
      (record requested { redis = (enqueue plain_payloads plain_payload no_items).1; posting = [] })
      (record requested {
        redis = no_items;
        posting = [];
        workers = set_worker 0 (holding plain_payload) (λ j. free);
      })
unfolding enqueue dequeue pop_last
take_step = take 0 refl refl

claim_step :
    Step bare_codec plain_payloads parse_id
      (record requested {
        redis = no_items;
        posting = [];
        workers = set_worker 0 (holding plain_payload) (λ j. free);
      })
      (claimed_by 0)
unfolding claim_job update_where
claim_step = claim 0 plain_payload 1 20 refl refl

claimed_by-Reach : Reach bare_codec plain_payloads parse_id no_rows no_items (claimed_by 0)
claimed_by-Reach = next (next (next (next here create_step) send_step) take_step) claim_step

one_runner_example : ◌≡◌ {A = ℕ} 0 0
one_runner_example = one_runner bare_codec plain_payloads parse_id claimed_by-Reach 0 0 1 refl refl

only_plain :
    (p : JobPayload) → Memᴰ p (plain_payload ∷ []) → CanSend bare_codec plain_payloads parse_id p
only_plain p there = elim (Memᴰ.cases_cons there) [
  | inl same ↦ ("plain", ap plain_payloads.marshal same)
  | inr none_there ↦ absurd (Memᴰ.not-nil none_there)
]

requested-CalmReach : CalmReach bare_codec plain_payloads parse_id requested
requested-CalmReach = calm_next calm_here create_step only_plain

no_lost_job_example : Waiting bare_codec plain_payloads parse_id 1 requested
unfolding select_id
no_lost_job_example =
    no_lost_job bare_codec plain_payloads parse_id plain_payloads-IsFaithful 1 requested-CalmReach
      refl refl

-- The first request of a site.
abbrev ids : Uuids
ids = record { parse = parse_id; format = λ id. if id == 1 then "1" else "2" }

abbrev new_site : Serving Site
new_site = record {
  backend = record { db = no_rows; redis = no_items; clock = 10; made = 0 };
  depth_gauge = 0;
  queued_jobs = 0;
}

request_valid : validate_scrape_request small_net plain_strings scrape_request ≡ none
unfolding validate_scrape_request validate_url validate_extract
request_valid = refl

request_runs :
    run_kind setting small_pool plain_payload 1
      (claim_job 1 20
        (handle_scrape
          (site_backend bare_codec plain_payloads (λ n. suc n) (λ rows. rows))
          ids
          small_net
          plain_strings
          (some scrape_request)
          new_site).1.backend.db).1
    ≡ some (record { result = some blank_result; error = none })
unfolding run_kind apply_job_options extract_hostname execute_with_retry
request_runs = refl

scrape_to_result_example :
    Served setting small_pool plain_payloads
      (λ n. suc n)
      (λ rows. rows)
      ids
      small_net
      plain_strings
      scrape_request
      new_site
      no_metrics
      20
      30
      blank_result
unfolding to_payload_options request_to_job_options select_id
scrape_to_result_example =
    scrape_to_result setting small_pool plain_payloads (λ n. suc n) (λ rows. rows) ids small_net
      plain_strings scrape_request new_site no_metrics 20 30 blank_result bare_codec-IsFaithful
      plain_payloads-IsFaithful (record { no_faults = refl; keyed = tt }) refl ("{}", refl) refl
      refl request_valid refl refl (λ d. refl) refl request_runs
