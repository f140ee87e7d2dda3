-- ===== src/Worker/Examples.antt =====
-- Jobs of the table of Store/Examples for cmd/worker/main.go, on the site of Crawl/Examples.
use web_gobbler.Prelude.{
  ℕ, zero, suc, ◌<◌, pos, String, str_eq, false, Option, none, some, [], ◌∷◌, ◌≡◌, ◌↔◌, refl, arith,
  to_ℕ, if◌then◌else◌,
}
use web_gobbler.Scraper.{request_failed, blank_result, Scraped, scraped, refused, default_options}
use web_gobbler.Crawl.Frontier.{World}
use web_gobbler.Crawl.Examples.{small_net}
use web_gobbler.Queue.{JobPayload}
use web_gobbler.Store.Table.{select_id}
use web_gobbler.Store.Jobs.{claim_job}
use web_gobbler.Store.Examples.{table, table-IsSound, bare_codec}
use web_gobbler.Worker.Retry.{Pool, execute_from, execute_with_retry, apply_job_options}
use web_gobbler.Worker.Process.{
  Metrics, panicked, Setting, handle_job_result, extract_hostname, run_kind, process_job,
}
use web_gobbler.Worker.Laws.{Fails}
use web_gobbler.Worker.Outcome.{retry_panics_iff}
use web_gobbler.Worker.Jobs.{
  completed_row, failed_row, Ended, process_job-completes, process_job-fails,
}

-- The first attempt at "slow" fails, as all attempts at "gone" do.
abbrev answers : ℕ → String → Scraped
answers n url =
    if str_eq url "gone"
    then refused none request_failed
    else elim n [ zero ↦ refused none request_failed | suc k ↦ scraped blank_result ]

abbrev flaky_world : World
flaky_world = record {
  ctx_done = λ n. false;
  cancel_check = none;
  rate = none;
  scrape_page = λ n url extract opts. answers n url;
  elapsed_ms = λ n. n;
}

abbrev pub small_pool : Pool
small_pool = record { default_opts = default_options; max_retries = pos 3 }

abbrev pub parse_id : String → Option ℕ
parse_id s = if str_eq s "1" then some 1 else if str_eq s "2" then some 2 else none

abbrev pub setting : Setting
setting = record {
  codec = bare_codec;
  error_text = λ e. "error";
  parse_uuid = parse_id;
  net = small_net;
  ctx_done = λ n. false;
  wait = λ n host. none;
  scrape_page = λ n url extract opts. answers n url;
  elapsed_ms = λ n. n;
  table_at = λ db n. db;
  table_after = λ db. db;
}

abbrev pub payload_of : String → String → JobPayload
payload_of id url = record { job_id = id; kind = ""; url = url; extract = []; options = none }

abbrev pub no_metrics : Metrics
no_metrics = record { completed_jobs = 0; failed_jobs = 0; http_errors = 0; durations = [] }

retry_run :
    (execute_with_retry flaky_world "gone" [] default_options (pos 3)).waits ≡ 100 ∷ 200 ∷ []
unfolding execute_with_retry execute_from
retry_run = refl

first-Fails : (n : ℕ) → n < 1 → Fails flaky_world "slow" [] default_options n
first-Fails zero lt = (none, request_failed, refl)
first-Fails (suc n) lt = absurd (omega arith)

-- What the worker's scrapes of the two URLs return, after its claim.
slow_runs :
    run_kind setting small_pool (payload_of "1" "slow") 1 (claim_job 1 20 table).1
    ≡ some (record { result = some blank_result; error = none })
unfolding run_kind apply_job_options extract_hostname execute_with_retry
slow_runs = refl

gone_runs :
    run_kind setting small_pool (payload_of "1" "gone") 1 (claim_job 1 20 table).1
    ≡ some (record { result = none; error = some request_failed })
unfolding run_kind apply_job_options extract_hostname execute_with_retry
gone_runs = refl

retry_panics_iff_example :
    let r = (execute_with_retry flaky_world "slow" [] default_options (pos 0)).returned in
    (handle_job_result bare_codec (λ e. "error") 1 20 r.result r.error 1 table no_metrics
      ≡ panicked table)
    ↔ (to_ℕ (pos 0) ≡ 0)
retry_panics_iff_example =
    retry_panics_iff flaky_world "slow" [] default_options (pos 0) bare_codec (λ e. "error") 1 20 1
      table no_metrics

process_job-completes_example :
    Ended
      (process_job setting small_pool (payload_of "1" "slow") 20 30 table no_metrics)
      1
      (completed_row bare_codec blank_result 30)
      table
      (record no_metrics { completed_jobs = 1; durations = 0 ∷ [] })
process_job-completes_example =
    process_job-completes setting small_pool (payload_of "1" "slow") 1 20 30 table no_metrics
      (λ d. refl) table-IsSound refl (unfold select_id in refl) blank_result slow_runs

process_job-fails_example :
    Ended
      (process_job setting small_pool (payload_of "1" "gone") 20 30 table no_metrics)
      1
      (failed_row bare_codec none "error" 30)
      table
      (record no_metrics { failed_jobs = 1 })
process_job-fails_example =
    process_job-fails setting small_pool (payload_of "1" "gone") 1 20 30 table no_metrics
      (λ d. refl) table-IsSound refl (unfold select_id in refl) none request_failed gone_runs
