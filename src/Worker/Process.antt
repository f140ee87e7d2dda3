-- ===== src/Worker/Process.antt =====
-- cmd/worker/main.go: processJob and handleJobResult.
-- The store, the site and the rate limiter are shared with others: what they do while a job runs is
-- an argument. A nil pointer that is read ends the process, `panicked`.
use web_gobbler.Prelude.{
  ℕ, pos, String, str_eq, Bool, false, not, Option, none, some, List, [], ◌∷◌, suc, if◌then◌else◌,
}
use web_gobbler.Scraper.{Net, Error, is_http_failed, ScrapeOptions, Result, blank_result, Scraped}
use web_gobbler.Crawl.Frontier.{Options, World, Returned}
use web_gobbler.Crawl.Pages.{crawl_bfs}
use web_gobbler.Crawl.Urls.{map_bfs}
use web_gobbler.Queue.{PayloadOptions, JobPayload, kind_scrape, kind_crawl, kind_map}
use web_gobbler.Store.Types.{Uuid, Time, processing, completed, failed, is_status, ok, err, Codec}
use web_gobbler.Store.Table.{Db}
use web_gobbler.Store.Jobs.{get_job, claim_job, update_job}
use web_gobbler.Worker.Retry.{
  Pool, or_else, apply_job_options, execute_with_retry, calculate_retries,
}

-- The counters of internal/metrics that a worker moves.
pub record Metrics : Type 0 where
  pub completed_jobs : ℕ
  pub failed_jobs : ℕ
  pub http_errors : ℕ
  pub durations : List ℕ

pub data Handled : Type 0 where
  panicked : Db → Handled
  handled : Db → Metrics → Handled

-- What a worker of the pool is given: the codec of the store, err.Error(), uuid.Parse, the outside
-- of the scraper, and how the table looks at a round of a crawl and at its end, from how it looked
-- after the claim.
pub record Setting : Type 0 where
  pub codec : Codec
  pub error_text : Error → String
  pub parse_uuid : String → Option Uuid
  pub net : Net
  pub ctx_done : ℕ → Bool
  pub wait : ℕ → String → Option Error
  pub scrape_page : ℕ → String → List String → ScrapeOptions → Scraped
  pub elapsed_ms : ℕ → ℕ
  pub table_at : Db → ℕ → Db
  pub table_after : Db → Db

-- The partial result of a failed job.
abbrev pub partial : Option Result → Option Result
partial none = none
partial (some r) =
    some (record blank_result { http_status = r.http_status; duration_ms = r.duration_ms })

abbrev pub count_http_error : Error → ℕ → ℕ
count_http_error e n = if is_http_failed e then suc n else n

-- handleJobResult: an update that fails is logged, and the counters move all the same.
unfoldable pub handle_job_result :
    Codec
    → (Error → String)
    → Uuid
    → Time
    → Option Result
    → Option Error
    → ℕ
    → Db
    → Metrics
    → Handled
handle_job_result c text id now none none retries db m = panicked db
handle_job_result c text id now (some r) none retries db m =
    handled (update_job c id completed (some r) none retries now db).1
      (record m { completed_jobs = suc m.completed_jobs; durations = r.duration_ms ∷ m.durations })
handle_job_result c text id now result (some e) retries db m =
    handled (update_job c id failed (partial result) (some (text e)) retries now db).1
      (record m { failed_jobs = suc m.failed_jobs; http_errors = count_http_error e m.http_errors })

-- extractHostname
unfoldable pub extract_hostname : Net → String → String
extract_hostname net raw = elim (net.parse raw) [ none ↦ "unknown" | some u ↦ net.hostname u ]

abbrev option_of {ℓ} : {A : Type ℓ} → (PayloadOptions → Option A) → Option PayloadOptions → A → A
option_of field none d = d
option_of field (some o) d = or_else (field o) d

-- `if kind == "" { kind = queue.KindScrape }`
abbrev pub kind_of : JobPayload → String
kind_of payload = if str_eq payload.kind "" then kind_scrape else payload.kind

-- The options of crawl.CrawlBFS and crawl.MapBFS; Go's zero value is 0.
unfoldable pub crawl_options : JobPayload → ScrapeOptions → Options
crawl_options payload opts = record {
  max_pages = option_of (λ o. o.max_pages) payload.options (pos 0);
  max_depth = option_of (λ o. o.max_depth) payload.options (pos 0);
  max_urls = pos 0;
  extract = payload.extract;
  scrape = opts;
}

unfoldable pub map_options : JobPayload → ScrapeOptions → Options
map_options payload opts = record {
  max_pages = pos 0;
  max_depth = option_of (λ o. o.max_depth) payload.options (pos 0);
  max_urls = option_of (λ o. o.max_urls) payload.options (pos 0);
  extract = [];
  scrape = opts;
}

module _ (setting : Setting) (pool : Pool) where
  -- cancelCheck, at a round of a crawl.
  unfoldable pub cancel_check : Uuid → Db → ℕ → Bool
  cancel_check id db n = elim (get_job setting.codec id (setting.table_at db n)).0 [
    | err e ↦ false
    | ok job ↦ not (is_status job.status processing)
  ]

  abbrev pub crawl_world : Uuid → Db → World
  crawl_world id db = record {
    ctx_done = setting.ctx_done;
    cancel_check = some (cancel_check id db);
    rate = some setting.wait;
    scrape_page = setting.scrape_page;
    elapsed_ms = setting.elapsed_ms;
  }

  -- The `switch kind`; `none` is the early return of the rate limiter's error.
  unfoldable pub run_kind : JobPayload → Uuid → Db → Option Returned
  run_kind payload id db =
      let (opts, max_retries) = apply_job_options pool payload in
      if str_eq (kind_of payload) kind_crawl
      then some (crawl_bfs setting.net (crawl_world id db) payload.url (crawl_options payload opts))
      else if str_eq (kind_of payload) kind_map
      then some (map_bfs setting.net (crawl_world id db) payload.url (map_options payload opts))
      else elim (setting.wait 0 (extract_hostname setting.net payload.url)) [
        | some e ↦ none
        | none ↦ some (
            (execute_with_retry (crawl_world id db) payload.url payload.extract opts
              max_retries).returned)
      ]

  -- processJob, with the instants of its two updates.
  unfoldable pub process_job : JobPayload → Time → Time → Db → Metrics → Handled
  process_job payload claim_time end_time db m = elim (setting.parse_uuid payload.job_id) [
    | none ↦ handled db m
    | some id ↦
        let (answer, db') = claim_job id claim_time db in
        elim answer [
          | err e ↦ handled db' m
          | ok claimed ↦ if not claimed then handled db' m else elim (run_kind payload id db') [
            | none ↦ handled (setting.table_after db') m
            | some r ↦
                handle_job_result setting.codec setting.error_text id end_time r.result r.error
                  (calculate_retries r.result r.error) (setting.table_after db') m
          ]
        ]
  ]
