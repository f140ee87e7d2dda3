-- ===== src/Worker/Retry.antt =====
-- cmd/worker/main.go: the options of a job, the retry loop, and what is made of its result.
use web_gobbler.Prelude.{
  ℕ, zero, suc, ◌-◌, ◌*◌, ◌^◌, ℤ, to_ℕ, wrap64, int_scale, String, ◌&&◌, Option, none, some, List,
  [], ◌∷◌, ltb, if◌then◌else◌,
}
use web_gobbler.Scraper.{Error, context_done, ScrapeOptions, Result, scraped, refused}
use web_gobbler.Crawl.Frontier.{World, Returned}
use web_gobbler.Queue.{JobPayload}

-- The fields of workerPool that a job's settings come from.
pub record Pool : Type 0 where
  pub default_opts : ScrapeOptions
  pub max_retries : ℤ

abbrev pub or_else {ℓ} : {A : Type ℓ} → Option A → A → A
or_else none d = d
or_else (some a) d = a

-- time.Duration(n) * time.Second
abbrev pub seconds : ℤ → ℤ
seconds n = wrap64 (int_scale 1_000_000_000 n)

abbrev apply_timeout : Option ℤ → ℤ → ℤ
apply_timeout none d = d
apply_timeout (some n) d = seconds n

-- applyJobOptions
unfoldable pub apply_job_options : Pool → JobPayload → ScrapeOptions × ℤ
apply_job_options pool payload = elim payload.options [
  | none ↦ (pool.default_opts, pool.max_retries)
  | some o ↦ (
    record pool.default_opts {
      timeout = apply_timeout o.timeout_seconds pool.default_opts.timeout;
      follow_redirects = or_else o.follow_redirects pool.default_opts.follow_redirects;
      render_js = or_else o.render_js pool.default_opts.render_js;
    },
    or_else o.max_retries pool.max_retries,
  )
]

-- What a run of the retry loop returns, the attempts that it made and the waits between them, in
-- milliseconds.
pub record Attempts : Type 0 where
  pub returned : Returned
  pub tries : ℕ
  pub waits : List ℕ

-- 100 * (1 << (attempt - 1)) milliseconds
abbrev pub backoff_ms : ℕ → ℕ
backoff_ms attempt = 100 * 2 ^ (attempt - 1)

abbrev pub waits_before : ℕ → List ℕ → List ℕ
waits_before zero waits = waits
waits_before (suc k) waits = backoff_ms (suc k) ∷ waits

abbrev pub delayed : ℕ → Attempts → Attempts
delayed attempt a = record a { tries = suc a.tries; waits = waits_before attempt a.waits }

module _ (world : World) (url : String) (extract : List String) (opts : ScrapeOptions) where
  -- The loop of executeWithRetry with the rounds that are left, the number of the attempt, and the
  -- last result and error. The context is looked at where the loop waits.
  unfoldable pub execute_from : ℕ → ℕ → Returned → Attempts
  execute_from zero attempt last = record { returned = last; tries = 0; waits = [] }
  execute_from (suc left) attempt last =
      if ltb 0 attempt && world.ctx_done attempt
      then record {
        returned = record { result = none; error = some context_done };
        tries = 0;
        waits = waits_before attempt [];
      }
      else elim (world.scrape_page attempt url extract opts) [
        | scraped r ↦
            delayed attempt (record {
              returned = record { result = some r; error = none };
              tries = 0;
              waits = [];
            })
        | refused p e ↦
            delayed attempt
              (execute_from left (suc attempt) (record { result = p; error = some e }))
      ]

  -- executeWithRetry
  unfoldable pub execute_with_retry : ℤ → Attempts
  unfolding execute_from
  execute_with_retry max_retries =
      execute_from (to_ℕ max_retries) 0 (record { result = none; error = none })

-- calculateRetries
unfoldable pub calculate_retries : Option Result → Option Error → ℕ
calculate_retries (some r) none = 0
calculate_retries _ _ = 1
