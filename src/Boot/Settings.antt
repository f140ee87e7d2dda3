-- ===== src/Boot/Settings.antt =====
-- What the two mains read of the environment (cmd/api/main.go, cmd/worker/main.go).
use web_gobbler.Prelude.{ℤ, pos, String, str_append, Option}
use web_gobbler.Scraper.{default_options}
use web_gobbler.Extract.{Config, from_env}
use web_gobbler.Boot.{get_env, get_env_read, Level, level_of}
use web_gobbler.Worker.Retry.{Pool, seconds}

-- The API's settings; the rate is a float64, of the type F.
pub record ApiSettings (F : Type 0) : Type 0 where
  pub addr : String
  pub default_timeout : ℤ
  pub default_retries : ℤ
  pub level : Level
  pub rate_per_sec : F
  pub rate_burst : ℤ
  pub llm : Config

-- fmt.Sscanf with "%d" and "%f", the float64 1, and strings.TrimRight(_, "/").
pub record Scan (F : Type 0) : Type 0 where
  pub scan_int : String → Option ℤ
  pub scan_float : String → Option F
  pub one : F
  pub trim_slashes : String → String

-- main of cmd/api
unfoldable pub api_settings : {F : Type 0} → Scan F → (String → String) → ApiSettings F
unfolding get_env get_env_read level_of
api_settings scan getenv = record {
  addr = str_append ":" (get_env getenv "PORT" "8080");
  default_timeout = get_env_read scan.scan_int getenv "DEFAULT_TIMEOUT_SEC" (pos 10);
  default_retries = get_env_read scan.scan_int getenv "DEFAULT_MAX_RETRIES" (pos 3);
  level = level_of (get_env getenv "LOG_LEVEL" "INFO");
  rate_per_sec = get_env_read scan.scan_float getenv "API_RATE_LIMIT" scan.one;
  rate_burst = get_env_read scan.scan_int getenv "API_RATE_BURST" (pos 10);
  llm = from_env getenv scan.trim_slashes;
}

-- The worker's settings: the number of workers, the pool's defaults, and the rate and burst by
-- domain.
pub record WorkerSettings : Type 0 where
  pub concurrency : ℤ
  pub pool : Pool
  pub rate_limit : ℤ
  pub level : Level

-- The fields of main's workerPool that a job's settings come from.
abbrev worker_pool : ℤ → ℤ → Pool
worker_pool timeout retries = record {
  default_opts = record default_options { timeout = seconds timeout };
  max_retries = retries;
}

-- main of cmd/worker, with strconv.Atoi.
unfoldable pub worker_settings : (String → Option ℤ) → (String → String) → WorkerSettings
unfolding get_env get_env_read level_of
worker_settings atoi getenv = record {
  concurrency = get_env_read atoi getenv "WORKER_CONCURRENCY" (pos 5);
  pool =
      worker_pool (get_env_read atoi getenv "DEFAULT_TIMEOUT_SEC" (pos 10))
        (get_env_read atoi getenv "DEFAULT_MAX_RETRIES" (pos 3));
  rate_limit = get_env_read atoi getenv "SCRAPER_RATE_LIMIT" (pos 2);
  level = level_of (get_env getenv "LOG_LEVEL" "INFO");
}
