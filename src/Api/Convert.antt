-- ===== src/Api/Convert.antt =====
-- internal/api/handlers.go: what the handlers make of requests, options and jobs.
use Prim.Native.String.{len}
use web_gobbler.Prelude.{
  ℕ, ℤ, pos, String, not, Option, none, some, List, [], ◌∷◌, length, ◌==◌, if◌then◌else◌,
}
use web_gobbler.Scraper.{Result}
use web_gobbler.Queue.{PayloadOptions}
use web_gobbler.Store.Types.{
  JobStatus, queued, processing, completed, failed, status_text, JobOptions, Job,
}
use web_gobbler.Api.Types.{RequestOptions, JobMeta, JobResponse, error_body, Response}

abbrev pub error_response : ℕ → String → Response
error_response code text = record { code = code; body = error_body text }

-- requestToJobOptions
unfoldable pub request_to_job_options : Option RequestOptions → JobOptions
request_to_job_options none = record {
  timeout_seconds = none;
  max_retries = none;
  follow_redirects = none;
  max_pages = none;
  max_depth = none;
  max_urls = none;
  render_js = none;
}
request_to_job_options (some o) = record {
  timeout_seconds = o.timeout_seconds;
  max_retries = o.max_retries;
  follow_redirects = o.follow_redirects;
  max_pages = o.max_pages;
  max_depth = o.max_depth;
  max_urls = o.max_urls;
  render_js = o.render_js;
}

-- toPayloadOptions
unfoldable pub to_payload_options : Option JobOptions → Option PayloadOptions
to_payload_options none = none
to_payload_options (some o) = some (record {
  timeout_seconds = o.timeout_seconds;
  max_retries = o.max_retries;
  follow_redirects = o.follow_redirects;
  max_pages = o.max_pages;
  max_depth = o.max_depth;
  max_urls = o.max_urls;
  render_js = o.render_js;
})

-- `&RequestOptions{}`
abbrev pub no_options : RequestOptions
no_options = record {
  timeout_seconds = none;
  max_retries = none;
  follow_redirects = none;
  max_pages = none;
  max_depth = none;
  max_urls = none;
  render_js = none;
}

abbrev pub options_or_new : Option RequestOptions → RequestOptions
options_or_new none = no_options
options_or_new (some o) = o

-- `if p == nil { v := d; p = &v }`
abbrev pub default_to : Option ℤ → ℤ → Option ℤ
default_to none d = some d
default_to (some n) d = some n

abbrev pub extract_or : List String → List String → List String
extract_or dflt [] = dflt
extract_or dflt (t ∷ ts) = t ∷ ts

-- The options of HandleCrawl and HandleMap.
unfoldable pub crawl_defaults : Option RequestOptions → RequestOptions
crawl_defaults o =
    let opts = options_or_new o in
    record opts {
      max_pages = default_to opts.max_pages (pos 10);
      max_depth = default_to opts.max_depth (pos 2);
    }

unfoldable pub map_defaults : Option RequestOptions → RequestOptions
map_defaults o =
    let opts = options_or_new o in
    record opts {
      max_urls = default_to opts.max_urls (pos 50);
      max_depth = default_to opts.max_depth (pos 2);
    }

-- jobToResponse: its test on the time of the last update compares it with itself.
abbrev pub meta_of : Job → Option Result → Option JobMeta
meta_of job none = none
meta_of job (some r) = some (record {
  links_count = length r.links;
  headers_count = length r.headers;
  paragraphs_count = length r.paragraphs;
  markdown_length = len r.markdown;
  pages_crawled = r.pages_crawled;
  url_count = length r.urls;
  http_status = r.http_status;
  retries_used = job.retries_used;
  truncated = r.truncated;
})

abbrev by_status : JobStatus → Job → JobResponse → JobResponse
by_status completed job resp = record resp { results = job.result; meta = meta_of job job.result }
by_status failed job resp = record resp { error = job.error_msg }
by_status queued job resp = resp
by_status processing job resp = resp

unfoldable pub job_to_response : Job → JobResponse
job_to_response job = by_status job.status job (record {
  job_id = job.id;
  status = status_text job.status;
  url = job.url;
  created_at = job.created_at;
  updated_at = if not (job.updated_at == job.updated_at) then some job.updated_at else none;
  completed = job.completed_at;
  duration_ms = job.duration_ms;
  results = none;
  meta = none;
  error = none;
  poll_url = none;
})
