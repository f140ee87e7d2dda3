-- ===== src/Api/Handlers.antt =====
-- internal/api/handlers.go. A request is what ShouldBindJSON made of the body, `none` for its
-- error.
use web_gobbler.Prelude.{
  ℕ, suc, String, str_append, Bool, true, false, not, Option, none, some, List, [], ◌∷◌,
  if◌then◌else◌,
}
use web_gobbler.Scraper.{Net}
use web_gobbler.Queue.{kind_scrape, kind_crawl, kind_map}
use web_gobbler.Store.Types.{
  JobStatus, queued, status_text, not_found, cannot_cancel, db_failed, ok, err,
}
use web_gobbler.Api.Types.{
  RequestOptions, ScrapeRequest, CrawlRequest, MapRequest, job_body, status_body, health_body,
  Response,
}
use web_gobbler.Api.Validator.{
  Invalid, Strings, message, validate_scrape_request, validate_crawl_request, validate_map_request,
}
use web_gobbler.Api.Backend.{Backend, Serving, Uuids}
use web_gobbler.Api.Convert.{
  error_response, request_to_job_options, to_payload_options, extract_or, crawl_defaults,
  map_defaults, job_to_response,
}

-- The text of ErrCannotCancel with the status.
abbrev pub cannot_cancel_text : JobStatus → String
cannot_cancel_text status = str_append "cannot cancel job with status: " (status_text status)

module _ {S : Type 0} (b : Backend S) (ids : Uuids) where
  -- `if d, err := h.queue.QueueDepth(…); err == nil { metrics.QueueDepth.Set(…) }`
  abbrev set_gauge : Option ℕ → ℕ → ℕ
  set_gauge none old = old
  set_gauge (some d) old = d

  -- acceptJob
  unfoldable pub accept_job :
      String → String → List String → Option RequestOptions → Serving S → Response × Serving S
  unfolding request_to_job_options to_payload_options
  accept_job kind url extract opts s =
      let options = some (request_to_job_options opts) in
      let (created, s₁) =
        b.create_job (record { url = url; extract = extract; options = options }) s.backend in
      elim created [
        | err e ↦ (error_response 500 "failed to create job", record s { backend = s₁ })
        | ok (id, created_at) ↦
            let (sent, s₂) =
              b.enqueue
                (record {
                  job_id = ids.format id;
                  kind = kind;
                  url = url;
                  extract = extract;
                  options = to_payload_options options;
                })
                s₁ in
            let (depth, s₃) = b.queue_depth s₂ in
            if not sent
            then (error_response 500 "failed to queue job", record s { backend = s₂ })
            else (
              record {
                code = 202;
                body = job_body (record {
                  job_id = id;
                  status = status_text queued;
                  url = "";
                  created_at = created_at;
                  updated_at = none;
                  completed = none;
                  duration_ms = none;
                  results = none;
                  meta = none;
                  error = none;
                  poll_url = some (str_append "/api/v1/jobs/" (ids.format id));
                });
              },
              record {
                backend = s₃;
                depth_gauge = set_gauge depth s.depth_gauge;
                queued_jobs = suc s.queued_jobs;
              },
            )
      ]

  -- The checks before acceptJob: a body that cannot be read, and one that is not valid.
  abbrev pub checked :
      {R : Type 0}
      → Strings
      → (R → Option Invalid)
      → (R → Serving S → Response × Serving S)
      → Option R
      → Serving S
      → Response × Serving S
  checked strings validate run none s = (error_response 400 "invalid request body", s)
  checked strings validate run (some req) s = elim (validate req) [
    | some e ↦ (error_response 400 (message strings e), s)
    | none ↦ run req s
  ]

  -- HandleScrape
  unfoldable pub handle_scrape :
      Net → Strings → Option ScrapeRequest → Serving S → Response × Serving S
  unfolding accept_job
  handle_scrape net strings =
      checked strings (validate_scrape_request net strings)
        λ req. accept_job kind_scrape req.url (extract_or ("links" ∷ []) req.extract) req.options

  -- HandleCrawl
  unfoldable pub handle_crawl :
      Net → Strings → Option CrawlRequest → Serving S → Response × Serving S
  unfolding accept_job crawl_defaults
  handle_crawl net strings = checked strings (validate_crawl_request net strings) λ req.
      accept_job kind_crawl req.url (extract_or ("markdown" ∷ []) req.extract)
        (some (crawl_defaults req.options))

  -- HandleMap
  unfoldable pub handle_map : Net → Strings → Option MapRequest → Serving S → Response × Serving S
  unfolding accept_job map_defaults
  handle_map net strings =
      checked strings (validate_map_request net)
        λ req. accept_job kind_map req.url ("links" ∷ []) (some (map_defaults req.options))

  -- HandleGetJob
  unfoldable pub handle_get_job : String → Serving S → Response × Serving S
  unfolding job_to_response
  handle_get_job text s = elim (ids.parse text) [
    | none ↦ (error_response 400 "invalid job id", s)
    | some id ↦
        let (answer, s') = b.get_job id s.backend in
        let response : Response = elim answer [
          | ok job ↦ record { code = 200; body = job_body (job_to_response job) }
          | err (not_found j) ↦ error_response 404 "job not found"
          | err e ↦ error_response 500 "failed to get job"
        ] in
        (response, record s { backend = s' })
  ]

  -- HandleDeleteJob
  unfoldable pub handle_delete_job : String → Serving S → Response × Serving S
  handle_delete_job text s = elim (ids.parse text) [
    | none ↦ (error_response 400 "invalid job id", s)
    | some id ↦
        let (answer, s') = b.cancel_job id s.backend in
        let response : Response = elim answer [
          | ok done ↦ record { code = 200; body = status_body "cancelled" }
          | err (not_found j) ↦ error_response 404 "job not found"
          | err (cannot_cancel status) ↦ error_response 409 (cannot_cancel_text status)
          | err db_failed ↦ error_response 500 "failed to cancel job"
        ] in
        (response, record s { backend = s' })
  ]

  abbrev pub health_text : Bool → String
  health_text true = "ok"
  health_text false = "degraded"

  -- HandleHealth
  unfoldable pub handle_health : Serving S → Response × Serving S
  handle_health s =
      let (db, s₁) = b.ping_store s.backend in
      let (redis, s₂) = b.ping_queue s₁ in
      (
        record {
          code = if db then (if redis then 200 else 503) else 503;
          body = health_body (record {
            status = health_text (if db then redis else false);
            db = health_text db;
            redis = health_text redis;
            version = "1.0.0";
          });
        },
        record s { backend = s₂ },
      )
