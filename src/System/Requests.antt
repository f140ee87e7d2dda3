-- ===== src/System/Requests.antt =====
-- The API process of cmd/api/main.go over the store and the queue of internal/store and
-- internal/queue: what a request does is what the steps of the system allow.
use web_gobbler.Prelude.{ℕ, String, some, List, [], ◌∷◌, Memᴰ, ◌≡◌, inl, inr, arith, Bool-cases}
use web_gobbler.Queue.{JobPayload, kind_scrape, kind_crawl, kind_map}
use web_gobbler.Queue.Redis.{PayloadCodec}
use web_gobbler.Store.Types.{Uuid, Codec}
use web_gobbler.Store.Table.{Row}
use web_gobbler.Api.Backend.{Serving}
use web_gobbler.Api.Types.{ScrapeRequest, CrawlRequest, MapRequest}
use web_gobbler.Api.Validator.{
  validate_scrape_request, validate_crawl_request, validate_map_request,
}
use web_gobbler.Api.Convert.{extract_or, crawl_defaults, map_defaults}
use web_gobbler.Api.Handlers.{handle_scrape, handle_crawl, handle_map}
use web_gobbler.Limits.{admit, rate_limit}
use web_gobbler.Server.{
  Endpoint, metrics, health, scrape, crawl, map_site, get_job, list_jobs, delete_job, extract,
  Routed, to, nowhere, redirected, routes, Request, Parts, Live, security_headers, logging,
  run_endpoint, run_routed, chain, chain_or_redirect, serve, text_or_empty, max_request_body_size,
}
use web_gobbler.System.{Doing, System}
use web_gobbler.System.Backend.{Site, site_backend}
use web_gobbler.System.Progress.{Later}
use web_gobbler.System.Serving.{
  Passes, rest, Passes-Later, at, message, along, accept_job-Goes, checked-Goes, list_jobs-Goes,
  get_job-Goes, delete_job-Goes, health-Goes, extract-Goes,
}

module _ (c : Codec) (q : PayloadCodec) (fresh : ℕ → Uuid) (order : List Row → List Row)
    (posting : List JobPayload) (workers : ℕ → Doing) {E L R : Type 0} (parts : Parts Site E L R)
    (back : (n : ℕ) → parts.ids.parse (parts.ids.format (fresh n)) ≡ some (fresh n)) where
  -- The process with this store and this queue.
  abbrev pub p : Parts Site E L R
  p = record parts { backend = site_backend c q fresh order }

  abbrev seen : Serving Site → System
  seen s = at c q fresh order p.ids posting workers s

  abbrev pub Steps : Serving Site → Serving Site → Type 0
  Steps s t = Later c q p.ids.parse (seen s) (seen t)

  -- The messages that requests may queue are as they should be.
  pub record Posts (Ok : JobPayload → Type 0) : Type 0 where
    pub of_scrape :
        (body : R) (r : ScrapeRequest)
        → parts.bind_scrape body ≡ some r
        → (n : ℕ)
        → Ok (
            message c q fresh order p.ids posting workers kind_scrape r.url
              (extract_or ("links" ∷ []) r.extract)
              r.options
              n)
    pub of_crawl :
        (body : R) (r : CrawlRequest)
        → parts.bind_crawl body ≡ some r
        → (n : ℕ)
        → Ok (
            message c q fresh order p.ids posting workers kind_crawl r.url
              (extract_or ("markdown" ∷ []) r.extract)
              (some (crawl_defaults r.options))
              n)
    pub of_map :
        (body : R) (r : MapRequest)
        → parts.bind_map body ≡ some r
        → (n : ℕ)
        → Ok (
            message c q fresh order p.ids posting workers kind_map r.url
              ("links" ∷ [])
              (some (map_defaults r.options))
              n)

  module _ (Ok : JobPayload → Type 0) (fine : (m : JobPayload) → Memᴰ m posting → Ok m)
      (posts : Posts Ok) where
    abbrev pub Passing : Serving Site → Serving Site → Type 0
    Passing s t = Passes c q p.ids.parse Ok (seen s) (seen t)

    run_endpoint-Passes :
        (endpoint : Endpoint) (id : String) (req : Request R) (s : Serving Site) (e : E)
        → Passing s (run_endpoint p endpoint id req (s, e)).1.0
    unfolding run_endpoint handle_scrape handle_crawl handle_map
    run_endpoint-Passes metrics id req s e = rest
    run_endpoint-Passes health id req s e =
        health-Goes c q fresh order p.ids posting workers Ok fine s
    run_endpoint-Passes scrape id req s e =
        checked-Goes c q fresh order p.ids posting workers Ok fine p.strings
          (validate_scrape_request p.net p.strings) _ (p.bind_scrape req.body)
          (λ r e.
            accept_job-Goes c q fresh order p.ids posting workers Ok fine back kind_scrape r.url
              (extract_or ("links" ∷ []) r.extract) r.options (posts.of_scrape req.body r e))
          s
    run_endpoint-Passes crawl id req s e =
        checked-Goes c q fresh order p.ids posting workers Ok fine p.strings
          (validate_crawl_request p.net p.strings) _ (p.bind_crawl req.body)
          (λ r e.
            accept_job-Goes c q fresh order p.ids posting workers Ok fine back kind_crawl r.url
              (extract_or ("markdown" ∷ []) r.extract) (some (crawl_defaults r.options))
              (posts.of_crawl req.body r e))
          s
    run_endpoint-Passes map_site id req s e =
        checked-Goes c q fresh order p.ids posting workers Ok fine p.strings
          (validate_map_request p.net) _ (p.bind_map req.body)
          (λ r e.
            accept_job-Goes c q fresh order p.ids posting workers Ok fine back kind_map r.url
              ("links" ∷ []) (some (map_defaults r.options)) (posts.of_map req.body r e))
          s
    run_endpoint-Passes get_job id req s e =
        get_job-Goes c q fresh order p.ids posting workers Ok fine id s
    run_endpoint-Passes list_jobs id req s e =
        list_jobs-Goes c q fresh order p.ids posting workers Ok fine p.atoi (req.query "page")
          (req.query "limit") (text_or_empty (req.query "status")) s
    run_endpoint-Passes delete_job id req s e =
        delete_job-Goes c q fresh order p.ids posting workers Ok fine id s
    run_endpoint-Passes extract id req s e =
        extract-Goes c q fresh order p.ids posting workers Ok fine p.trim_space p.llm_enabled
          p.extractor id (p.bind_extract req.body) s e

    run_routed-Passes :
        (found : Routed) (req : Request R) (s : Serving Site) (e : E)
        → Passing s (run_routed p found req (s, e)).1.0
    run_routed-Passes (to endpoint id) req s e = run_endpoint-Passes endpoint id req s e
    run_routed-Passes nowhere req s e = rest
    run_routed-Passes (redirected answer) req s e = rest

    chain-Passes :
        (found : Routed) (req : Request R) (x : Live Site E L)
        → Passing x.serving (chain p found [] req x).1.serving
    unfolding rate_limit security_headers logging
    chain-Passes found req x = elim (Bool-cases (admit p.rate req.now req.ip x.visitors).0) [
      | inl e ↦
          along c q fresh order p.ids posting workers Ok fine
            (run_routed-Passes found
              (record req { body = p.max_bytes max_request_body_size req.body }) x.serving x.llm)
            (ground (arith, e))
      | inr e ↦ along c q fresh order p.ids posting workers Ok fine rest (ground (arith, e))
    ]

    chain_or_redirect-Passes :
        (found : Routed) (req : Request R) (x : Live Site E L)
        → Passing x.serving (chain_or_redirect p found req x).1.serving
    chain_or_redirect-Passes (to endpoint id) req x = chain-Passes (to endpoint id) req x
    chain_or_redirect-Passes nowhere req x = chain-Passes nowhere req x
    chain_or_redirect-Passes (redirected answer) req x = rest

    pub serve-Passes :
        (req : Request R) (x : Live Site E L) → Passing x.serving (serve p req x).1.serving
    unfolding serve
    serve-Passes req x = chain_or_redirect-Passes (p.find routes req.method req.path) req x

  -- Where the identifiers of the database are read back as they are written: every request, through
  -- the limiter and whichever handler, takes the table and the queue through steps of the system
  -- and no other change, whatever fails on the way, whatever messages wait and whatever the workers
  -- are doing.
  pub serve-Steps :
      (req : Request R) (x : Live Site E L) → Steps x.serving (serve p req x).1.serving
  serve-Steps req x =
      Passes-Later c q p.ids.parse (λ m. Unit)
        (serve-Passes (λ m. Unit) (λ m there. tt)
          (record {
            of_scrape = λ body r e n. tt;
            of_crawl = λ body r e n. tt;
            of_map = λ body r e n. tt;
          })
          req x)
