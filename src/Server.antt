-- ===== src/Server.antt =====
-- cmd/api/main.go, RegisterRoutes of internal/api/handlers.go, and the middlewares of
-- internal/api/middleware.go: the routes of the API process, and the chain that a request passes.
pub mod Answers
pub mod Examples
use web_gobbler.Prelude.{
  ℕ, ℤ, String, str_eq, str_append, Bool, Option, none, some, List, [], ◌∷◌, ◌++◌, if◌then◌else◌,
}
use web_gobbler.Scraper.{Net}
use web_gobbler.Extract.{Extractor}
use web_gobbler.Api.Types.{ScrapeRequest, CrawlRequest, MapRequest, ExtractRequest, Response}
use web_gobbler.Api.Validator.{Strings}
use web_gobbler.Api.Backend.{Backend, Serving, Uuids}
use web_gobbler.Api.Handlers.{
  handle_scrape, handle_crawl, handle_map, handle_get_job, handle_delete_job, handle_health,
}
use web_gobbler.Api.Listing.{handle_list_jobs}
use web_gobbler.Api.Extraction.{handle_extract}
use web_gobbler.Limits.{Rate, Limiters, rate_limit}

-- The handlers that a route may lead to.
pub data Endpoint : Type 0 where
  metrics health scrape crawl map_site get_job list_jobs delete_job extract : Endpoint

pub record Route : Type 0 where
  pub method : String
  pub path : String
  pub endpoint : Endpoint

abbrev pub route : String → String → Endpoint → Route
route method path endpoint = record { method = method; path = path; endpoint = endpoint }

-- RegisterRoutes, on a group with a prefix.
abbrev pub register_routes : String → List Route
register_routes prefix =
    route "POST" (str_append prefix "/scrape") scrape
    ∷ route "POST" (str_append prefix "/crawl") crawl
    ∷ route "POST" (str_append prefix "/map") map_site
    ∷ route "GET" (str_append prefix "/jobs/:id") get_job
    ∷ route "GET" (str_append prefix "/jobs") list_jobs
    ∷ route "DELETE" (str_append prefix "/jobs/:id") delete_job
    ∷ route "POST" (str_append prefix "/jobs/:id/extract") extract
    ∷ route "GET" (str_append prefix "/health") health
    ∷ []

-- The routes of main.
abbrev pub routes : List Route
routes = route "GET" "/metrics" metrics ∷ route "GET" "/health" health ∷ register_routes "/api/v1"

-- What gin makes of a method and a path: a route with c.Param("id"), none, or an answer of its own
-- before any middleware (the redirect of a trailing slash).
pub data Routed : Type 0 where
  to : Endpoint → String → Routed
  nowhere : Routed
  redirected : Response → Routed

-- A request, its body in net/http's form: `ip` is c.ClientIP(), and the log reads `took`, the
-- milliseconds that it took.
pub record Request (R : Type 0) : Type 0 where
  pub method : String
  pub path : String
  pub ip : String
  pub now : ℕ
  pub took : ℕ
  pub query : String → Option String
  pub body : R

pub record LogLine : Type 0 where
  pub method : String
  pub path : String
  pub status : ℕ
  pub duration_ms : ℕ

-- What the process is made of: the handler's fields, gin's router and its page for no route,
-- promhttp's page, http.MaxBytesReader, and ShouldBindJSON for each kind of request.
pub record Parts (S E L R : Type 0) : Type 0 where
  pub backend : Backend S
  pub extractor : Option (Extractor E)
  pub llm_enabled : Bool
  pub ids : Uuids
  pub net : Net
  pub strings : Strings
  pub atoi : String → ℤ
  pub trim_space : String → String
  pub rate : Rate L
  pub find : List Route → String → String → Routed
  pub no_route : Response
  pub expose : Serving S → Response
  pub max_bytes : ℕ → R → R
  pub bind_scrape : R → Option ScrapeRequest
  pub bind_crawl : R → Option CrawlRequest
  pub bind_map : R → Option MapRequest
  pub bind_extract : R → Option ExtractRequest

-- What the requests share: the handler's state, the extractor's, the limiters, and the log.
pub record Live (S E L : Type 0) : Type 0 where
  pub serving : Serving S
  pub llm : E
  pub visitors : Limiters L
  pub log : List LogLine

abbrev pub Headers : Type 0
Headers = List (String × String)

-- c.Header
unfoldable pub set_header : String → String → Headers → Headers
set_header key value [] = (key, value) ∷ []
set_header key value (h ∷ hs) =
    let rest = set_header key value hs in if str_eq h.0 key then (key, value) ∷ hs else h ∷ rest

unfoldable pub get_header : String → Headers → Option String
get_header key [] = none
get_header key (h ∷ hs) = if str_eq h.0 key then some h.1 else get_header key hs

pub record Sent : Type 0 where
  pub headers : Headers
  pub response : Response

-- c.Query
abbrev pub text_or_empty : Option String → String
text_or_empty none = ""
text_or_empty (some text) = text

abbrev pub max_request_body_size : ℕ
max_request_body_size = 1_048_576

-- The rest of the chain, with the headers set so far.
abbrev pub Chain : Type 0 → Type 0 → Type 0
Chain X R = Headers → Request R → X → Sent × X

module _ {X R : Type 0} where
  -- SecurityHeadersMiddleware
  unfoldable pub security_headers : Chain X R → Chain X R
  unfolding set_header
  security_headers next hs = next (
      set_header "Referrer-Policy" "strict-origin-when-cross-origin" (
        set_header "Strict-Transport-Security" "max-age=31536000; includeSubDomains" (
          set_header "Content-Security-Policy" "default-src 'self'" (
            set_header "X-Frame-Options" "DENY"
              (set_header "X-Content-Type-Options" "nosniff" hs)))))

  -- BodySizeLimitMiddleware
  abbrev pub body_size_limit : (ℕ → R → R) → Chain X R → Chain X R
  body_size_limit max_bytes next hs req =
      next hs (record req { body = max_bytes max_request_body_size req.body })

module _ {S E L R : Type 0} where
  -- loggingMiddleware
  unfoldable pub logging : Chain (Live S E L) R → Chain (Live S E L) R
  logging next hs req x =
      let (sent, x') = next hs req x in
      (
        sent,
        record x' {
          log =
              record {
                method = req.method;
                path = req.path;
                status = sent.response.code;
                duration_ms = req.took;
              }
              ∷ x'.log;
        },
      )

  module _ (p : Parts S E L R) where
    abbrev with_llm : E → Response × Serving S → Response × (Serving S × E)
    with_llm e (answer, s) = (answer, (s, e))

    -- The handler of a route.
    unfoldable pub run_endpoint :
        Endpoint → String → Request R → Serving S × E → Response × (Serving S × E)
    run_endpoint metrics id req (s, e) = (p.expose s, (s, e))
    run_endpoint health id req (s, e) = with_llm e (handle_health p.backend p.ids s)
    run_endpoint scrape id req (s, e) =
        with_llm e (handle_scrape p.backend p.ids p.net p.strings (p.bind_scrape req.body) s)
    run_endpoint crawl id req (s, e) =
        with_llm e (handle_crawl p.backend p.ids p.net p.strings (p.bind_crawl req.body) s)
    run_endpoint map_site id req (s, e) =
        with_llm e (handle_map p.backend p.ids p.net p.strings (p.bind_map req.body) s)
    run_endpoint get_job id req (s, e) = with_llm e (handle_get_job p.backend p.ids id s)
    run_endpoint list_jobs id req (s, e) = with_llm e (
        handle_list_jobs p.backend p.atoi (req.query "page") (req.query "limit")
          (text_or_empty (req.query "status")) s)
    run_endpoint delete_job id req (s, e) = with_llm e (handle_delete_job p.backend p.ids id s)
    run_endpoint extract id req (s, e) =
        handle_extract p.backend p.ids p.trim_space p.llm_enabled p.extractor id
          (p.bind_extract req.body) s e

    -- The end of the chain: a handler, or gin's page.
    abbrev pub run_routed : Routed → Request R → Serving S × E → Response × (Serving S × E)
    run_routed (to endpoint id) req x = run_endpoint endpoint id req x
    run_routed nowhere req x = (p.no_route, x)
    run_routed (redirected answer) req x = (answer, x)

    -- RateLimitMiddleware, before the end of the chain.
    abbrev pub limited_by_ip : Routed → Chain (Live S E L) R
    limited_by_ip found hs req x =
        let (answer, (visitors, (serving, llm))) =
          rate_limit p.rate req.now req.ip (run_routed found req)
            (x.visitors, (x.serving, x.llm)) in
        (
          record { headers = hs; response = answer },
          record { serving = serving; llm = llm; visitors = visitors; log = x.log },
        )

    -- The middlewares in the order of main's calls of Use, within gin.Recovery, which answers a
    -- panic alone: no handler of the model panics.
    abbrev pub chain : Routed → Chain (Live S E L) R
    chain found = security_headers (body_size_limit p.max_bytes (logging (limited_by_ip found)))

    abbrev pub chain_or_redirect : Routed → Request R → Live S E L → Sent × Live S E L
    chain_or_redirect (to endpoint id) req x = chain (to endpoint id) [] req x
    chain_or_redirect nowhere req x = chain nowhere [] req x
    chain_or_redirect (redirected answer) req x = (record { headers = []; response = answer }, x)

    -- A request from its first byte to its answer.
    unfoldable pub serve : Request R → Live S E L → Sent × Live S E L
    unfolding security_headers logging run_endpoint
    serve req x = chain_or_redirect (p.find routes req.method req.path) req x
