-- ===== src/Api/Limits.antt =====
-- internal/api and cmd/worker together: what the checks of a request and the defaults of
-- HandleCrawl and HandleMap leave to the loops of internal/crawl.
use mathlib.Core.Option.{some-injective}
use web_gobbler.Prelude.{
  ℕ, String, List, All, All-map, length, subst, sym, ap, ◌∙◌, inl, inr, ℤ, pos, negsuc, ◌≤◌, Option,
  none, some, ◌≡◌, arith,
}
use web_gobbler.Scraper.{Net, Url, Result, ScrapeOptions}
use web_gobbler.Crawl.Reach.{Found, start, follow}
use web_gobbler.Crawl.Pages.{crawl_bfs}
use web_gobbler.Crawl.Pages.Laws.{crawl_bfs_returns}
use web_gobbler.Crawl.Frontier.{World, or_default, depth_or_default}
use web_gobbler.Crawl.Pages.Between.{Reached, page_limit, depth_limit}
use web_gobbler.Crawl.Urls.Laws.{url_limit}
use web_gobbler.Queue.{PayloadOptions, JobPayload}
use web_gobbler.Worker.Retry.{or_else}
use web_gobbler.Worker.Process.{crawl_options, map_options}
use web_gobbler.Api.Types.{RequestOptions, CrawlRequest, MapRequest}
use web_gobbler.Api.Validator.{Strings, validate_crawl_request, validate_map_request}
use web_gobbler.Api.Convert.{
  request_to_job_options, to_payload_options, options_or_new, default_to, crawl_defaults,
  map_defaults,
}
use web_gobbler.Api.Valid.{Within, InRange, OptionsInRange, validate_crawl_iff, validate_map_iff}

-- The options of the payload that acceptJob queues for the options of a request.
abbrev pub queued_options : RequestOptions → Option PayloadOptions
queued_options o = to_payload_options (some (request_to_job_options (some o)))

-- A setting in range, or the default in its place, gives a count in range.
count_bounds :
    (o : Option ℤ) (hi d e : ℕ)
    → 1 ≤ d
    → d ≤ hi
    → Within o (pos 1) (pos hi)
    → (1 ≤ or_default (or_else (default_to o (pos d)) (pos 0)) e)
      × (or_default (or_else (default_to o (pos d)) (pos 0)) e ≤ hi)
count_bounds none hi d e low high w = ground (arith, low, high)
count_bounds (some (pos n)) hi d e low high (l, h) = ground (arith, l, h)
count_bounds (some (negsuc n)) hi d e low high (l, h) = elim l [ ]

depth_bound :
    (o : Option ℤ) (hi d e : ℕ)
    → d ≤ hi
    → Within o (pos 0) (pos hi)
    → depth_or_default (or_else (default_to o (pos d)) (pos 0)) e ≤ hi
depth_bound none hi d e high w = ground (arith, high)
depth_bound (some (pos n)) hi d e high (l, h) = ground (arith, h)
depth_bound (some (negsuc n)) hi d e high (l, h) = elim l [ ]

-- What the checks say of the options that are queued, the defaults filled in.
in_range : (o : Option RequestOptions) → OptionsInRange o → InRange (options_or_new o)
in_range none h = record { timeout = tt; retries = tt; pages = tt; depth = tt; urls = tt }
in_range (some o) h = h

-- A way of links is not longer than the limit.
Found-deep :
    {net : Net} {world : World} {seed : Url} {norm : String} {opts : ScrapeOptions}
    {extract : List String} {max_depth : ℕ} {url : String} {depth : ℕ}
    → Found net world seed norm opts extract max_depth url depth
    → depth ≤ max_depth
Found-deep start = omega arith
Found-deep (follow n page link found scraped there leads shallow) = omega (arith, shallow)

module _ (strings : Strings) (net : Net) (payload : JobPayload) (scrape : ScrapeOptions) where
  -- The limits of the loop.
  crawl_options-bounds :
      (req : CrawlRequest)
      → validate_crawl_request net strings req ≡ none
      → payload.options ≡ queued_options (crawl_defaults req.options)
      → let o = crawl_options payload scrape in
        (1 ≤ page_limit o) × (page_limit o ≤ 100) × (depth_limit o ≤ 5)
  unfolding crawl_options to_payload_options request_to_job_options crawl_defaults
  crawl_options-bounds req valid sent =
      let (web, known, options) = (validate_crawl_iff net strings req).0 valid in
      let range = in_range req.options options in
      let (low, high) =
        count_bounds (options_or_new req.options).max_pages 100 10 10 (omega arith) (omega arith)
          range.pages in
      let deep =
        depth_bound (options_or_new req.options).max_depth 5 2 2 (omega arith) range.depth in
      rw sent (low, high, deep)

  -- The result of CrawlBFS, with the options that the worker makes of the payload of a request that
  -- is let through, has at most 100 pages, each at most 5 links deep, whatever the client sets and
  -- leaves out, and whatever the site does.
  pub crawl_limits :
      (world : World) (seed : String) (req : CrawlRequest) (r : Result)
      → validate_crawl_request net strings req ≡ none
      → payload.options ≡ queued_options (crawl_defaults req.options)
      → (crawl_bfs net world seed (crawl_options payload scrape)).result ≡ some r
      → (length r.pages ≤ 100) × All (λ p. p.depth ≤ 5) r.pages
  crawl_limits world seed req r valid sent done =
      let (low, high, deep) = crawl_options-bounds req valid sent in
      elim (crawl_bfs_returns net world seed (crawl_options payload scrape)) [
        | inr (failed, none_there) ↦ cc (sym (ap (λ x. x.result) failed) ∙ done)
        | inl (r', there, norm, u, seeded, explored) ↦
            subst (λ x. (length x.pages ≤ 100) × All (λ p. p.depth ≤ 5) x.pages)
              (some-injective _ _ (sym there ∙ done))
              (
                omega (arith, explored.in_limit, high),
                All-map
                    {P = λ p. Reached net world (crawl_options payload scrape) u norm p.url p.depth}
                    (λ p found. omega (arith, deep, Found-deep found)) r'.pages explored.reached,
              )
      ]

  -- The map of a request that is let through lists at most 500 URLs, and goes at most 5 links deep.
  pub map_limits :
      (req : MapRequest)
      → validate_map_request net req ≡ none
      → payload.options ≡ queued_options (map_defaults req.options)
      → let o = map_options payload scrape in
        (1 ≤ url_limit o) × (url_limit o ≤ 500) × (depth_limit o ≤ 5)
  unfolding map_options to_payload_options request_to_job_options map_defaults
  map_limits req valid sent =
      let (web, options) = (validate_map_iff net req).0 valid in
      let range = in_range req.options options in
      let (low, high) =
        count_bounds (options_or_new req.options).max_urls 500 50 50 (omega arith) (omega arith)
          range.urls in
      let deep =
        depth_bound (options_or_new req.options).max_depth 5 2 2 (omega arith) range.depth in
      rw sent (low, high, deep)
