-- ===== src/Crawl/Pages.antt =====
-- internal/crawl/crawl.go, CrawlBFS: the breadth-first crawl of one host.
pub mod Invariant
pub mod Rounds
pub mod Offers
pub mod Layers
pub mod Between
pub mod Laws
pub mod Complete
use web_gobbler.Prelude.{
  ℕ, suc, String, Bool, false, not, ◌||◌, Option, none, some, List, [], ◌∷◌, ◌++◌, ltb, leb, length,
  contains, if◌then◌else◌,
}
use web_gobbler.Scraper.{
  Url, Net, url_parse, ScrapeOptions, PageResult, Result, blank_page, blank_result, Scraped,
  scraped, refused,
}
use web_gobbler.Crawl.Frontier.{
  Options, Item, World, Returned, LoopEnd, stopped, wait_failed, out_of_fuel, Round, go_on, halt,
  wait_error, run_loop, or_default, depth_or_default, is_cancelled, wait_on, normalize_url,
  admissible,
}

pub record CrawlState : Type 0 where
  pub seen : List String
  pub queue : List Item
  pub pages : List PageResult
  pub truncated : Bool
  pub skipped : ℕ

-- The page of a successful scrape.
abbrev pub page_of : Item → Result → PageResult
page_of item r = record {
  url = item.url;
  depth = item.depth;
  links = r.links;
  headers = r.headers;
  paragraphs = r.paragraphs;
  markdown = r.markdown;
  html = r.html;
  raw_html = r.raw_html;
  http_status = r.http_status;
  truncated = r.truncated;
}

-- The page of a failed one: the status alone, where there is one.
abbrev pub failed_page : Item → Option Result → PageResult
failed_page item none = blank_page item.url item.depth
failed_page item (some r) = record (blank_page item.url item.depth) { http_status = r.http_status }

module _ (net : Net) (seed : Url) where
  -- The body of `for _, link := range page.Links`.
  unfoldable pub offer : ℕ → String → CrawlState → CrawlState
  offer depth link s = elim (admissible net seed link) [
    | none ↦ s
    | some norm ↦ if contains s.seen norm then s else record s {
      seen = s.seen ++ norm ∷ [];
      queue = s.queue ++ record { url = norm; depth = depth } ∷ [];
    }
  ]

  unfoldable pub offer_all : ℕ → List String → CrawlState → CrawlState
  offer_all depth [] s = s
  offer_all depth (link ∷ links) s = offer_all depth links (offer depth link s)

module _ (net : Net) (world : World) (seed : Url) (opts : ScrapeOptions) (extract : List String)
    (max_pages max_depth : ℕ) where
  -- What follows the call of ScrapePage in a round.
  unfoldable pub take_page : Item → Scraped → CrawlState → CrawlState
  unfolding offer_all
  take_page item (refused page e) s = record s {
    skipped = suc s.skipped;
    pages = s.pages ++ failed_page item page ∷ [];
  }
  take_page item (scraped page) s =
      let s' : CrawlState = record s {
        pages = s.pages ++ page_of item page ∷ [];
        truncated = s.truncated || page.truncated;
      } in
      if leb max_depth item.depth then s' else offer_all net seed (suc item.depth) page.links s'

  -- A round of the loop of CrawlBFS.
  unfoldable pub crawl_round : ℕ → CrawlState → Round CrawlState
  crawl_round n s = elim s.queue [
    | [] ↦ halt
    | item ∷ rest ↦
        if not (ltb (length s.pages) max_pages)
          || world.ctx_done n
          || is_cancelled world.cancel_check n
        then halt
        else elim (wait_on world.rate n (net.hostname seed)) [
          | some e ↦ wait_error (record s { queue = rest }) e
          | none ↦ go_on (
              take_page item (world.scrape_page n item.url extract opts)
                (record s { queue = rest }))
        ]
  ]

abbrev pub first_status : List PageResult → ℕ
first_status [] = 0
first_status (p ∷ ps) = p.http_status

abbrev pub default_extract : List String → List String → List String
default_extract dflt [] = dflt
default_extract dflt (t ∷ ts) = t ∷ ts

-- The end of CrawlBFS.
unfoldable pub finish_crawl : World → LoopEnd CrawlState → Returned
finish_crawl world (stopped n s) = record {
  result = some (record blank_result {
    pages = s.pages;
    truncated = s.truncated;
    pages_crawled = length s.pages;
    pages_skipped = s.skipped;
    http_status = first_status s.pages;
    duration_ms = world.elapsed_ms n;
  });
  error = none;
}
finish_crawl world (wait_failed n s e) = record {
  result = some (record blank_result { pages = s.pages; truncated = s.truncated });
  error = some e;
}
finish_crawl world out_of_fuel = record { result = none; error = none }

abbrev pub start_crawl : String → CrawlState
start_crawl seed = record {
  seen = seed ∷ [];
  queue = record { url = seed; depth = 0 } ∷ [];
  pages = [];
  truncated = false;
  skipped = 0;
}

-- The loop of CrawlBFS with as much fuel as it may need: every round but the last adds a page.
unfoldable pub crawl_loop : Net → World → Url → String → Options → LoopEnd CrawlState
crawl_loop net world seed_url seed opts =
    let max_pages = or_default opts.max_pages 10 in
    run_loop
      (crawl_round net world seed_url opts.scrape (default_extract ("markdown" ∷ []) opts.extract)
        max_pages (depth_or_default opts.max_depth 2))
      (suc max_pages) 0 (start_crawl seed)

-- CrawlBFS
unfoldable pub crawl_bfs : Net → World → String → Options → Returned
unfolding crawl_loop finish_crawl
crawl_bfs net world seed opts = elim (normalize_url net seed) [
  | none ↦ record { result = none; error = some url_parse }
  | some norm ↦ elim (net.parse norm) [
    | none ↦ record { result = none; error = some url_parse }
    | some u ↦ finish_crawl world (crawl_loop net world u norm opts)
  ]
]
