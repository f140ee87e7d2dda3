-- ===== src/Crawl/Pages/Between.antt =====
-- The loop of CrawlBFS (internal/crawl/crawl.go): its invariant holds wherever it is left.
use web_gobbler.Prelude.{
  ℕ, suc, ◌-◌, ◌≤◌, ◌<◌, String, List, [], ◌∷◌, Memᴰ, ◌≡◌, refl, ap, arith, length,
}
use web_gobbler.Scraper.{Url, Net, Error}
use web_gobbler.Crawl.Frontier.{
  Options, World, Round, go_on, wait_error, or_default, depth_or_default,
}
use web_gobbler.Crawl.Loop.{Ends, run_loop_rule}
use web_gobbler.Crawl.Reach.{Found, start}
use web_gobbler.Crawl.Pages.{CrawlState, crawl_round, crawl_loop, start_crawl, default_extract}
use web_gobbler.Crawl.Pages.Invariant.{Inv, take_page-Inv}
use web_gobbler.Crawl.Pages.Rounds.{take_page-counts, round-go_on, round-wait_error}
use web_gobbler.Crawl.Pages.Layers.{Layers, IsSteady, take_page-Layers}

-- The bounds of a crawl after its defaults.
abbrev pub page_limit : Options → ℕ
page_limit opts = or_default opts.max_pages 10

abbrev pub depth_limit : Options → ℕ
depth_limit opts = depth_or_default opts.max_depth 2

abbrev pub extract_types : Options → List String
extract_types opts = default_extract ("markdown" ∷ []) opts.extract

-- The state between two rounds.
module _ (net : Net) (world : World) (opts : Options) (seed : Url) (seed_norm : String) where
  abbrev pub round : ℕ → CrawlState → Round CrawlState
  round =
      crawl_round net world seed opts.scrape (extract_types opts) (page_limit opts)
        (depth_limit opts)

  -- The URLs in reach of the seed under these options.
  abbrev pub Reached : String → ℕ → Type 0
  Reached = Found net world seed seed_norm opts.scrape (extract_types opts) (depth_limit opts)

  abbrev pub IsStable : Type 0
  IsStable =
      IsSteady net world seed seed_norm opts.scrape (extract_types opts) (page_limit opts)
        (depth_limit opts)

  pub record Between (s : CrawlState) : Type 0 where
    pub valid :
        Inv net world seed seed_norm opts.scrape
          (extract_types opts)
          (page_limit opts)
          (depth_limit opts)
          s
    pub layered :
        Layers net world seed seed_norm opts.scrape
          (extract_types opts)
          (page_limit opts)
          (depth_limit opts)
          s
    pub in_limit : length s.pages ≤ page_limit opts
    pub skips : s.skipped ≤ length s.pages

  -- The rate limiter stopped the crawl: a URL was taken and not visited.
  pub record Cut (s : CrawlState) (e : Error) : Type 0 where
    pub before : CrawlState
    pub between : Between before
    pub same_pages : s.pages ≡ before.pages

  Between-start : Between (start_crawl seed_norm)
  Between-start = record {
    valid = record {
      accounted = refl;
      distinct = (tt, tt);
      pages_found = tt;
      queue_found = (start, tt);
    };
    layered = record {
      rooted = Memᴰ.head refl;
      ordered = (tt, tt);
      narrow = ((omega arith, tt), tt);
      closed = λ steady. tt;
    };
    in_limit = omega arith;
    skips = omega arith;
  }

  keep :
      (n : ℕ) (s t : CrawlState)
      → Between s
      → round n s ≡ go_on t
      → Between t × (page_limit opts - length t.pages < page_limit opts - length s.pages)
  keep n s t b h =
      let (item, rest, q, room, e) =
        round-go_on net world seed opts.scrape (extract_types opts) (page_limit opts)
          (depth_limit opts) n s t h in
      let counts =
        take_page-counts net world seed opts.scrape (extract_types opts) (page_limit opts)
          (depth_limit opts) item (world.scrape_page n item.url (extract_types opts) opts.scrape)
          (record s { queue = rest }) in
      rw e (
        record {
          valid =
              take_page-Inv net world seed seed_norm opts.scrape (extract_types opts)
                (page_limit opts) (depth_limit opts) n item rest s q b.valid;
          layered =
              take_page-Layers net world seed seed_norm opts.scrape (extract_types opts)
                (page_limit opts) (depth_limit opts) n item rest s q b.valid b.layered;
          in_limit = omega arith;
          skips = omega (arith, b.skips);
        },
        omega arith,
      )

  quit : (n : ℕ) (s t : CrawlState) (x : Error) → Between s → round n s ≡ wait_error t x → Cut t x
  quit n s t x b h =
      let (item, rest, q, room, e) =
        round-wait_error net world seed opts.scrape (extract_types opts) (page_limit opts)
          (depth_limit opts) n s t x h in
      record { before = s; between = b; same_pages = ap (λ u. u.pages) e }

  pub crawl_loop-Ends : Ends round Between Cut (crawl_loop net world seed seed_norm opts)
  unfolding crawl_loop
  crawl_loop-Ends =
      run_loop_rule round Between Cut (λ s. page_limit opts - length s.pages) keep quit
        (suc (page_limit opts)) 0 (start_crawl seed_norm) (omega arith) Between-start
