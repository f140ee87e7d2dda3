-- ===== src/Crawl/Urls.antt =====
-- internal/crawl/crawl.go, MapBFS: the discovery of a host's URLs.
pub mod Invariant
pub mod Laws
use web_gobbler.Prelude.{
  ℕ, suc, String, Bool, true, false, not, ◌||◌, Option, none, some, List, [], ◌∷◌, ◌++◌, ltb, leb,
  length, contains, if◌then◌else◌,
}
use web_gobbler.Scraper.{
  Url, Net, url_parse, ScrapeOptions, blank_result, Scraped, scraped, refused,
}
use web_gobbler.Crawl.Frontier.{
  Options, Item, World, Returned, LoopEnd, stopped, wait_failed, out_of_fuel, Round, go_on, halt,
  wait_error, run_loop, or_default, depth_or_default, is_cancelled, wait_on, normalize_url,
  admissible,
}

pub record MapState : Type 0 where
  pub seen : List String
  pub urls : List String
  pub queue : List Item

module _ (net : Net) (seed : Url) (max_urls : ℕ) where
  -- `for _, link := range page.Links`, with its `break` when the URLs are full: the URL that fills
  -- them is listed and not queued.
  unfoldable pub offer_all : ℕ → List String → MapState → MapState
  offer_all depth [] s = s
  offer_all depth (link ∷ links) s = elim (admissible net seed link) [
    | none ↦ offer_all depth links s
    | some norm ↦ elim (contains s.seen norm) [
      | true ↦ offer_all depth links s
      | false ↦
          let s' : MapState = record s { seen = s.seen ++ norm ∷ []; urls = s.urls ++ norm ∷ [] } in
          elim (leb max_urls (length s'.urls)) [
            | true ↦ s'
            | false ↦
                offer_all depth links
                  (record s' { queue = s.queue ++ record { url = norm; depth = depth } ∷ [] })
          ]
    ]
  ]

module _ (net : Net) (world : World) (seed : Url) (opts : ScrapeOptions)
    (max_urls max_depth : ℕ) where
  unfoldable pub take_links : Item → Scraped → MapState → MapState
  take_links item (refused page e) s = s
  take_links item (scraped page) s = offer_all net seed max_urls (suc item.depth) page.links s

  -- A round of the loop of MapBFS.
  unfoldable pub map_round : ℕ → MapState → Round MapState
  map_round n s = elim s.queue [
    | [] ↦ halt
    | item ∷ rest ↦
        if not (ltb (length s.urls) max_urls)
          || world.ctx_done n
          || is_cancelled world.cancel_check n
        then halt
        else if leb max_depth item.depth
        then go_on (record s { queue = rest })
        else elim (wait_on world.rate n (net.hostname seed)) [
          | some e ↦ wait_error (record s { queue = rest }) e
          | none ↦ go_on (
              take_links item (world.scrape_page n item.url ("links" ∷ []) opts)
                (record s { queue = rest }))
        ]
  ]

-- The end of MapBFS; the time of a failed wait is that of the round.
unfoldable pub finish_map : World → LoopEnd MapState → Returned
finish_map world (stopped n s) = record {
  result =
      some (record blank_result {
        urls = s.urls;
        http_status = 200;
        duration_ms = world.elapsed_ms n;
      });
  error = none;
}
finish_map world (wait_failed n s e) = record {
  result = some (record blank_result { urls = s.urls; duration_ms = world.elapsed_ms n });
  error = some e;
}
finish_map world out_of_fuel = record { result = none; error = none }

abbrev pub start_map : String → MapState
start_map seed = record {
  seen = seed ∷ [];
  urls = seed ∷ [];
  queue = record { url = seed; depth = 0 } ∷ [];
}

-- The loop of MapBFS with as much fuel as it may need: a round takes a URL from the queue, and no
-- more than MaxURLs are ever queued.
unfoldable pub map_loop : Net → World → Url → String → Options → LoopEnd MapState
map_loop net world seed_url seed opts =
    let max_urls = or_default opts.max_urls 50 in
    run_loop (map_round net world seed_url opts.scrape max_urls (depth_or_default opts.max_depth 2))
      (suc max_urls) 0 (start_map seed)

-- MapBFS
unfoldable pub map_bfs : Net → World → String → Options → Returned
unfolding map_loop finish_map
map_bfs net world seed opts = elim (normalize_url net seed) [
  | none ↦ record { result = none; error = some url_parse }
  | some norm ↦ elim (net.parse norm) [
    | none ↦ record { result = none; error = some url_parse }
    | some u ↦ finish_map world (map_loop net world u norm opts)
  ]
]
