-- ===== src/Crawl/Pages/Rounds.antt =====
-- A round of CrawlBFS (internal/crawl/crawl.go): when it goes on, halts or is stopped by the rate
-- limiter, and the pages that it adds.
use web_gobbler.Prelude.{
  ℕ, suc, ◌≤◌, ◌<◌, String, true, ◌||◌, List, [], ◌∷◌, ◌++◌, ◌≡◌, refl, ◌∙◌, ◌⊎◌, inl, inr, arith,
  length, length-append, List-cases,
}
use web_gobbler.Scraper.{Url, Net, Error, ScrapeOptions, Scraped, scraped, refused}
use web_gobbler.Crawl.Frontier.{Item, World, Round, go_on, halt, wait_error, is_cancelled}
use web_gobbler.Crawl.Pages
use web_gobbler.Crawl.Pages.{CrawlState, offer, offer_all, take_page, crawl_round}

module _ (net : Net) (seed : Url) where
  offer-pages :
      (depth : ℕ) (link : String) (s : CrawlState)
      → ((offer net seed depth link s).pages ≡ s.pages)
        × ((offer net seed depth link s).skipped ≡ s.skipped)
  unfolding offer
  offer-pages depth link s = ground arith

  pub offer_all-pages :
      (depth : ℕ) (links : List String) (s : CrawlState)
      → ((offer_all net seed depth links s).pages ≡ s.pages)
        × ((offer_all net seed depth links s).skipped ≡ s.skipped)
  unfolding offer_all
  offer_all-pages depth [] s = (refl, refl)
  offer_all-pages depth (link ∷ links) s =
      let (same_pages, same_skipped) = offer_all-pages depth links (offer net seed depth link s) in
      let (same_pages', same_skipped') = offer-pages depth link s in
      (same_pages ∙ same_pages', same_skipped ∙ same_skipped')

module _ (net : Net) (world : World) (seed : Url) (opts : ScrapeOptions) (extract : List String)
    (max_pages max_depth : ℕ) where
  -- A round adds one page; the count of skipped pages grows by one at most.
  pub take_page-counts :
      (item : Item) (r : Scraped) (s : CrawlState)
      → let t = take_page net world seed opts extract max_pages max_depth item r s in
        (length t.pages ≡ suc (length s.pages)) × (t.skipped ≤ suc s.skipped)
  unfolding take_page
  take_page-counts item (refused page e) s =
      (omega (arith, length-append {0} s.pages _), omega arith)
  take_page-counts item (scraped page) s = ground (
    arith,
    offer_all-pages net seed (suc item.depth) page.links (record s {
      pages = s.pages ++ Pages.page_of item page ∷ [];
      truncated = s.truncated || page.truncated;
    }),
    length-append {0} s.pages (Pages.page_of item page ∷ []),
  )

  abbrev round : ℕ → CrawlState → Round CrawlState
  round = crawl_round net world seed opts extract max_pages max_depth

  -- The three ways out of a round, read backwards.
  pub round-go_on :
      (n : ℕ) (s t : CrawlState)
      → round n s ≡ go_on t
      → (item : Item) × (rest : List Item) × (s.queue ≡ item ∷ rest)
        × (length s.pages < max_pages)
        × (t
            ≡ take_page net world seed opts extract max_pages max_depth item
                (world.scrape_page n item.url extract opts)
                (record s { queue = rest }))
  unfolding crawl_round
  round-go_on n s t h = elim (List-cases s.queue) [
    | inl e ↦ absurd (ground arith)
    | inr (item, rest, e) ↦ (item, rest, e, ground arith, ground arith)
  ]

  pub round-wait_error :
      (n : ℕ) (s t : CrawlState) (x : Error)
      → round n s ≡ wait_error t x
      → (item : Item) × (rest : List Item) × (s.queue ≡ item ∷ rest)
        × (length s.pages < max_pages)
        × (t ≡ record s { queue = rest })
  unfolding crawl_round
  round-wait_error n s t x h = elim (List-cases s.queue) [
    | inl e ↦ absurd (ground arith)
    | inr (item, rest, e) ↦ (item, rest, e, ground arith, ground arith)
  ]

  pub round-halt :
      (n : ℕ) (s : CrawlState)
      → round n s ≡ halt
      → (s.queue ≡ [])
        ⊎ (max_pages ≤ length s.pages)
        ⊎ (world.ctx_done n ≡ true)
        ⊎ (is_cancelled world.cancel_check n ≡ true)
  unfolding crawl_round
  round-halt n s h = ground arith
