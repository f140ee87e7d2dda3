-- ===== src/Crawl/Safety.antt =====
-- CrawlBFS on top of ScrapePage: internal/crawl/crawl.go with internal/scraper/scraper.go.
use Prim.Native.String.{len}
use web_gobbler.Prelude.{
  ℕ, zero, suc, ◌+◌, length, ◌≤◌, String, some, List, [], ◌∷◌, ◌++◌, ◌≡◌, ◌≢◌, inl, inr, refl, sym,
  ap, ◌∙◌, subst, arith, Bool-cases, leb,
}
use web_gobbler.Scraper.{Url, Net, ScrapeOptions, PageResult, Result, Scraped, scraped, refused}
use web_gobbler.Scraper.Addresses.{Resolver, safe, resolve_and_check_url}
use web_gobbler.Scraper.Markdown.{Spaces}
use web_gobbler.Scraper.Fetch.{Web}
use web_gobbler.Scraper.Page.{Goquery, max_stored_html, scrape_page}
use web_gobbler.Scraper.Pages.{scrape_page_lem}
use web_gobbler.Crawl.Frontier.{
  Options, Item, World, LoopEnd, stopped, wait_failed, out_of_fuel, run_loop, or_default,
  depth_or_default,
}
use mathlib.Core.Option.{some-injective}
use web_gobbler.Crawl.Loop.{Round-cases}
use web_gobbler.Crawl.Pages.Rounds.{offer_all-pages, round-go_on, round-wait_error}
use web_gobbler.Crawl.Pages.Laws.{crawl_bfs_returns, crawl_bfs-Seeded}
use web_gobbler.Crawl.Pages.{
  CrawlState, page_of, failed_page, take_page, crawl_round, finish_crawl, start_crawl,
  default_extract, crawl_loop, crawl_bfs,
}

-- The page that a scrape makes of a URL of the queue.
abbrev page_made : Item → Scraped → PageResult
page_made item (scraped r) = page_of item r
page_made item (refused r e) = failed_page item r

-- Each page with its number, the first one's given.
abbrev pub From : (ℕ → PageResult → Type 0) → ℕ → List PageResult → Type 0
From P n [] = Unit
From P n (p ∷ ps) = P n p × From P (suc n) ps

From-append :
    (P : ℕ → PageResult → Type 0) (k n : ℕ) (ps : List PageResult) (p : PageResult)
    → length ps + k ≡ n
    → From P k ps
    → P n p
    → From P k (ps ++ p ∷ [])
From-append P k n [] p e h here =
    let same : k ≡ n = omega (arith, e) in (subst (λ i. P i p) (sym same) here, tt)
From-append P k n (x ∷ ps) p e (h, hs) here =
    (h, From-append P (suc k) n ps p (omega (arith, e)) hs here)

length-snoc : (ps : List PageResult) (p : PageResult) → length (ps ++ p ∷ []) ≡ suc (length ps)
length-snoc [] p = refl
length-snoc (x ∷ ps) p = ap suc (length-snoc ps p)

module _ (net : Net) (world : World) (P : ℕ → PageResult → Type 0) where
  module _ (seed : Url) (opts : ScrapeOptions) (extract : List String) (max_pages max_depth : ℕ)
      (makes : (n : ℕ) (item : Item)
        → P n (page_made item (world.scrape_page n item.url extract opts))) where
    take_page-pages :
        (item : Item) (a : Scraped) (s : CrawlState)
        → (take_page net world seed opts extract max_pages max_depth item a s).pages
          ≡ s.pages ++ page_made item a ∷ []
    unfolding take_page
    take_page-pages item (refused r e) s = refl
    take_page-pages item (scraped r) s = elim (Bool-cases (leb max_depth item.depth)) [
      | inl deep ↦ rw deep refl
      | inr shallow ↦ rw shallow (offer_all-pages net seed (suc item.depth) r.links _).0
    ]

    abbrev AllEnds : LoopEnd CrawlState → Type 0
    AllEnds (stopped n s) = From P 0 s.pages
    AllEnds (wait_failed n s e) = From P 0 s.pages
    AllEnds out_of_fuel = Unit

    loop-AllEnds :
        (fuel n : ℕ) (s : CrawlState)
        → length s.pages ≡ n
        → From P 0 s.pages
        → AllEnds (run_loop (crawl_round net world seed opts extract max_pages max_depth) fuel n s)
    unfolding run_loop
    loop-AllEnds zero n s k h = tt
    loop-AllEnds (suc fuel) n s k h =
        elim (Round-cases (crawl_round net world seed opts extract max_pages max_depth n s)) [
          | inl (inl (t, e)) ↦
              let (item, rest, queue, room, same) =
                round-go_on net world seed opts extract max_pages max_depth n s t e in
              let made = page_made item (world.scrape_page n item.url extract opts) in
              let pages : t.pages ≡ s.pages ++ made ∷ [] =
                ap (λ u. u.pages) same
                ∙ take_page-pages item (world.scrape_page n item.url extract opts)
                    (record s { queue = rest }) in
              rw (e, AllEnds)
                (loop-AllEnds fuel (suc n) t (ap length pages ∙ length-snoc s.pages made ∙ ap suc k)
                  (subst (From P 0) (sym pages)
                    (From-append P 0 n s.pages made (omega (arith, k)) h (makes n item))))
          | inl (inr e) ↦ rw (e, AllEnds) h
          | inr (t, x, e) ↦
              let (item, rest, queue, room, same) =
                round-wait_error net world seed opts extract max_pages max_depth n s t x e in
              rw (e, AllEnds) (subst (From P 0) (sym (ap (λ u. u.pages) same)) h)
        ]

    finish-All :
        (end : LoopEnd CrawlState)
        → AllEnds end
        → (r : Result) → (finish_crawl world end).result ≡ some r
        → From P 0 r.pages
    unfolding finish_crawl
    finish-All (stopped n s) h r e = subst (From P 0) (ap (λ x. x.pages) (some-injective _ _ e)) h
    finish-All (wait_failed n s x) h r e =
        subst (From P 0) (ap (λ x. x.pages) (some-injective _ _ e)) h
    finish-All out_of_fuel h r e = cc e

  pages_All :
      (seed : String) (opts : Options)
      → ((n : ℕ) (item : Item) (extract : List String)
          → P n (page_made item (world.scrape_page n item.url extract opts.scrape)))
      → (r : Result) → (crawl_bfs net world seed opts).result ≡ some r
      → From P 0 r.pages
  unfolding crawl_loop
  pages_All seed opts makes r h = elim (crawl_bfs_returns net world seed opts) [
    | inl (r', there, norm, u, seeded, explored) ↦
        finish-All u opts.scrape (default_extract ("markdown" ∷ []) opts.extract)
          (or_default opts.max_pages 10) (depth_or_default opts.max_depth 2)
          (λ n item. makes n item (default_extract ("markdown" ∷ []) opts.extract))
          (crawl_loop net world u norm opts)
          (loop-AllEnds u opts.scrape (default_extract ("markdown" ∷ []) opts.extract)
            (or_default opts.max_pages 10) (depth_or_default opts.max_depth 2)
            (λ n item. makes n item (default_extract ("markdown" ∷ []) opts.extract))
            (suc (or_default opts.max_pages 10)) 0 (start_crawl norm) refl tt)
          r (sym (ap (λ x. x.result) (crawl_bfs-Seeded net world seed opts norm u seeded)) ∙ h)
    | inr (failed, none_there) ↦ cc (sym (ap (λ x. x.result) failed) ∙ h)
  ]

-- The page of a round, if it was fetched, is of a URL that the checks let through with the resolver
-- of that round, the one of its scrape, and its HTML is bounded.
abbrev pub IsSafe : Net → (ℕ → Resolver) → ℕ → PageResult → Type 0
IsSafe net dns n p =
    (p.http_status ≢ 0 → (base : Url) × (resolve_and_check_url net (dns n) p.url ≡ safe base))
    × (len p.html ≤ max_stored_html)
    × (len p.raw_html ≤ max_stored_html)

module _ {D : Type 0} (g : Goquery D) (net : Net) (sp : Spaces) (dns : ℕ → Resolver) (web : ℕ → Web)
    (to_lower : String → String) (elapsed : ℕ → ℕ) where
  -- A world in which each scrape is ScrapePage, on the resolver and the web of its round.
  abbrev pub scraping : World → World
  scraping world = record world {
    scrape_page = λ n url extract opts.
        scrape_page g net sp (dns n) (web n) to_lower (elapsed n) url extract (some opts);
  }

  made-IsSafe :
      (n : ℕ) (item : Item) (extract : List String) (opts : ScrapeOptions)
      → IsSafe net dns n (
          page_made item (
            scrape_page g net sp (dns n) (web n) to_lower (elapsed n) item.url extract (some opts)))
  made-IsSafe n item extract opts =
      elim (scrape_page_lem g net sp (dns n) (web n) to_lower (elapsed n) item.url extract
        (some opts)) [
          | inl (e, bad, out) ↦ rw out (λ h. absurd (h refl), omega arith, omega arith)
          | inr (base, good, inl (status, e, out, why)) ↦
              rw out (λ h. (base, good), omega arith, omega arith)
          | inr (base, good, inr (r, out, fine)) ↦
              rw out (λ h. (base, good), fine.html_bound, fine.raw_html_bound)
        ]

  -- However a site links and redirects and whatever the resolver answers from one time to the next,
  -- a page of a crawl that has a status is of a URL that resolveAndCheckURL let through with the
  -- resolver as it answered in the round in which that page was scraped (the n-th page in the n-th
  -- round), and no page stores more than 512 KiB of HTML or of raw HTML.
  pub crawl_bfs-IsSafe :
      (world : World) (seed : String) (opts : Options) (r : Result)
      → (crawl_bfs net (scraping world) seed opts).result ≡ some r
      → From (IsSafe net dns) 0 r.pages
  crawl_bfs-IsSafe world seed opts r h =
      pages_All net (scraping world) (IsSafe net dns) seed opts
        (λ n item extract. made-IsSafe n item extract opts.scrape) r h
