-- ===== src/Crawl/Pages/Layers.antt =====
-- The order of CrawlBFS (internal/crawl/crawl.go): pages and frontier, read together, are sorted by
-- depth and span two layers at most, and each page above the greatest depth has had all its links
-- listed no deeper than one below it.
use mathlib.Core.List.{map-map}
use web_gobbler.Prelude.{
  ℕ, suc, ◌≤◌, ◌<◌, String, Bool, none, some, List, [], ◌∷◌, ◌++◌, map, map-append, append_assoc,
  Memᴰ, ◌≡◌, refl, sym, subst, ◌∙◌, inl, inr, arith, leb, All, All-append, All-map, Ascending,
  Ascending-append_cons, Bool-cases,
}
use web_gobbler.Scraper.{Url, Net, ScrapeOptions, PageResult, Result, Scraped, scraped, refused}
use web_gobbler.Crawl.Frontier.{Item, World}
use web_gobbler.Crawl.Reach.{Leads}
use web_gobbler.Crawl.Pages.{CrawlState, page_of, failed_page, offer_all, take_page}
use web_gobbler.Crawl.Pages.Invariant.{Inv, visit-Inv, page_urls, item_urls}
use web_gobbler.Crawl.Pages.Rounds.{offer_all-pages}
use web_gobbler.Crawl.Pages.Offers.{
  page_entries, item_entries, entries, depths, Listed, Sorted, offer_all-Offered,
}

entries_urls :
    (s : CrawlState) → map (λ e. e.0) (entries s) ≡ page_urls s.pages ++ item_urls s.queue
entries_urls s = simp (map-append, map-map)

entries_visit :
    (item : Item) (rest : List Item) (p : PageResult) (s : CrawlState)
    → s.queue ≡ item ∷ rest
    → p.url ≡ item.url
    → p.depth ≡ item.depth
    → entries s ≡ page_entries (s.pages ++ p ∷ []) ++ item_entries rest
entries_visit item rest p s q same_url same_depth =
    simp (map-append, append_assoc) (rw (q, same_url, same_depth) refl)

-- Items that follow a page of depth `d` in the order are no shallower, so what is one layer below
-- the page at most is one layer below the items at most.
below_items :
    (d : ℕ) (es : List (String × ℕ)) (is : List Item)
    → All (λ x. d ≤ x) (depths (item_entries is))
    → All (λ e. e.1 ≤ suc d) es
    → All (λ i. All (λ e. e.1 ≤ suc i.depth) es) is
below_items d es [] h k = tt
below_items d es (i ∷ is) (h, hs) k =
    (All-map {P = λ e. e.1 ≤ suc d} (λ e le. omega arith) es k, below_items d es is hs k)

narrow_after :
    (p : PageResult) (ps : List PageResult) (is : List Item)
    → Ascending (depths (page_entries (ps ++ p ∷ []) ++ item_entries is))
    → All (λ x. p.depth ≤ x) (depths (item_entries is))
narrow_after p ps is h =
    Ascending-append_cons (depths (page_entries ps)) p.depth _
      (subst Ascending (simp (map-append, append_assoc)) h)

module _ (net : Net) (world : World) (seed : Url) (seed_norm : String) (opts : ScrapeOptions)
    (extract : List String) (max_pages max_depth : ℕ) where
  -- What the page's scrape linked to is listed, no deeper than one below the page.
  abbrev pub Closed : PageResult → List (String × ℕ) → Type 0
  Closed p es =
      (n : ℕ) (page : Result) (link norm : String)
      → world.scrape_page n p.url extract opts ≡ scraped page
      → p.depth < max_depth
      → Memᴰ link page.links
      → Leads net seed link norm
      → Listed norm (suc p.depth) es

  -- The site answers every scrape of a URL alike.
  abbrev pub IsSteady : Type 0
  IsSteady =
      (n m : ℕ) (url : String)
      → world.scrape_page n url extract opts ≡ world.scrape_page m url extract opts

  pub record Layers (s : CrawlState) : Type 0 where
    pub rooted : Memᴰ (seed_norm, 0) (entries s)
    pub ordered : Ascending (depths (entries s))
    pub narrow : All (λ i. All (λ e. e.1 ≤ suc i.depth) (entries s)) s.queue
    pub closed : IsSteady → All (λ p. Closed p (entries s)) s.pages

  abbrev Grows : List (String × ℕ) → List (String × ℕ) → Type 0
  Grows es fs = (e : String × ℕ) → Memᴰ e es → Memᴰ e fs

  Closed-Grows :
      {es fs : List (String × ℕ)} → Grows es fs → (p : PageResult) → Closed p es → Closed p fs
  Closed-Grows grow p c n page link norm h lt m leads =
      let (d, listed, le) = c n page link norm h lt m leads in (d, grow (norm, d) listed, le)

  -- A page is visited and adds nothing to the frontier.
  visit-Layers :
      (item : Item) (rest : List Item) (p : PageResult) (b : Bool) (k : ℕ) (s : CrawlState)
      → s.queue ≡ item ∷ rest
      → p.url ≡ item.url
      → p.depth ≡ item.depth
      → (IsSteady → (es : List (String × ℕ)) → Closed p es)
      → Layers s
      → Layers (record s { queue = rest; pages = s.pages ++ p ∷ []; truncated = b; skipped = k })
  visit-Layers item rest p b k s q same_url same_depth closed h =
      let e = entries_visit item rest p s q same_url same_depth in
      let later = (subst (All (λ i. All (λ x. x.1 ≤ suc i.depth) (entries s))) q h.narrow).1 in
      record {
        rooted = subst (Memᴰ (seed_norm, 0)) e h.rooted;
        ordered = subst (λ es. Ascending (depths es)) e h.ordered;
        narrow = subst (λ es. All (λ i. All (λ x. x.1 ≤ suc i.depth) es) rest) e later;
        closed = λ steady.
            All-append (λ p'. Closed p' _) s.pages (p ∷ [])
              (subst (λ es. All (λ p'. Closed p' es) s.pages) e (h.closed steady))
              (closed steady _, tt);
      }

  -- A page is visited and its links are offered.
  scraped-Layers :
      (n : ℕ) (item : Item) (rest : List Item) (page : Result) (b : Bool) (s : CrawlState)
      → s.queue ≡ item ∷ rest
      → world.scrape_page n item.url extract opts ≡ scraped page
      → Inv net world seed seed_norm opts extract max_pages max_depth s
      → Layers s
      → Layers (
          offer_all net seed
            (suc item.depth)
            page.links
            (record s { queue = rest; pages = s.pages ++ page_of item page ∷ []; truncated = b }))
  scraped-Layers n item rest page b s q scrape inv h =
      let p = page_of item page in
      let v : CrawlState = record s { queue = rest; pages = s.pages ++ p ∷ []; truncated = b } in
      let e : entries s ≡ entries v = entries_visit item rest p s q refl refl in
      let visited =
        visit-Inv net world seed seed_norm opts extract max_pages max_depth item rest p b s.skipped
          s q refl refl inv in
      let here = (subst (All (λ i. All (λ x. x.1 ≤ suc i.depth) (entries s))) q h.narrow).0 in
      let sorted : Sorted (suc item.depth) v = record {
        accounted = entries_urls v ∙ visited.accounted;
        ordered = subst (λ es. Ascending (depths es)) e h.ordered;
        narrow = subst (All (λ x. x.1 ≤ suc item.depth)) e here;
      } in
      let t = offer_all net seed (suc item.depth) page.links v in
      let offered = offer_all-Offered net seed (suc item.depth) page.links v sorted in
      let same : t.pages ≡ v.pages = (offer_all-pages net seed (suc item.depth) page.links v).0 in
      record {
        rooted = offered.grown (seed_norm, 0) (subst (Memᴰ (seed_norm, 0)) e h.rooted);
        ordered = offered.sorted.ordered;
        narrow =
            below_items item.depth (entries t) t.queue
              (narrow_after p s.pages t.queue (
                subst (λ ps. Ascending (depths (page_entries ps ++ item_entries t.queue))) same
                  offered.sorted.ordered))
              offered.sorted.narrow;
        closed = λ steady. subst (All (λ p'. Closed p' (entries t))) (sym same) (
            All-append (λ p'. Closed p' (entries t)) s.pages (p ∷ [])
              (All-map {P = λ p'. Closed p' (entries s)}
                (λ p'.
                  Closed-Grows {es = entries s} {fs = entries t}
                    (λ x m. offered.grown x (subst (Memᴰ x) e m)) p')
                s.pages (h.closed steady))
              (
                (λ m page' link norm h' lt mem leads.
                    let same_page : page' ≡ page = cc (steady m n item.url) in
                    offered.covers link norm (subst (λ r. Memᴰ link r.links) same_page mem) leads),
                tt,
              ));
      }

  -- A round that goes on keeps the layers.
  pub take_page-Layers :
      (n : ℕ) (item : Item) (rest : List Item) (s : CrawlState)
      → s.queue ≡ item ∷ rest
      → Inv net world seed seed_norm opts extract max_pages max_depth s
      → Layers s
      → Layers (
          take_page net world seed opts extract max_pages max_depth item
            (world.scrape_page n item.url extract opts)
            (record s { queue = rest }))
  unfolding take_page
  take_page-Layers n item rest s q inv h = go (world.scrape_page n item.url extract opts) refl
    where
      go :
          (r : Scraped)
          → world.scrape_page n item.url extract opts ≡ r
          → Layers (
              take_page net world seed opts extract max_pages max_depth item r
                (record s { queue = rest }))
      go (refused none x) e =
          visit-Layers item rest (failed_page item none) s.truncated (suc s.skipped) s q refl refl
            (λ steady es m page link norm e' lt mem leads. cc (steady n m item.url)) h
      go (refused (some r) x) e =
          visit-Layers item rest (failed_page item (some r)) s.truncated (suc s.skipped) s q refl
            refl (λ steady es m page link norm e' lt mem leads. cc (steady n m item.url)) h
      go (scraped page) e = elim (Bool-cases (leb max_depth item.depth)) [
        | inl deep ↦
            rw (deep, take_page)
              (visit-Layers item rest (page_of item page) _ s.skipped s q refl refl
                (λ steady es m page link norm e' lt mem leads. absurd (ground arith)) h)
        | inr shallow ↦ rw (shallow, take_page) (scraped-Layers n item rest page _ s q e inv h)
      ]
