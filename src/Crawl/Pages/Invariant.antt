-- ===== src/Crawl/Pages/Invariant.antt =====
-- What holds of the state of CrawlBFS (internal/crawl/crawl.go) between two rounds.
use web_gobbler.Prelude.{
  ℕ, suc, String, Bool, none, some, List, [], ◌∷◌, ◌++◌, map, Memᴰ, ◌≡◌, refl, ap, subst, inl, inr,
  arith, leb, All, All-append, Distinct, Distinct-concat, map-append, append_assoc, contains,
  contains-false, Bool-cases, Option-cases,
}
use web_gobbler.Scraper.{Url, Net, ScrapeOptions, PageResult, Scraped, scraped, refused}
use web_gobbler.Crawl.Frontier.{Item, World, admissible}
use web_gobbler.Crawl.Reach.{Leads, admissible-Leads, Found, follow}
use web_gobbler.Crawl.Pages.{CrawlState, offer, offer_all, take_page}

abbrev pub page_urls : List PageResult → List String
page_urls ps = map (λ p. p.url) ps

abbrev pub item_urls : List Item → List String
item_urls is = map (λ i. i.url) is

module _ (net : Net) (world : World) (seed : Url) (seed_norm : String) (opts : ScrapeOptions)
    (extract : List String) (max_pages max_depth : ℕ) where
  abbrev Reached : String → ℕ → Type 0
  Reached = Found net world seed seed_norm opts extract max_depth

  pub record Inv (s : CrawlState) : Type 0 where
    pub accounted : page_urls s.pages ++ item_urls s.queue ≡ s.seen
    pub distinct : Distinct s.seen
    pub pages_found : All (λ p. Reached p.url p.depth) s.pages
    pub queue_found : All (λ i. Reached i.url i.depth) s.queue

  offer-Inv :
      (depth : ℕ) (link : String) (s : CrawlState)
      → ((norm : String) → Leads net seed link norm → Reached norm depth)
      → Inv s
      → Inv (offer net seed depth link s)
  unfolding offer
  offer-Inv depth link s found inv = elim (Option-cases (admissible net seed link)) [
    | inl e ↦ rw (e, offer) inv
    | inr (norm, e) ↦ elim (Bool-cases (contains s.seen norm)) [
      | inl old ↦ rw (e, offer, old) inv
      | inr new ↦
          rw (e, offer, new)
            (record {
              accounted =
                  simp (map-append, ← append_assoc) (ap (λ l. l ++ norm ∷ []) inv.accounted);
              distinct = Distinct-concat s.seen norm (contains-false s.seen norm new) inv.distinct;
              pages_found = inv.pages_found;
              queue_found =
                  All-append (λ i. Reached i.url i.depth) s.queue _ inv.queue_found
                    (found norm (admissible-Leads net seed link norm e), tt);
            })
    ]
  ]

  offer_all-Inv :
      (depth : ℕ) (links : List String) (s : CrawlState)
      → ((link norm : String) → Memᴰ link links → Leads net seed link norm → Reached norm depth)
      → Inv s
      → Inv (offer_all net seed depth links s)
  unfolding offer_all
  offer_all-Inv depth [] s found inv = inv
  offer_all-Inv depth (link ∷ links) s found inv =
      offer_all-Inv depth links _ (λ l norm m. found l norm (Memᴰ.tail m))
        (offer-Inv depth link s (λ norm. found link norm (Memᴰ.head refl)) inv)

  -- The item at the head of the queue becomes the last page.
  pub visit-Inv :
      (item : Item) (rest : List Item) (p : PageResult) (b : Bool) (k : ℕ) (s : CrawlState)
      → s.queue ≡ item ∷ rest
      → p.url ≡ item.url
      → p.depth ≡ item.depth
      → Inv s
      → Inv (record s { queue = rest; pages = s.pages ++ p ∷ []; truncated = b; skipped = k })
  visit-Inv item rest p b k s q same_url same_depth inv =
      let (found, more) = subst (All (λ i. Reached i.url i.depth)) q inv.queue_found in
      record {
        accounted = simp (map-append, append_assoc) (rw same_url (rw (← inv.accounted, q) refl));
        distinct = inv.distinct;
        pages_found =
            All-append (λ p'. Reached p'.url p'.depth) s.pages _ inv.pages_found
              (rw (same_url, same_depth) found, tt);
        queue_found = more;
      }

  -- What a round does when it goes on.
  pub take_page-Inv :
      (n : ℕ) (item : Item) (rest : List Item) (s : CrawlState)
      → s.queue ≡ item ∷ rest
      → Inv s
      → Inv (
          take_page net world seed opts extract max_pages max_depth item
            (world.scrape_page n item.url extract opts)
            (record s { queue = rest }))
  unfolding take_page
  take_page-Inv n item rest s q inv = go (world.scrape_page n item.url extract opts) refl
    where
      go :
          (r : Scraped)
          → world.scrape_page n item.url extract opts ≡ r
          → Inv (
              take_page net world seed opts extract max_pages max_depth item r
                (record s { queue = rest }))
      go (refused none e) h = visit-Inv item rest _ _ _ s q refl refl inv
      go (refused (some r) e) h = visit-Inv item rest _ _ _ s q refl refl inv
      go (scraped page) h = elim (Bool-cases (leb max_depth item.depth)) [
        | inl deep ↦ rw (deep, take_page) (visit-Inv item rest _ _ _ s q refl refl inv)
        | inr shallow ↦
            rw (shallow, take_page)
              (offer_all-Inv (suc item.depth) page.links _
                (λ link norm m leads.
                  follow n page link (subst (All (λ i. Reached i.url i.depth)) q inv.queue_found).0
                    h m leads (ground arith))
                (visit-Inv item rest _ _ _ s q refl refl inv))
      ]
