-- ===== src/Crawl/Urls/Invariant.antt =====
-- What holds of the state of MapBFS (internal/crawl/crawl.go) between two rounds.
use web_gobbler.Prelude.{
  ℕ, suc, ◌+◌, ◌-◌, ◌≤◌, ◌<◌, String, false, List, [], ◌∷◌, ◌++◌, Memᴰ, ◌≡◌, refl, ap, subst, ◌⊎◌,
  inl, inr, arith, leb, length, length-append, All, All-append, Distinct, Distinct-concat, contains,
  contains-false, Bool-cases, Option-cases, List-cases,
}
use web_gobbler.Scraper.{Url, Net, Error, ScrapeOptions, Scraped, scraped, refused}
use web_gobbler.Crawl.Frontier.{Item, World, Round, go_on, wait_error, admissible}
use web_gobbler.Crawl.Reach.{Leads, admissible-Leads, Found, follow}
use web_gobbler.Crawl.Urls.{MapState, offer_all, take_links, map_round}

module _ (net : Net) (world : World) (seed : Url) (seed_norm : String) (opts : ScrapeOptions)
    (max_urls max_depth : ℕ) where
  abbrev pub Reached : String → ℕ → Type 0
  Reached = Found net world seed seed_norm opts ("links" ∷ []) max_depth

  -- A URL is in reach of the seed at some depth.
  abbrev pub InReach : String → Type 0
  InReach url = (depth : ℕ) × Reached url depth

  pub record Inv (s : MapState) : Type 0 where
    pub same : s.seen ≡ s.urls
    pub distinct : Distinct s.urls
    pub in_limit : length s.urls ≤ max_urls
    pub found : All InReach s.urls
    pub queue_found : All (λ i. Reached i.url i.depth) s.queue
    pub rooted : (rest : List String) × (s.urls ≡ seed_norm ∷ rest)

  -- One more URL, with or without its place in the queue.
  push-Inv :
      (norm : String) (depth : ℕ) (queue : List Item) (s : MapState)
      → contains s.seen norm ≡ false
      → length s.urls < max_urls
      → Reached norm depth
      → All (λ i. Reached i.url i.depth) queue
      → Inv s
      → Inv (record s { seen = s.seen ++ norm ∷ []; urls = s.urls ++ norm ∷ []; queue = queue })
  push-Inv norm depth queue s new room reached queued inv =
      let (rest, e) = inv.rooted in
      record {
        same = ap (λ l. l ++ norm ∷ []) inv.same;
        distinct =
            Distinct-concat s.urls norm (contains-false s.urls norm (rw (← inv.same) new))
              inv.distinct;
        in_limit = omega (arith, length-append {0} s.urls (norm ∷ []));
        found = All-append InReach s.urls (norm ∷ []) inv.found ((depth, reached), tt);
        queue_found = queued;
        rooted = (rest ++ norm ∷ [], ap (λ l. l ++ norm ∷ []) e);
      }

  offer_all-Inv :
      (depth : ℕ) (links : List String) (s : MapState)
      → ((link norm : String) → Memᴰ link links → Leads net seed link norm → Reached norm depth)
      → length s.urls < max_urls
      → Inv s
      → Inv (offer_all net seed max_urls depth links s)
        × (length (offer_all net seed max_urls depth links s).queue + length s.urls
            ≤ length (offer_all net seed max_urls depth links s).urls + length s.queue)
  unfolding offer_all
  offer_all-Inv depth [] s found room inv = (inv, omega arith)
  offer_all-Inv depth (link ∷ links) s found room inv =
      elim (Option-cases (admissible net seed link)) [
        | inl e ↦
            rw (e, offer_all)
              (offer_all-Inv depth links s (λ l norm m. found l norm (Memᴰ.tail m)) room inv)
        | inr (norm, e) ↦
            let reached =
              found link norm (Memᴰ.head refl) (admissible-Leads net seed link norm e) in
            let item : Item = record { url = norm; depth = depth } in
            let queue = s.queue ++ item ∷ [] in
            let s' : MapState = record s {
              seen = s.seen ++ norm ∷ [];
              urls = s.urls ++ norm ∷ [];
              queue = queue;
            } in
            elim (Bool-cases (contains s.seen norm)) [
              | inl old ↦
                  rw (e, offer_all)
                    (rw (old, offer_all)
                      (offer_all-Inv depth links s (λ l norm m. found l norm (Memᴰ.tail m)) room
                        inv))
              | inr new ↦ elim (Bool-cases (leb max_urls (length (s.urls ++ norm ∷ [])))) [
                | inl full ↦
                    rw (e, offer_all)
                      (rw (new, offer_all)
                        (rw (full, offer_all)
                          (
                            push-Inv norm depth s.queue s new room reached inv.queue_found inv,
                            omega (arith, length-append {0} s.urls (norm ∷ [])),
                          )))
                | inr more ↦
                    rw (e, offer_all)
                      (rw (new, offer_all)
                        (rw (more, offer_all)
                          (let pushed =
                              push-Inv norm depth queue s new room reached
                                (All-append (λ i. Reached i.url i.depth) s.queue (item ∷ [])
                                  inv.queue_found (reached, tt))
                                inv in
                            let (kept, less) =
                              offer_all-Inv depth links s' (λ l m mem. found l m (Memᴰ.tail mem))
                                (ground arith) pushed in
                            (
                              kept,
                              omega (
                                arith,
                                length-append {0} s.urls (norm ∷ []),
                                length-append {0} s.queue (item ∷ []),
                              ),
                            ))))
              ]
            ]
      ]

  pop-Inv :
      (s : MapState) (item : Item) (rest : List Item)
      → s.queue ≡ item ∷ rest
      → Inv s
      → Inv (record s { queue = rest })
  pop-Inv s item rest q inv = record {
    same = inv.same;
    distinct = inv.distinct;
    in_limit = inv.in_limit;
    found = inv.found;
    queue_found = (subst (All (λ i. Reached i.url i.depth)) q inv.queue_found).1;
    rooted = inv.rooted;
  }

  take_links-Inv :
      (n : ℕ) (item : Item) (rest : List Item) (s : MapState)
      → s.queue ≡ item ∷ rest
      → item.depth < max_depth
      → length s.urls < max_urls
      → Inv s
      → let t =
          take_links net world seed opts max_urls max_depth item
            (world.scrape_page n item.url ("links" ∷ []) opts)
            (record s { queue = rest }) in
        Inv t × (length t.queue + length s.urls ≤ length t.urls + length rest)
  unfolding take_links
  take_links-Inv n item rest s q lt room inv =
      go (world.scrape_page n item.url ("links" ∷ []) opts) refl
    where
      go :
          (r : Scraped)
          → world.scrape_page n item.url ("links" ∷ []) opts ≡ r
          → let t =
              take_links net world seed opts max_urls max_depth item r
                (record s { queue = rest }) in
            Inv t × (length t.queue + length s.urls ≤ length t.urls + length rest)
      go (refused page x) e = (pop-Inv s item rest q inv, omega arith)
      go (scraped page) e =
          offer_all-Inv (suc item.depth) page.links (record s { queue = rest })
            (λ link norm m leads.
              follow n page link (subst (All (λ i. Reached i.url i.depth)) q inv.queue_found).0 e m
                leads lt)
            room (pop-Inv s item rest q inv)

  abbrev pub round : ℕ → MapState → Round MapState
  round = map_round net world seed opts max_urls max_depth

  abbrev pub measure : MapState → ℕ
  measure s = (max_urls - length s.urls) + length s.queue

  round-go_on :
      (n : ℕ) (s t : MapState) (item : Item) (rest : List Item)
      → s.queue ≡ item ∷ rest
      → round n s ≡ go_on t
      → (length s.urls < max_urls)
        × ((t ≡ record s { queue = rest })
            ⊎ (item.depth < max_depth)
              × (t
                  ≡ take_links net world seed opts max_urls max_depth item
                      (world.scrape_page n item.url ("links" ∷ []) opts)
                      (record s { queue = rest })))
  unfolding map_round
  round-go_on n s t item rest q h = (ground arith, ground arith)

  pub round-Inv :
      (n : ℕ) (s t : MapState) → Inv s → round n s ≡ go_on t → Inv t × (measure t < measure s)
  round-Inv n s t inv h = elim (List-cases s.queue) [
    | inl e ↦ absurd (unfold map_round in ground arith)
    | inr (item, rest, q) ↦
        let (room, next) = round-go_on n s t item rest q h in
        let popped = ap (λ (l : List Item). length l) q in
        elim next [
          | inl e ↦ rw e (pop-Inv s item rest q inv, omega arith)
          | inr (lt, e) ↦
              let (kept, less) = take_links-Inv n item rest s q lt room inv in
              rw e (kept, omega (arith, kept.in_limit))
        ]
  ]

  pub wait-Inv :
      (n : ℕ) (s t : MapState) (x : Error) → Inv s → round n s ≡ wait_error t x → t.urls ≡ s.urls
  unfolding map_round
  wait-Inv n s t x inv h = ground arith
