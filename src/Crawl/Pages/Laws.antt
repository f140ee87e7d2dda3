-- ===== src/Crawl/Pages/Laws.antt =====
-- What CrawlBFS (internal/crawl/crawl.go) returns.
use mathlib.Core.List.{append-nil, map-map}
use mathlib.Core.List.Memᴰ
use mathlib.Core.Option.{some-injective}
use web_gobbler.Prelude.{
  ℕ, ◌≤◌, String, none, some, List, [], map, map-append, Memᴰ, ◌≡◌, ◌≢◌, refl, sym, ap, subst, ◌∙◌,
  ◌⊎◌, inl, inr, arith, length, All, All-mem, Distinct, Distinct-append_left, Ascending,
  Ascending-append_left,
}
use web_gobbler.Scraper.{Url, Net, url_parse, PageResult, Result}
use web_gobbler.Crawl.Frontier.{Options, World, LoopEnd, stopped, wait_failed, out_of_fuel}
use web_gobbler.Crawl.Loop.{Ends}
use web_gobbler.Crawl.Reach.{start, follow, Seeded, seed-cases}
use web_gobbler.Crawl.Pages.{CrawlState, crawl_loop, crawl_bfs, finish_crawl}
use web_gobbler.Crawl.Pages.Invariant.{page_urls}
use web_gobbler.Crawl.Pages.Offers.{page_entries, item_entries, entries, depths, Listed}
use web_gobbler.Crawl.Pages.Layers.{Closed}
use web_gobbler.Crawl.Pages.Between.{
  page_limit, depth_limit, extract_types, Reached, IsStable, Between, Cut, round, crawl_loop-Ends,
}

-- What the pages of a crawl from a seed satisfy.
pub record Explored (net : Net) (world : World) (opts : Options) (seed : Url) (norm : String)
    (pages : List PageResult) : Type 0 where
  pub in_limit : length pages ≤ page_limit opts
  pub distinct : Distinct (page_urls pages)
  pub reached : All (λ p. Reached net world opts seed norm p.url p.depth) pages
  pub by_depth : Ascending (map (λ p. p.depth) pages)

Between-Explored :
    (net : Net) (world : World) (opts : Options) (seed : Url) (norm : String) (s : CrawlState)
    → Between net world opts seed norm s
    → Explored net world opts seed norm s.pages
Between-Explored net world opts seed norm s b = record {
  in_limit = b.in_limit;
  distinct = Distinct-append_left _ _ (subst Distinct (sym b.valid.accounted) b.valid.distinct);
  reached = b.valid.pages_found;
  by_depth = subst Ascending (map-map (λ e. e.1) (λ p. (p.url, p.depth)) s.pages) (
      Ascending-append_left _ (depths (item_entries s.queue))
        (subst Ascending (map-append _ (page_entries s.pages) _) b.layered.ordered));
}

module _ (net : Net) (world : World) (opts : Options) (seed : Url) (norm : String) where
  pub finish-Explored :
      (end : LoopEnd CrawlState)
      → Ends
          (round net world opts seed norm)
          (Between net world opts seed norm)
          (Cut net world opts seed norm)
          end
      → (r : Result) → (finish_crawl world end).result ≡ some r
      → Explored net world opts seed norm r.pages
  unfolding finish_crawl
  finish-Explored (stopped n s) (b, h) r e =
      let same : s.pages ≡ r.pages = ap (λ x. x.pages) (some-injective _ _ e) in
      subst (Explored net world opts seed norm) same (Between-Explored net world opts seed norm s b)
  finish-Explored (wait_failed n s x) c r e =
      let same : s.pages ≡ r.pages = ap (λ x. x.pages) (some-injective _ _ e) in
      subst (Explored net world opts seed norm) (sym c.same_pages ∙ same)
        (Between-Explored net world opts seed norm c.before c.between)
  finish-Explored out_of_fuel h r e = elim h [ ]

  finish_result :
      (end : LoopEnd CrawlState)
      → end ≢ out_of_fuel
      → (r : Result) × ((finish_crawl world end).result ≡ some r)
  unfolding finish_crawl
  finish_result (stopped n s) h = (_, refl)
  finish_result (wait_failed n s x) h = (_, refl)
  finish_result out_of_fuel h = absurd (h refl)

  finished : (s : CrawlState) → s.queue ≡ [] → entries s ≡ page_entries s.pages
  finished s q = rw q (append-nil (page_entries s.pages))

  -- Links in reach of a finished frontier are pages.
  pub Reached-Listed :
      (s : CrawlState)
      → Between net world opts seed norm s
      → IsStable net world opts seed norm
      → s.queue ≡ []
      → {url : String} {depth : ℕ} → Reached net world opts seed norm url depth
      → Listed url depth (page_entries s.pages)
  Reached-Listed s b stable q start =
      (0, subst (Memᴰ (norm, 0)) (finished s q) b.layered.rooted, omega arith)
  Reached-Listed s b stable q
        (follow {url} {depth} n page link {norm = norm'} f scrape m leads lt) =
      let (d, listed, le) = Reached-Listed s b stable q f in
      let (p, mem, same) = Memᴰ.of_map (λ p. (p.url, p.depth)) s.pages listed in
      let same_url : p.url ≡ url = ap (λ e. e.0) same in
      let same_depth : p.depth ≡ d = ap (λ e. e.1) same in
      let (d', listed', le') =
        All-mem
          (λ p'.
            Closed net world seed norm opts.scrape (extract_types opts) (page_limit opts)
              (depth_limit opts) p' (entries s))
          s.pages (b.layered.closed stable) mem n page link norm' (rw same_url scrape) (omega arith)
          m leads in
      (d', subst (Memᴰ (norm', d')) (finished s q) listed', omega arith)

module _ (net : Net) (world : World) (seed : String) (opts : Options) where
  pub crawl_bfs-Seeded :
      (norm : String) (u : Url)
      → Seeded net seed norm u
      → crawl_bfs net world seed opts ≡ finish_crawl world (crawl_loop net world u norm opts)
  unfolding crawl_bfs
  crawl_bfs-Seeded norm u h = rw (h.normal, crawl_bfs) (rw (h.parses, crawl_bfs) refl)

  -- The loop of a crawl ends before its fuel does, whatever the site, the context, the cancel check
  -- and the rate limiter do.
  pub crawl_terminates : (u : Url) (norm : String) → crawl_loop net world u norm opts ≢ out_of_fuel
  crawl_terminates u norm e =
      subst
        (Ends (round net world opts u norm) (Between net world opts u norm)
          (Cut net world opts u norm))
        e (crawl_loop-Ends net world opts u norm)

  -- What CrawlBFS returns: where the seed has a normal form that parses, a result (with or without
  -- the rate limiter's error) whose pages explore the seed's host within the bounds; otherwise the
  -- parse error alone.
  pub crawl_bfs_returns :
      ((r : Result) × ((crawl_bfs net world seed opts).result ≡ some r)
        × (norm : String) × (u : Url) × Seeded net seed norm u
        × Explored net world opts u norm r.pages)
      ⊎ (crawl_bfs net world seed opts ≡ record { result = none; error = some url_parse })
        × ((norm : String) (u : Url) → ¬ Seeded net seed norm u)
  crawl_bfs_returns = elim (seed-cases net seed) [
    | inl (norm, u, h) ↦
        let end = crawl_loop net world u norm opts in
        let (r, e) = finish_result net world opts u norm end (crawl_terminates u norm) in
        inl (
          r,
          ap (λ x. x.result) (crawl_bfs-Seeded norm u h) ∙ e,
          norm,
          u,
          h,
          finish-Explored net world opts u norm end (crawl_loop-Ends net world opts u norm) r e,
        )
    | inr (o, e, inl p) ↦
        inr (unfold crawl_bfs in rw (e, p, crawl_bfs) refl, λ norm u h. cc (h.normal))
    | inr (o, e, inr (m, p, q)) ↦ inr (
      unfold crawl_bfs in rw (e ∙ p, crawl_bfs) (rw (q, crawl_bfs) refl),
      λ norm u h. cc (h.normal, h.parses),
    )
  ]
