-- ===== src/Crawl/Pages/Complete.antt =====
-- A crawl of CrawlBFS (internal/crawl/crawl.go) that was not cut short has visited all that is in
-- reach, by a shortest way, and counts its pages.
use mathlib.Core.List.Memᴰ
use mathlib.Core.Option.{some-injective}
use web_gobbler.Prelude.{
  ℕ, ◌≤◌, ◌<◌, String, false, none, some, List, [], ◌∷◌, Memᴰ, ◌≡◌, ◌≢◌, refl, sym, ap, subst, ◌∙◌,
  ◌⊎◌, inl, inr, arith, length, All-mem, Distinct,
}
use web_gobbler.Scraper.{Url, Net, PageResult, Result}
use web_gobbler.Crawl.Frontier.{
  Options, World, LoopEnd, stopped, wait_failed, out_of_fuel, is_cancelled,
}
use web_gobbler.Crawl.Loop.{Ends}
use web_gobbler.Crawl.Reach.{Seeded}
use web_gobbler.Crawl.Pages.{CrawlState, crawl_loop, crawl_bfs, finish_crawl, first_status}
use web_gobbler.Crawl.Pages.Invariant.{page_urls}
use web_gobbler.Crawl.Pages.Rounds.{round-halt}
use web_gobbler.Crawl.Pages.Offers.{page_entries, Listed}
use web_gobbler.Crawl.Pages.Between.{
  page_limit, depth_limit, extract_types, Reached, IsStable, Between, Cut, round, crawl_loop-Ends,
}
use web_gobbler.Crawl.Pages.Laws.{Reached-Listed, crawl_bfs-Seeded, finish-Explored}

-- Neither the context nor a cancellation stops the loop.
pub record Undisturbed (world : World) : Type 0 where
  pub live : (n : ℕ) → world.ctx_done n ≡ false
  pub wanted : (n : ℕ) → is_cancelled world.cancel_check n ≡ false

-- The counts of a result.
pub record Counted (r : Result) : Type 0 where
  pub crawled : r.pages_crawled ≡ length r.pages
  pub skipped : r.pages_skipped ≤ r.pages_crawled
  pub status : r.http_status ≡ first_status r.pages

module _ (net : Net) (world : World) (opts : Options) (u : Url) (norm : String) where
  abbrev Left : LoopEnd CrawlState → Type 0
  Left =
      Ends (round net world opts u norm) (Between net world opts u norm) (Cut net world opts u norm)

  finish-Listed :
      (end : LoopEnd CrawlState)
      → Left end
      → (r : Result) → finish_crawl world end ≡ record { result = some r; error = none }
      → IsStable net world opts u norm
      → Undisturbed world
      → length r.pages < page_limit opts
      → {url : String} {depth : ℕ} → Reached net world opts u norm url depth
      → Listed url depth (page_entries r.pages)
  unfolding finish_crawl
  finish-Listed (stopped n s) (b, h) r e stable calm room {url} {depth} f =
      let same : s.pages ≡ r.pages =
        ap (λ x. x.pages) (some-injective _ _ (ap (λ x. x.result) e)) in
      let room' : length s.pages < page_limit opts = rw same room in
      let q : s.queue ≡ [] = ground (
        arith,
        round-halt net world u opts.scrape (extract_types opts) (page_limit opts) (depth_limit opts)
            n s h,
        calm.live n,
        calm.wanted n,
      ) in
      subst (λ ps. Listed url depth (page_entries ps)) same
        (Reached-Listed net world opts u norm s b stable q f)
  finish-Listed (wait_failed n s x) c r e stable calm room f = cc (ap (λ x. x.error) e)
  finish-Listed out_of_fuel h r e stable calm room f = elim h [ ]

  finish-Counted :
      (end : LoopEnd CrawlState)
      → Left end
      → (r : Result) → finish_crawl world end ≡ record { result = some r; error = none }
      → Counted r
  unfolding finish_crawl
  finish-Counted (stopped n s) (b, h) r e =
      subst Counted (some-injective _ _ (ap (λ x. x.result) e))
        (record { crawled = refl; skipped = b.skips; status = refl })
  finish-Counted (wait_failed n s x) c r e = cc (ap (λ x. x.error) e)
  finish-Counted out_of_fuel h r e = elim h [ ]

mem_urls :
    (ps : List PageResult) (url : String) (d : ℕ)
    → Memᴰ (url, d) (page_entries ps)
    → Memᴰ url (page_urls ps)
mem_urls ps url d m =
    let (p, mem, e) = Memᴰ.of_map (λ p. (p.url, p.depth)) ps m in
    subst (λ v. Memᴰ v (page_urls ps)) (ap (λ x. x.0) e) (Memᴰ.map (λ p. p.url) mem)

-- Of two entries for a URL in a list with distinct URLs the depths agree.
unique_depth :
    (ps : List PageResult) (url : String) (d k : ℕ)
    → Distinct (page_urls ps)
    → Memᴰ (url, d) (page_entries ps)
    → Memᴰ (url, k) (page_entries ps)
    → d ≡ k
unique_depth [] url d k h m m' = absurd (Memᴰ.not-nil m)
unique_depth (p ∷ ps) url d k (h, hs) m m' =
    go (Memᴰ.cases_cons m) (Memᴰ.cases_cons m') (unique_depth ps url d k hs)
  where
    clash : (j : ℕ) → url ≡ p.url → Memᴰ (url, j) (page_entries ps) → ⊥
    clash j e n = All-mem (λ y. p.url ≢ y) (page_urls ps) h (mem_urls ps url j n) (sym e)

    go :
        (◌≡◌ {A = String × ℕ} (url, d) (p.url, p.depth)) ⊎ Memᴰ (url, d) (page_entries ps)
        → (◌≡◌ {A = String × ℕ} (url, k) (p.url, p.depth)) ⊎ Memᴰ (url, k) (page_entries ps)
        → (Memᴰ (url, d) (page_entries ps) → Memᴰ (url, k) (page_entries ps) → d ≡ k)
        → d ≡ k
    go (inl e) (inl e') later = ap (λ x. x.1) e ∙ sym (ap (λ x. x.1) e')
    go (inl e) (inr n) later = absurd (clash k (ap (λ x. x.0) e) n)
    go (inr n) (inl e) later = absurd (clash d (ap (λ x. x.0) e) n)
    go (inr n) (inr n') later = later n n'

-- A page of a crawl is at the end of a shortest way.
pub record Visited (pages : List PageResult) (url : String) (depth : ℕ) : Type 0 where
  pub page : PageResult
  pub listed : Memᴰ page pages
  pub same_url : page.url ≡ url
  pub no_deeper : page.depth ≤ depth

module _ (net : Net) (world : World) (seed : String) (opts : Options) (norm : String) (u : Url)
    (r : Result) where
  crawl_bfs-covers :
      Seeded net seed norm u
      → crawl_bfs net world seed opts ≡ record { result = some r; error = none }
      → IsStable net world opts u norm
      → Undisturbed world
      → length r.pages < page_limit opts
      → ((url : String) (depth : ℕ)
          → Reached net world opts u norm url depth
          → Visited r.pages url depth)
        × ((p : PageResult) (depth : ℕ)
            → Memᴰ p r.pages
            → Reached net world opts u norm p.url depth
            → p.depth ≤ depth)
  crawl_bfs-covers h e stable calm room =
      let end = crawl_loop net world u norm opts in
      let left = crawl_loop-Ends net world opts u norm in
      let e' = sym (crawl_bfs-Seeded net world seed opts norm u h) ∙ e in
      let explored = finish-Explored net world opts u norm end left r (ap (λ x. x.result) e') in
      (
        λ url depth f.
            let (d, listed, le) =
              finish-Listed net world opts u norm end left r e' stable calm room f in
            let (p, mem, same) = Memᴰ.of_map (λ p. (p.url, p.depth)) r.pages listed in
            let same_depth : p.depth ≡ d = ap (λ x. x.1) same in
            record {
              page = p;
              listed = mem;
              same_url = ap (λ x. x.0) same;
              no_deeper = omega arith;
            },
        λ p depth mem f.
            let (d, listed, le) =
              finish-Listed net world opts u norm end left r e' stable calm room f in
            let same_depth =
              unique_depth r.pages p.url d p.depth explored.distinct listed
                (Memᴰ.map (λ q. (q.url, q.depth)) mem) in
            omega arith,
      )

  -- A crawl without error, that no limit on pages, context or cancellation stopped, of a site that
  -- answers alike each time: every URL in reach of the seed is a page, at most as deep as any way
  -- of links to it within the depth limit.
  pub crawl_bfs_complete :
      Seeded net seed norm u
      → crawl_bfs net world seed opts ≡ record { result = some r; error = none }
      → IsStable net world opts u norm
      → Undisturbed world
      → length r.pages < page_limit opts
      → (url : String) (depth : ℕ) → Reached net world opts u norm url depth
      → Visited r.pages url depth
  crawl_bfs_complete h e stable calm room = (crawl_bfs-covers h e stable calm room).0

  -- A crawl that returns no error counts its pages, no more of them as skipped, and has the status
  -- of the first.
  pub crawl_bfs_counts :
      Seeded net seed norm u
      → crawl_bfs net world seed opts ≡ record { result = some r; error = none }
      → Counted r
  crawl_bfs_counts h e =
      finish-Counted net world opts u norm (crawl_loop net world u norm opts)
        (crawl_loop-Ends net world opts u norm) r
        (sym (crawl_bfs-Seeded net world seed opts norm u h) ∙ e)
