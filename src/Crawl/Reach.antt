-- ===== src/Crawl/Reach.antt =====
-- The URLs that the crawler of internal/crawl/crawl.go may come to from its seed, described without
-- its queue.
use web_gobbler.Prelude.{
  ℕ, suc, ◌<◌, String, true, Option, none, some, List, Memᴰ, ◌≡◌, ◌⊎◌, refl, inl, inr, arith,
  Bool-cases, Option-cases,
}
use web_gobbler.Scraper.{Url, Net, ScrapeOptions, Result, scraped}
use web_gobbler.Crawl.Frontier.{World, normalize_url, same_host, admissible}

-- A link leads to a page: it has a normal form, which parses to a URL on the seed's host.
pub record Leads (net : Net) (seed : Url) (link norm : String) : Type 0 where
  pub normal : normalize_url net link ≡ some norm
  pub target : Url
  pub parses : net.parse norm ≡ some target
  pub on_host : net.equal_fold (net.hostname seed) (net.hostname target) ≡ true

pub admissible-Leads :
    (net : Net) (seed : Url) (link norm : String)
    → admissible net seed link ≡ some norm
    → Leads net seed link norm
unfolding admissible
admissible-Leads net seed link norm h = elim (Option-cases (normalize_url net link)) [
  | inl e ↦ absurd (ground arith)
  | inr (m, e) ↦ elim (Option-cases (net.parse m)) [
    | inl p ↦ absurd (ground arith)
    | inr (u, p) ↦ elim (Bool-cases (same_host net seed u)) [
      | inl same ↦ record {
        normal = ground arith;
        target = u;
        parses = ground arith;
        on_host = ground arith;
      }
      | inr other ↦ absurd (ground arith)
    ]
  ]
]

pub Leads-admissible :
    (net : Net) (seed : Url) (link norm : String)
    → Leads net seed link norm
    → admissible net seed link ≡ some norm
unfolding admissible
Leads-admissible net seed link norm l =
    rw (l.normal, admissible) (rw (l.parses, admissible) (rw l.on_host refl))

-- The seed has a normal form, which parses.
pub record Seeded (net : Net) (seed norm : String) (u : Url) : Type 0 where
  pub normal : normalize_url net seed ≡ some norm
  pub parses : net.parse norm ≡ some u

pub seed-cases :
    (net : Net) (seed : String)
    → ((norm : String) × (u : Url) × Seeded net seed norm u)
      ⊎ ((norm : Option String) × (normalize_url net seed ≡ norm)
          × ((norm ≡ none) ⊎ ((n : String) × (norm ≡ some n) × (net.parse n ≡ none))))
seed-cases net seed = elim (Option-cases (normalize_url net seed)) [
  | inl e ↦ inr (none, e, inl refl)
  | inr (norm, e) ↦ elim (Option-cases (net.parse norm)) [
    | inl p ↦ inr (some norm, e, inr (norm, refl, p))
    | inr (u, p) ↦ inl (norm, u, record { normal = e; parses = p })
  ]
]

module _ (net : Net) (world : World) (seed : Url) (seed_norm : String) (opts : ScrapeOptions)
    (extract : List String) (max_depth : ℕ) where
  -- The URLs that a crawl may visit, with their depths: the seed, and what the links of a page
  -- that was scraped above the greatest depth lead to.
  pub data Found : String → ℕ → Type 0 where
    start : Found seed_norm 0
    follow :
        {url : String} {depth : ℕ} (n : ℕ) (page : Result) (link : String) {norm : String}
        → Found url depth
        → world.scrape_page n url extract opts ≡ scraped page
        → Memᴰ link page.links
        → Leads net seed link norm
        → depth < max_depth
        → Found norm (suc depth)
