-- ===== src/Crawl/Urls/Laws.antt =====
-- What MapBFS (internal/crawl/crawl.go) returns.
use web_gobbler.Prelude.{
  ℕ, suc, ◌≤◌, ◌<◌, ℤ, String, none, some, List, [], ◌∷◌, ◌≡◌, refl, sym, ap, subst, ◌∙◌, ◌⊎◌, inl,
  inr, arith, length, All, Distinct,
}
use web_gobbler.Scraper.{Url, Net, Error, url_parse, Result}
use web_gobbler.Crawl.Frontier.{
  Options, World, LoopEnd, stopped, wait_failed, out_of_fuel, or_default, depth_or_default,
}
use web_gobbler.Crawl.Loop.{Ends, run_loop_rule}
use web_gobbler.Crawl.Reach.{start, Seeded, seed-cases}
use web_gobbler.Crawl.Urls.{MapState, map_loop, map_bfs, finish_map, start_map}
use web_gobbler.Crawl.Urls.Invariant.{Inv, InReach, round, measure, round-Inv, wait-Inv}

abbrev pub url_limit : Options → ℕ
url_limit opts = or_default opts.max_urls 50

abbrev pub depth_limit : Options → ℕ
depth_limit opts = depth_or_default opts.max_depth 2

or_default-pos : (n : ℤ) (d : ℕ) → 0 < d → 0 < or_default n d
or_default-pos n d h = ground arith

-- What the URLs of a map from a seed satisfy: the seed comes first, none is listed twice, there are
-- no more than the limit, and links lead to each within the depth limit and the seed's host.
pub record Mapped (net : Net) (world : World) (opts : Options) (seed : Url) (norm : String)
    (urls : List String) : Type 0 where
  pub rooted : (rest : List String) × (urls ≡ norm ∷ rest)
  pub distinct : Distinct urls
  pub in_limit : length urls ≤ url_limit opts
  pub reached :
      All (InReach net world seed norm opts.scrape (url_limit opts) (depth_limit opts)) urls

module _ (net : Net) (world : World) (opts : Options) (seed : Url) (norm : String) where
  abbrev Valid : MapState → Type 0
  Valid = Inv net world seed norm opts.scrape (url_limit opts) (depth_limit opts)

  -- The rate limiter stopped the map: its URLs are those of the round before.
  pub record Cut (s : MapState) (e : Error) : Type 0 where
    pub before : MapState
    pub valid : Valid before
    pub same_urls : s.urls ≡ before.urls

  Valid-Mapped : (s : MapState) → Valid s → Mapped net world opts seed norm s.urls
  Valid-Mapped s v = record {
    rooted = v.rooted;
    distinct = v.distinct;
    in_limit = v.in_limit;
    reached = v.found;
  }

  start-Valid : Valid (start_map norm)
  start-Valid = record {
    same = refl;
    distinct = (tt, tt);
    in_limit = or_default-pos opts.max_urls 50 (omega arith);
    found = ((0, start), tt);
    queue_found = (start, tt);
    rooted = ([], refl);
  }

  pub map_loop-Ends :
      Ends
        (round net world seed norm opts.scrape (url_limit opts) (depth_limit opts))
        Valid
        Cut
        (map_loop net world seed norm opts)
  unfolding map_loop
  map_loop-Ends =
      run_loop_rule _ Valid Cut
        (measure net world seed norm opts.scrape (url_limit opts) (depth_limit opts))
        (round-Inv net world seed norm opts.scrape (url_limit opts) (depth_limit opts))
        (λ n s t x v h. record {
          before = s;
          valid = v;
          same_urls =
              wait-Inv net world seed norm opts.scrape (url_limit opts) (depth_limit opts) n s t x v
                h;
        })
        (suc (url_limit opts)) 0 (start_map norm) (omega (arith, or_default-pos opts.max_urls 50))
        start-Valid

  finish-Mapped :
      (end : LoopEnd MapState)
      → Ends
          (round net world seed norm opts.scrape (url_limit opts) (depth_limit opts))
          Valid
          Cut
          end
      → (r : Result) × ((finish_map world end).result ≡ some r)
        × Mapped net world opts seed norm r.urls
  unfolding finish_map
  finish-Mapped (stopped n s) (v, h) = (_, refl, Valid-Mapped s v)
  finish-Mapped (wait_failed n s x) c = (
    _,
    refl,
    subst (Mapped net world opts seed norm) (sym c.same_urls) (Valid-Mapped c.before c.valid),
  )
  finish-Mapped out_of_fuel h = elim h [ ]

module _ (net : Net) (world : World) (seed : String) (opts : Options) where
  map_bfs-Seeded :
      (norm : String) (u : Url)
      → Seeded net seed norm u
      → map_bfs net world seed opts ≡ finish_map world (map_loop net world u norm opts)
  unfolding map_bfs
  map_bfs-Seeded norm u h = rw (h.normal, map_bfs) (rw (h.parses, map_bfs) refl)

  -- What MapBFS returns: where the seed has a normal form that parses, a result (with or without
  -- the rate limiter's error) whose URLs map the seed's host within the bounds; otherwise the parse
  -- error alone.
  pub map_bfs_returns :
      ((r : Result) × ((map_bfs net world seed opts).result ≡ some r)
        × (norm : String) × (u : Url) × Seeded net seed norm u
        × Mapped net world opts u norm r.urls)
      ⊎ (map_bfs net world seed opts ≡ record { result = none; error = some url_parse })
        × ((norm : String) (u : Url) → ¬ Seeded net seed norm u)
  map_bfs_returns = elim (seed-cases net seed) [
    | inl (norm, u, h) ↦
        let (r, e, mapped) =
          finish-Mapped net world opts u norm (map_loop net world u norm opts)
            (map_loop-Ends net world opts u norm) in
        inl (r, ap (λ x. x.result) (map_bfs-Seeded norm u h) ∙ e, norm, u, h, mapped)
    | inr (o, e, inl p) ↦ inr (unfold map_bfs in rw (e, p, map_bfs) refl, λ norm u h. cc (h.normal))
    | inr (o, e, inr (m, p, q)) ↦ inr (
      unfold map_bfs in rw (e ∙ p, map_bfs) (rw (q, map_bfs) refl),
      λ norm u h. cc (h.normal, h.parses),
    )
  ]
