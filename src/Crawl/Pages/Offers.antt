-- ===== src/Crawl/Pages/Offers.antt =====
-- The link loop of CrawlBFS (internal/crawl/crawl.go): offering the links of a page lists every URL
-- that they lead to, and keeps what was listed sorted by depth.
use mathlib.Core.List.Memᴰ
use web_gobbler.Prelude.{
  ℕ, ◌≤◌, String, some, List, [], ◌∷◌, ◌++◌, map, map-append, append_assoc, Memᴰ, ◌≡◌, sym, ap,
  subst, ◌∙◌, inl, inr, arith, All, All-append, All-mem, Ascending, Ascending-concat, contains,
  contains-true, Bool-cases, Option-cases,
}
use web_gobbler.Scraper.{Url, Net, PageResult}
use web_gobbler.Crawl.Frontier.{Item, admissible}
use web_gobbler.Crawl.Pages.{CrawlState, offer, offer_all}
use web_gobbler.Crawl.Reach.{Leads, Leads-admissible}

abbrev pub page_entries : List PageResult → List (String × ℕ)
page_entries ps = map (λ p. (p.url, p.depth)) ps

abbrev pub item_entries : List Item → List (String × ℕ)
item_entries is = map (λ i. (i.url, i.depth)) is

-- All URLs that were listed, visited or not, with their depths.
abbrev pub entries : CrawlState → List (String × ℕ)
entries s = page_entries s.pages ++ item_entries s.queue

abbrev pub depths : List (String × ℕ) → List ℕ
depths es = map (λ e. e.1) es

abbrev pub Listed : String → ℕ → List (String × ℕ) → Type 0
Listed url depth es = (d : ℕ) × Memᴰ (url, d) es × (d ≤ depth)

-- The frontier while the links of a page are offered at `depth`.
pub record Sorted (depth : ℕ) (s : CrawlState) : Type 0 where
  pub accounted : map (λ e. e.0) (entries s) ≡ s.seen
  pub ordered : Ascending (depths (entries s))
  pub narrow : All (λ e. e.1 ≤ depth) (entries s)

-- What offering some links has done.
pub record Offered (net : Net) (seed : Url) (depth : ℕ) (links : List String) (s t : CrawlState)
    : Type 0 where
  pub sorted : Sorted depth t
  pub grown : (e : String × ℕ) → Memᴰ e (entries s) → Memᴰ e (entries t)
  pub covers :
      (link norm : String)
      → Memᴰ link links
      → Leads net seed link norm
      → Listed norm depth (entries t)

mem-fst :
    (url : String) (es : List (String × ℕ))
    → Memᴰ url (map (λ e. e.0) es)
    → (d : ℕ) × Memᴰ (url, d) es
mem-fst url es m =
    let (e, h, p) = Memᴰ.of_map (λ e. e.0) es m in (e.1, subst (λ u. Memᴰ (u, e.1) es) p h)

abbrev push : String → ℕ → CrawlState → CrawlState
push norm depth s = record s {
  seen = s.seen ++ norm ∷ [];
  queue = s.queue ++ record { url = norm; depth = depth } ∷ [];
}

entries-push :
    (norm : String) (depth : ℕ) (s : CrawlState)
    → entries s ++ (norm, depth) ∷ [] ≡ entries (push norm depth s)
entries-push norm depth s = simp (map-append, append_assoc)

All-depths :
    (depth : ℕ) (es : List (String × ℕ))
    → All (λ e. e.1 ≤ depth) es
    → All (λ d. d ≤ depth) (depths es)
All-depths depth [] h = tt
All-depths depth (e ∷ es) (h, hs) = (h, All-depths depth es hs)

Sorted-push :
    (norm : String) (depth : ℕ) (s : CrawlState) → Sorted depth s → Sorted depth (push norm depth s)
Sorted-push norm depth s h =
    let es = entries s in
    let q = entries-push norm depth s in
    record {
      accounted =
          subst (λ l. map (λ e. e.0) l ≡ s.seen ++ norm ∷ []) q
            (map-append _ es _ ∙ ap (λ l. l ++ norm ∷ []) h.accounted);
      ordered =
          subst (λ l. Ascending (depths l)) q
            (subst Ascending (sym (map-append _ es _))
              (Ascending-concat (depths es) depth (All-depths depth es h.narrow) h.ordered));
      narrow =
          subst (All (λ e. e.1 ≤ depth)) q
            (All-append (λ e. e.1 ≤ depth) es _ h.narrow (omega arith, tt));
    }

module _ (net : Net) (seed : Url) where
  -- Offering one link leaves a state that lists what it had and what the link leads to.
  Offered-one :
      (depth : ℕ) (link : String) (s t : CrawlState)
      → Sorted depth t
      → ((e : String × ℕ) → Memᴰ e (entries s) → Memᴰ e (entries t))
      → ((norm : String) → admissible net seed link ≡ some norm → Listed norm depth (entries t))
      → Offered net seed depth (link ∷ []) s t
  Offered-one depth link s t sorted grown covers = record {
    sorted = sorted;
    grown = grown;
    covers = λ l norm m leads. covers norm (
        Leads-admissible net seed link norm
          (subst (λ x. Leads net seed x norm) (Memᴰ.eq_of_singleton m) leads));
  }

  offer-Offered :
      (depth : ℕ) (link : String) (s : CrawlState)
      → Sorted depth s
      → Offered net seed depth (link ∷ []) s (offer net seed depth link s)
  offer-Offered depth link s h = elim (Option-cases (admissible net seed link)) [
    | inl e ↦
        unfold offer in
        rw (e, offer) (Offered-one depth link s s h (λ x m. m) (λ norm p. absurd (ground arith)))
    | inr (norm, e) ↦ elim (Bool-cases (contains s.seen norm)) [
      | inl old ↦
          unfold offer in
          rw (e, offer, old)
            (Offered-one depth link s s h (λ x m. m)
              (λ m p.
                let (d, listed) =
                  mem-fst norm (entries s)
                    (subst (Memᴰ norm) (sym h.accounted) (contains-true s.seen norm old)) in
                let same : norm ≡ m = ground arith in
                (
                  d,
                  subst (λ u. Memᴰ (u, d) (entries s)) same listed,
                  All-mem (λ x. x.1 ≤ depth) (entries s) h.narrow listed,
                )))
      | inr new ↦
          let q = entries-push norm depth s in
          unfold offer in
          rw (e, offer, new)
            (Offered-one depth link s (push norm depth s) (Sorted-push norm depth s h)
              (λ x m. subst (Memᴰ x) q (Memᴰ.append_left _ m))
              (λ m p.
                let same : m ≡ norm = ground arith in
                (
                  depth,
                  subst (Memᴰ (m, depth)) q
                      (Memᴰ.append_right (entries s) (Memᴰ.head (ap (λ u. (u, depth)) same))),
                  omega arith,
                )))
    ]
  ]

  pub offer_all-Offered :
      (depth : ℕ) (links : List String) (s : CrawlState)
      → Sorted depth s
      → Offered net seed depth links s (offer_all net seed depth links s)
  unfolding offer_all
  offer_all-Offered depth [] s h = record {
    sorted = h;
    grown = λ e m. m;
    covers = λ link norm m. absurd (Memᴰ.not-nil m);
  }
  offer_all-Offered depth (link ∷ links) s h =
      let one = offer-Offered depth link s h in
      let all = offer_all-Offered depth links (offer net seed depth link s) one.sorted in
      record {
        sorted = all.sorted;
        grown = λ e m. all.grown e (one.grown e m);
        covers = λ l norm m leads. elim (Memᴰ.cases_cons m) [
          | inl same ↦
              let (d, listed, le) = one.covers l norm (Memᴰ.head same) leads in
              (d, all.grown (norm, d) listed, le)
          | inr later ↦ all.covers l norm later leads
        ];
      }
