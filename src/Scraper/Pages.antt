-- ===== src/Scraper/Pages.antt =====
-- What ScrapePage of internal/scraper/scraper.go returns.
use Prim.Native.String.{len}
use web_gobbler.Prelude.{
  ℕ, ◌≤◌, ◌<◌, String, str_eq, str_eq_iff_from, contains, len-cut, Bool, true, false, ◌||◌, Option,
  none, some, List, [], ◌∷◌, ◌≡◌, ◌≢◌, ◌⊎◌, inl, inr, refl, ◌∙◌, arith, All, Bool-cases,
  Option-cases, if◌then◌else◌,
}
use web_gobbler.Scraper.{
  Url, Net, Error, http_failed, parse_failure, ScrapeOptions, Result, scraped, refused,
}
use web_gobbler.Scraper.Addresses.{Resolver, Checked, safe, unsafe, resolve_and_check_url}
use web_gobbler.Scraper.Markdown.{Spaces}
use web_gobbler.Scraper.Fetch.{Web, Fetched, fetched, not_fetched, http_fetch, browser_fetch}
use web_gobbler.Scraper.Page.{
  Goquery, extract_set, max_stored_html, truncate_html, selection_html, strip_noise, main_content,
  body_of, extract_headers, extract_paragraphs, texts_of, page_result, failed_result, fetch_page,
  scrape_body, scrape_page, options_or,
}
use web_gobbler.Scraper.Fetched.{IsFetched, http_fetch-IsFetched, browser_fetch-IsFetched}

truncate_html-bound : (s : String) → len (truncate_html s).0 ≤ max_stored_html
unfolding truncate_html
truncate_html-bound s = ground (arith, len-cut max_stored_html s)

checked-cases : (c : Checked) → ((e : Error) × (c ≡ unsafe e)) ⊎ ((base : Url) × (c ≡ safe base))
checked-cases (safe base) = inr (base, refl)
checked-cases (unsafe e) = inl (e, refl)

not_cut :
    (a b x y : Bool)
    → (a || b) ≡ false
    → ((if a then x else false) || (if b then y else false)) ≡ false
not_cut a b x y h = ground (arith, h)

module _ {D : Type 0} (g : Goquery D) (net : Net) (sp : Spaces) (dns : Resolver) (web : Web)
    (to_lower : String → String) (elapsed : ℕ) (raw : String) (types : List String) where
  abbrev pub has : String → Bool
  has kind = contains (extract_set to_lower types) kind

  -- What was not asked for is not there.
  abbrev pub Only : Bool → Type 0 → Type 0
  Only wanted Empty = wanted ≡ false → Empty

  pub record IsExtract (r : Result) : Type 0 where
    pub status : (200 ≤ r.http_status) × (r.http_status < 300)
    pub duration : r.duration_ms ≡ elapsed
    pub headers_there : All (λ t. t ≢ "") r.headers
    pub paragraphs_there : All (λ t. t ≢ "") r.paragraphs
    pub html_bound : len r.html ≤ max_stored_html
    pub raw_html_bound : len r.raw_html ≤ max_stored_html
    pub only_links : Only (has "links" || has "all") (r.links ≡ [])
    pub only_headers : Only (has "headers" || has "all") (r.headers ≡ [])
    pub only_paragraphs : Only (has "paragraphs" || has "all") (r.paragraphs ≡ [])
    pub only_markdown : Only (has "markdown" || has "all") (r.markdown ≡ "")
    pub only_html : Only (has "html" || has "all") (r.html ≡ "")
    pub only_raw_html : Only (has "raw_html") (r.raw_html ≡ "")
    pub whole : Only ((has "html" || has "all") || has "raw_html") (r.truncated ≡ false)

  texts_of-All : (ds : List D) → All (λ t. t ≢ "") (texts_of g net sp ds)
  texts_of-All [] = tt
  texts_of-All (d ∷ ds) = elim (Bool-cases (str_eq (sp.trim_space (g.text d)) "")) [
    | inl blank ↦ rw blank (texts_of-All ds)
    | inr there ↦ rw there (
      λ h. ground (arith, there, str_eq_iff_from (sp.trim_space (g.text d)) "" h),
      texts_of-All ds,
    )
  ]

  if_asked : {A : Type 0} (P : A → Type 0) (b : Bool) (a d : A) → P a → P d → P (if b then a else d)
  if_asked P true a d p q = p
  if_asked P false a d p q = q

  page_result-IsExtract :
      (doc : D) (base : Url) (status : ℕ)
      → (200 ≤ status) × (status < 300)
      → IsExtract (page_result g net sp has doc base status elapsed)
  unfolding page_result
  page_result-IsExtract doc base status fine =
      let main = selection_html g net sp (strip_noise g net sp (main_content g net sp doc)) in
      let body = selection_html g net sp (body_of g net sp doc) in
      record {
        status = fine;
        duration = refl;
        headers_there =
            if_asked (All (λ t. t ≢ "")) (has "headers" || has "all") (extract_headers g net sp doc)
              [] (texts_of-All (g.each (g.find "h1,h2,h3,h4" doc))) tt;
        paragraphs_there =
            if_asked (All (λ t. t ≢ "")) (has "paragraphs" || has "all")
              (extract_paragraphs g net sp doc) [] (texts_of-All (g.each (g.find "p" doc))) tt;
        html_bound =
            if_asked (λ t. len t ≤ max_stored_html) (has "html" || has "all") (truncate_html main).0
              "" (truncate_html-bound main) (omega arith);
        raw_html_bound =
            if_asked (λ t. len t ≤ max_stored_html) (has "raw_html") (truncate_html body).0 ""
              (truncate_html-bound body) (omega arith);
        only_links = λ no_one. rw no_one refl;
        only_headers = λ no_one. rw no_one refl;
        only_paragraphs = λ no_one. rw no_one refl;
        only_markdown = λ no_one. rw no_one refl;
        only_html = λ no_one. rw no_one refl;
        only_raw_html = λ no_one. rw no_one refl;
        whole = λ no_one.
            not_cut (has "html" || has "all") (has "raw_html") (truncate_html main).1
              (truncate_html body).1 no_one;
      }

  fetch_page-IsFetched :
      (opts : ScrapeOptions)
      → IsFetched opts (fetch_page g net sp dns web to_lower elapsed raw opts)
  fetch_page-IsFetched opts =
      if_asked (IsFetched opts) opts.render_js (browser_fetch web raw opts)
        (http_fetch web dns raw opts) (browser_fetch-IsFetched web raw opts)
        (http_fetch-IsFetched web dns raw opts)

  scrape_body_lem :
      (base : Url) (opts : ScrapeOptions) (got : Fetched)
      → IsFetched opts got
      → let out = scrape_body g net sp dns web to_lower elapsed types base got in
        ((status : ℕ) × (e : Error) × (out
            ≡ refused (some (failed_result g net sp status elapsed)) e)
          × ((n : ℕ) → e ≡ http_failed n → (n ≡ status) × ((status < 200) ⊎ (300 ≤ status))))
        ⊎ ((r : Result) × (out ≡ scraped r) × IsExtract r)
  unfolding scrape_body
  scrape_body_lem base opts (not_fetched status e) fine = inl (status, e, refl, fine)
  scrape_body_lem base opts (fetched body status) (low, high, fits) =
      elim (Option-cases (g.parse body)) [
        | inl e ↦ inl (status, parse_failure, rw (e, scrape_body) refl, λ n h. cc h)
        | inr (doc, e) ↦ inr (
          page_result g net sp has doc base status elapsed,
          rw (e, scrape_body) refl,
          page_result-IsExtract doc base status (low, high),
        )
      ]

  -- Every way in which ScrapePage ends. A URL that the checks refuse gives their error and no
  -- result. A fetch that fails, or a page that cannot be parsed, gives the error and a result of
  -- the status and the duration alone, and ErrHTTPFailed is given for a status outside 200 to 299
  -- only. Otherwise the result has a status of success; its headers and paragraphs are not empty
  -- texts, its HTML fields at most 512 KiB, and what was not asked for is not there.
  pub scrape_page_lem :
      (opts : Option ScrapeOptions)
      → let out = scrape_page g net sp dns web to_lower elapsed raw types opts in
        ((e : Error) × (resolve_and_check_url net dns raw ≡ unsafe e) × (out ≡ refused none e))
        ⊎ ((base : Url) × (resolve_and_check_url net dns raw ≡ safe base)
            × (((status : ℕ) × (e : Error) × (out
                    ≡ refused (some (failed_result g net sp status elapsed)) e)
                  × ((n : ℕ)
                      → e ≡ http_failed n
                      → (n ≡ status) × ((status < 200) ⊎ (300 ≤ status))))
                ⊎ ((r : Result) × (out ≡ scraped r) × IsExtract r)))
  unfolding scrape_page
  scrape_page_lem opts = elim (checked-cases (resolve_and_check_url net dns raw)) [
    | inl (e, at) ↦ inl (e, at, rw (at, scrape_page) refl)
    | inr (base, at) ↦
        let got =
          fetch_page g net sp dns web to_lower elapsed raw
            (options_or g net sp dns web to_lower elapsed opts) in
        let same : scrape_page g net sp dns web to_lower elapsed raw types opts
            ≡ scrape_body g net sp dns web to_lower elapsed types base got =
          rw (at, scrape_page) refl in
        elim (scrape_body_lem base (options_or g net sp dns web to_lower elapsed opts) got
          (fetch_page-IsFetched (options_or g net sp dns web to_lower elapsed opts))) [
            | inl (status, e, out, why) ↦ inr (base, at, inl (status, e, same ∙ out, why))
            | inr (r, out, good) ↦ inr (base, at, inr (r, same ∙ out, good))
          ]
  ]
