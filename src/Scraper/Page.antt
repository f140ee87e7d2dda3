-- ===== src/Scraper/Page.antt =====
-- internal/scraper/scraper.go: ScrapePage and what it takes out of a document, over the HTML
-- library.
use Prim.Native.String.{len}
use web_gobbler.Prelude.{
  ℕ, ◌*◌, ◌==◌, String, str_eq, contains, cut, Bool, true, false, not, ◌||◌, ltb, leb, Option, none,
  some, List, [], ◌∷◌, ◌++◌, map, if◌then◌else◌,
}
use web_gobbler.Scraper.{
  Url, Net, parse_failure, ScrapeOptions, default_options, Result, blank_result, Scraped, scraped,
  refused,
}
use web_gobbler.Scraper.Addresses.{Resolver, safe, unsafe, resolve_and_check_url}
use web_gobbler.Scraper.Markdown.{Nodes, Spaces, html_to_markdown}
use web_gobbler.Scraper.Fetch.{Web, Fetched, fetched, not_fetched, http_fetch, browser_fetch}

-- goquery on selections: NewDocumentFromReader, Find, First, Length, the single nodes of Each,
-- Text, Attr("href"), OuterHtml, and what is left of a Clone after Find(…).Remove(). `tree` is what
-- a walk of the contents meets.
pub record Goquery (D : Type 0) : Type 0 where
  pub parse : String → Option D
  pub find : String → D → D
  pub first : D → D
  pub length : D → ℕ
  pub each : D → List D
  pub text : D → String
  pub href : D → Option String
  pub outer_html : D → Option String
  pub without : String → D → D
  pub tree : D → Nodes

-- buildExtractSet, its true keys, with strings.ToLower.
abbrev pub extract_set : (String → String) → List String → List String
extract_set to_lower [] = "links" ∷ []
extract_set to_lower (t ∷ ts) = map to_lower (t ∷ ts)

abbrev pub max_stored_html : ℕ
max_stored_html = 512 * 1024

-- truncateHTML
unfoldable pub truncate_html : String → String × Bool
truncate_html s = if leb (len s) max_stored_html then (s, false) else (cut max_stored_html s, true)

module _ {D : Type 0} (g : Goquery D) (net : Net) (sp : Spaces) where
  abbrev link_of : Url → Option String → List String
  link_of base none = []
  link_of base (some href) = elim (net.parse href) [
    | none ↦ []
    | some u ↦ net.to_string (net.resolve_reference base u) ∷ []
  ]

  -- extractLinks
  abbrev links_of : Url → List D → List String
  links_of base [] = []
  links_of base (a ∷ more) = link_of base (g.href a) ++ links_of base more

  abbrev pub extract_links : D → Url → List String
  extract_links doc base = links_of base (g.each (g.find "a" doc))

  -- The loops of extractHeaders and extractParagraphs.
  abbrev pub texts_of : List D → List String
  texts_of [] = []
  texts_of (d ∷ ds) =
      let text = sp.trim_space (g.text d) in
      let rest = texts_of ds in if not (str_eq text "") then text ∷ rest else rest

  abbrev pub extract_headers : D → List String
  extract_headers doc = texts_of (g.each (g.find "h1,h2,h3,h4" doc))

  abbrev pub extract_paragraphs : D → List String
  extract_paragraphs doc = texts_of (g.each (g.find "p" doc))

  abbrev first_found : D → List String → D
  first_found doc [] = g.first (g.find "body" doc)
  first_found doc (s ∷ ss) =
      let n = g.first (g.find s doc) in
      let rest = first_found doc ss in if ltb 0 (g.length n) then n else rest

  -- mainContent
  abbrev pub main_content : D → D
  main_content doc = first_found doc ("article" ∷ "main" ∷ "[role=main]" ∷ [])

  -- stripNoise on a clone
  abbrev pub strip_noise : D → D
  strip_noise d = g.without "script,style,nav,footer,noscript" d

  -- selectionHTML
  abbrev pub selection_html : D → String
  selection_html d = elim (g.outer_html d) [ none ↦ sp.trim_space (g.text d) | some html ↦ html ]

  -- The body of the document, or the whole of it.
  abbrev pub body_of : D → D
  body_of doc = let body = g.first (g.find "body" doc) in if g.length body == 0 then doc else body

  -- The result of a document: `has` is the extract set.
  unfoldable pub page_result : (String → Bool) → D → Url → ℕ → ℕ → Result
  page_result has doc base status elapsed =
      let all = has "all" in
      let clone = strip_noise (main_content doc) in
      let (html, html_cut) = truncate_html (selection_html clone) in
      let (raw, raw_cut) = truncate_html (selection_html (body_of doc)) in
      record blank_result {
        links = if has "links" || all then extract_links doc base else [];
        headers = if has "headers" || all then extract_headers doc else [];
        paragraphs = if has "paragraphs" || all then extract_paragraphs doc else [];
        markdown = if has "markdown" || all then html_to_markdown sp (g.tree clone) else "";
        html = if has "html" || all then html else "";
        raw_html = if has "raw_html" then raw else "";
        truncated =
            (if has "html" || all then html_cut else false)
            || (if has "raw_html" then raw_cut else false);
        http_status = status;
        duration_ms = elapsed;
      }

  abbrev pub failed_result : ℕ → ℕ → Result
  failed_result status elapsed = record blank_result { http_status = status; duration_ms = elapsed }

  module _ (dns : Resolver) (web : Web) (to_lower : String → String) (elapsed : ℕ) where
    -- The fetcher's choice.
    abbrev pub fetch_page : String → ScrapeOptions → Fetched
    fetch_page raw opts =
        if opts.render_js then browser_fetch web raw opts else http_fetch web dns raw opts

    -- ScrapePage after the fetch.
    unfoldable pub scrape_body : List String → Url → Fetched → Scraped
    scrape_body types base (not_fetched status e) = refused (some (failed_result status elapsed)) e
    scrape_body types base (fetched body status) = elim (g.parse body) [
      | none ↦ refused (some (failed_result status elapsed)) parse_failure
      | some doc ↦
          scraped (page_result (contains (extract_set to_lower types)) doc base status elapsed)
    ]

    abbrev pub options_or : Option ScrapeOptions → ScrapeOptions
    options_or none = default_options
    options_or (some opts) = opts

    -- ScrapePage
    unfoldable pub scrape_page : String → List String → Option ScrapeOptions → Scraped
    scrape_page raw types opts = elim (resolve_and_check_url net dns raw) [
      | unsafe e ↦ refused none e
      | safe base ↦ scrape_body types base (fetch_page raw (options_or opts))
    ]
