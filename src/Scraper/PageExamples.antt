-- ===== src/Scraper/PageExamples.antt =====
-- One page for ScrapePage, its fetchers and htmlToMarkdown.
use web_gobbler.Prelude.{
  ℕ, ◌≤◌, ◌<◌, String, str_eq, cut, true, false, none, some, [], ◌∷◌, ◌≡◌, ◌⊎◌, refl, if◌then◌else◌,
}
use web_gobbler.Scraper.{
  Url, Error, http_failed, default_options, Result, blank_result, scraped, refused,
}
use web_gobbler.Scraper.Addresses.{is_private_ip, check_host, safe, unsafe, resolve_and_check_url}
use web_gobbler.Scraper.Examples.{small_dns, two_hosts}
use web_gobbler.Scraper.Markdown.{
  Nodes, text_node, element, no_nodes, node, Spaces, walk_node, html_to_markdown,
}
use web_gobbler.Scraper.Shapes.{render_all}
use web_gobbler.Scraper.Rendered.{html_to_markdown-render_all}
use web_gobbler.Scraper.Fetch.{Web, http_fetch, browser_fetch, fetch_response}
use web_gobbler.Scraper.Page.{
  Goquery, truncate_html, page_result, failed_result, scrape_body, scrape_page,
}
use web_gobbler.Scraper.Fetched.{IsFetched, fetch_lem}
use web_gobbler.Scraper.Pages.{IsExtract, scrape_page_lem}

abbrev pub plain_spaces : Spaces
plain_spaces = record { trim_space = λ s. s; fields = λ s. if str_eq s "" then [] else s ∷ [] }

-- <h1>T</h1><script>x</script><p>a<a href="u">b</a></p><ul><li>c</li></ul>
abbrev body : Nodes
body = node (element "h1" "T" none (node (text_node "T") no_nodes)) (
    node (element "script" "x" none (node (text_node "x") no_nodes)) (
      node
        (element "p" "ab" none
          (node (text_node "a") (node (element "a" "b" (some "u") no_nodes) no_nodes)))
        (node (element "ul" "c" none (node (element "li" "c" none no_nodes) no_nodes)) no_nodes)))

markdown_run : html_to_markdown plain_spaces body ≡ "\n\n# T\n\n\n\na[b](u)\n\n\n- c\n\n"
unfolding html_to_markdown walk_node
markdown_run = refl

html_to_markdown_example :
    html_to_markdown plain_spaces body
    ≡ plain_spaces.trim_space (render_all plain_spaces body false)
html_to_markdown_example = html_to_markdown-render_all plain_spaces body

-- Answers 200 with "html" at one address and 404 at any other, over plain HTTP and no browser.
abbrev pub small_web : Web
small_web = record {
  is_request = λ url. true;
  send = λ client req. some (
      if str_eq req.url "http://out"
      then record { status = 200; body = "html"; breaks = false }
      else record { status = 404; body = ""; breaks = false });
  run = λ task. none;
  getenv = λ name. "";
  look_path = λ name. false;
  has_slot = true;
  ctx_done = false;
}

-- A document is its text.
abbrev pub texts : Goquery String
texts = record {
  parse = λ s. some s;
  find = λ sel d. d;
  first = λ d. d;
  length = λ d. 1;
  each = λ d. d ∷ [];
  text = λ d. d;
  href = λ d. some "http://in";
  outer_html = λ d. some d;
  without = λ sel d. d;
  tree = λ d. node (text_node d) no_nodes;
}

page_run :
    scrape_page texts two_hosts plain_spaces small_dns small_web
      (λ s. s)
      7
      "http://out"
      ("headers" ∷ "html" ∷ [])
      none
    ≡ scraped (record blank_result {
      headers = "html" ∷ [];
      html = "html";
      http_status = 200;
      duration_ms = 7;
    })
unfolding scrape_page resolve_and_check_url check_host is_private_ip http_fetch fetch_response
    scrape_body page_result truncate_html default_options cut
page_run = refl

fetch_example :
    IsFetched default_options (http_fetch small_web small_dns "http://out" default_options)
    × IsFetched default_options (browser_fetch small_web "http://out" default_options)
fetch_example = fetch_lem small_web small_dns "http://out" default_options

scrape_page_example :
    let out =
      scrape_page texts two_hosts plain_spaces small_dns small_web
        (λ s. s)
        7
        "http://out"
        ("headers" ∷ "html" ∷ [])
        none in
    ((e : Error) × (resolve_and_check_url two_hosts small_dns "http://out" ≡ unsafe e)
      × (out ≡ refused none e))
    ⊎ ((base : Url) × (resolve_and_check_url two_hosts small_dns "http://out" ≡ safe base)
        × (((status : ℕ) × (e : Error) × (out
                ≡ refused (some (failed_result texts two_hosts plain_spaces status 7)) e)
              × ((n : ℕ) → e ≡ http_failed n → (n ≡ status) × ((status < 200) ⊎ (300 ≤ status))))
            ⊎ ((r : Result) × (out ≡ scraped r)
                × IsExtract texts two_hosts plain_spaces small_dns small_web
                    (λ s. s)
                    7
                    "http://out"
                    ("headers" ∷ "html" ∷ [])
                    r)))
scrape_page_example =
    scrape_page_lem texts two_hosts plain_spaces small_dns small_web (λ s. s) 7 "http://out"
      ("headers" ∷ "html" ∷ []) none
