-- ===== src/Crawl/Examples.antt =====
-- A site of three pages for internal/crawl/crawl.go: "a" links to "b", to itself and to a text that
-- is no URL, "b" to "c", and "c" cannot be fetched.
use web_gobbler.Prelude.{
  pos, String, str_eq, false, none, some, List, [], ◌∷◌, Memᴰ, ◌≡◌, ◌≢◌, refl, ◌⊎◌, arith,
  if◌then◌else◌,
}
use web_gobbler.Scraper.{
  Url, Net, http_failed, url_parse, PageResult, Result, blank_page, blank_result, Scraped, scraped,
  refused, default_options,
}
use web_gobbler.Crawl.Frontier.{Options, World, out_of_fuel, run_loop, normalize_url, admissible}
use web_gobbler.Crawl.Reach.{Leads, Seeded, start, follow}
use web_gobbler.Crawl.Pages.{offer, take_page, crawl_round, crawl_loop, crawl_bfs}
use web_gobbler.Crawl.Pages.Between.{Reached, IsStable}
use web_gobbler.Crawl.Pages.Laws.{Explored, crawl_terminates, crawl_bfs_returns}
use web_gobbler.Crawl.Pages.Complete.{Undisturbed, Visited, crawl_bfs_complete}
use web_gobbler.Crawl.Urls.{offer_all, take_links, map_round, map_bfs}
use web_gobbler.Crawl.Urls.Laws.{Mapped, map_bfs_returns}

abbrev url_of : String → Url
url_of s = record { scheme = "http"; host = "h"; rest = s; fragment = "" }

abbrev pub small_net : Net
small_net = record {
  parse = λ s. if str_eq s "bad" then none else some (url_of s);
  to_string = λ u. u.rest;
  hostname = λ u. u.host;
  resolve_reference = λ base u. u;
  equal_fold = str_eq;
}

abbrev page_with : List String → Result
page_with links = record blank_result { links = links; http_status = 200 }

abbrev pub fetch : String → Scraped
fetch url =
    if str_eq url "a"
    then scraped (page_with ("b" ∷ "a" ∷ "bad" ∷ []))
    else if str_eq url "b"
    then scraped (page_with ("c" ∷ []))
    else refused (some (record blank_result { http_status = 404 })) (http_failed 404)

abbrev pub small_world : World
small_world = record {
  ctx_done = λ n. false;
  cancel_check = some (λ n. false);
  rate = none;
  scrape_page = λ n url extract opts. fetch url;
  elapsed_ms = λ n. n;
}

abbrev pub small_options : Options
small_options = record {
  max_pages = pos 5;
  max_depth = pos 2;
  max_urls = pos 2;
  extract = [];
  scrape = default_options;
}

abbrev pub visited : List PageResult
visited =
    record (blank_page "a" 0) { links = "b" ∷ "a" ∷ "bad" ∷ []; http_status = 200 }
    ∷ record (blank_page "b" 1) { links = "c" ∷ []; http_status = 200 }
    ∷ record (blank_page "c" 2) { http_status = 404 }
    ∷ []

abbrev pub crawl_result : Result
crawl_result = record blank_result {
  pages = visited;
  pages_crawled = 3;
  pages_skipped = 1;
  http_status = 200;
  duration_ms = 3;
}

crawl_run :
    crawl_bfs small_net small_world "a" small_options
    ≡ record { result = some crawl_result; error = none }
unfolding crawl_bfs normalize_url run_loop crawl_round take_page offer admissible
crawl_run = refl

map_run :
    (map_bfs small_net small_world "a" small_options).result
    ≡ some (record blank_result { urls = "a" ∷ "b" ∷ []; http_status = 200; duration_ms = 1 })
unfolding map_bfs normalize_url run_loop map_round take_links offer_all admissible
map_run = refl

bad_run :
    crawl_bfs small_net small_world "bad" small_options
    ≡ record { result = none; error = some url_parse }
unfolding crawl_bfs normalize_url
bad_run = refl

small_Seeded : Seeded small_net "a" "a" (url_of "a")
small_Seeded = record { normal = unfold normalize_url in refl; parses = refl }

small_IsStable : IsStable small_net small_world small_options (url_of "a") "a"
small_IsStable n m url = refl

small_Undisturbed : Undisturbed small_world
small_Undisturbed = record { live = λ n. refl; wanted = λ n. refl }

b_Leads : Leads small_net (url_of "a") "b" "b"
b_Leads = record {
  normal = unfold normalize_url in refl;
  target = url_of "b";
  parses = refl;
  on_host = refl;
}

b_Reached : Reached small_net small_world small_options (url_of "a") "a" "b" 1
b_Reached =
    follow 0 (page_with ("b" ∷ "a" ∷ "bad" ∷ [])) "b" start refl (Memᴰ.head refl) b_Leads
      (omega arith)

crawl_terminates_example :
    crawl_loop small_net small_world (url_of "a") "a" small_options ≢ out_of_fuel
crawl_terminates_example = crawl_terminates small_net small_world "a" small_options (url_of "a") "a"

crawl_bfs_returns_example :
    ((r : Result) × ((crawl_bfs small_net small_world "a" small_options).result ≡ some r)
      × (norm : String) × (u : Url) × Seeded small_net "a" norm u
      × Explored small_net small_world small_options u norm r.pages)
    ⊎ (crawl_bfs small_net small_world "a" small_options
        ≡ record { result = none; error = some url_parse })
      × ((norm : String) (u : Url) → ¬ Seeded small_net "a" norm u)
crawl_bfs_returns_example = crawl_bfs_returns small_net small_world "a" small_options

crawl_bfs_complete_example : Visited visited "b" 1
crawl_bfs_complete_example =
    crawl_bfs_complete small_net small_world "a" small_options "a" (url_of "a") crawl_result
      small_Seeded crawl_run small_IsStable small_Undisturbed (omega arith) "b" 1 b_Reached

map_bfs_returns_example :
    ((r : Result) × ((map_bfs small_net small_world "a" small_options).result ≡ some r)
      × (norm : String) × (u : Url) × Seeded small_net "a" norm u
      × Mapped small_net small_world small_options u norm r.urls)
    ⊎ (map_bfs small_net small_world "a" small_options
        ≡ record { result = none; error = some url_parse })
      × ((norm : String) (u : Url) → ¬ Seeded small_net "a" norm u)
map_bfs_returns_example = map_bfs_returns small_net small_world "a" small_options
