-- ===== src/Crawl/SafetyExamples.antt =====
-- A crawl of one page over ScrapePage, on the site of Scraper/PageExamples.
use web_gobbler.Prelude.{Option, some, [], ◌∷◌, ◌≡◌, refl, cut}
use web_gobbler.Scraper.{default_options, Net, Result, blank_page, blank_result}
use web_gobbler.Scraper.Addresses.{is_private_ip, check_host, resolve_and_check_url}
use web_gobbler.Scraper.Examples.{small_dns, two_hosts}
use web_gobbler.Scraper.Markdown.{walk_node, html_to_markdown}
use web_gobbler.Scraper.Fetch.{http_fetch, fetch_response}
use web_gobbler.Scraper.Page.{truncate_html, page_result, scrape_body, scrape_page}
use web_gobbler.Scraper.PageExamples.{plain_spaces, small_web, texts}
use web_gobbler.Crawl.Frontier.{normalize_url, run_loop}
use web_gobbler.Crawl.Pages.{offer, take_page, crawl_round, crawl_bfs}
use web_gobbler.Crawl.Safety.{From, IsSafe, scraping, crawl_bfs-IsSafe}
use web_gobbler.Crawl.Examples.{small_world, small_options}

abbrev out_net : Net
out_net = record two_hosts { to_string = λ u. "http://out" }

abbrev crawled : Option Result
crawled =
    (crawl_bfs out_net
      (scraping texts out_net plain_spaces (λ n. small_dns) (λ n. small_web) (λ s. s) (λ n. n)
        small_world)
      "http://out" small_options).result

abbrev one_page : Result
one_page = record blank_result {
  pages = record (blank_page "http://out" 0) { markdown = "html"; http_status = 200 } ∷ [];
  pages_crawled = 1;
  http_status = 200;
  duration_ms = 1;
}

crawl_of_one : crawled ≡ some one_page
unfolding crawl_bfs normalize_url run_loop crawl_round take_page offer scrape_page
    resolve_and_check_url check_host is_private_ip http_fetch fetch_response scrape_body page_result
    truncate_html html_to_markdown walk_node cut default_options
crawl_of_one = refl

crawl_bfs-IsSafe_example : From (IsSafe out_net (λ n. small_dns)) 0 one_page.pages
crawl_bfs-IsSafe_example =
    crawl_bfs-IsSafe texts out_net plain_spaces (λ n. small_dns) (λ n. small_web) (λ s. s) (λ n. n)
      small_world "http://out" small_options one_page crawl_of_one
