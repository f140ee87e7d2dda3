-- ===== src/Scraper.antt =====
-- internal/scraper: the data that the scraper hands to the crawler, the store and the API, its
-- errors, and the parts of Go's net/url that the program calls.
pub mod Addresses
pub mod Private
pub mod Redirects
pub mod Markdown
pub mod Rendered
pub mod Shapes
pub mod Fetch
pub mod Fetched
pub mod Sessions
pub mod SessionsExamples
pub mod Page
pub mod Pages
pub mod PageExamples
pub mod Examples
use web_gobbler.Prelude.{ℕ, ℤ, pos, String, Bool, true, false, Option, List, []}

-- url.URL. `rest` stands for the fields that the program never reads (opaque, user, path, query).
pub record Url : Type 0 where
  pub scheme : String
  pub host : String
  pub rest : String
  pub fragment : String

-- net/url and strings.EqualFold, of which nothing is assumed.
pub record Net : Type 0 where
  pub parse : String → Option Url
  pub to_string : Url → String
  pub hostname : Url → String
  pub resolve_reference : Url → Url → Url
  pub equal_fold : String → String → Bool

-- The errors that a scrape or a crawl returns; those with a name in the source carry it.
pub data Error : Type 0 where
  invalid_url : Error
  http_failed : ℕ → Error
  parse_failure : Error
  timeout : Error
  private_ip : Error
  too_many_redirects : Error
  dns_failed : Error
  request_failed : Error
  browser_unavailable : Error
  url_parse : Error
  context_done : Error
  rate_wait : Error

-- errors.Is(err, ErrHTTPFailed)
abbrev pub is_http_failed : Error → Bool
is_http_failed (http_failed status) = true
is_http_failed _ = false

-- A time.Duration is a number of nanoseconds, an int64.
pub record ScrapeOptions : Type 0 where
  pub timeout : ℤ
  pub max_retries : ℤ
  pub follow_redirects : Bool
  pub max_body_size : ℤ
  pub user_agent : String
  pub render_js : Bool

pub record PageResult : Type 0 where
  pub url : String
  pub depth : ℕ
  pub links : List String
  pub headers : List String
  pub paragraphs : List String
  pub markdown : String
  pub html : String
  pub raw_html : String
  pub http_status : ℕ
  pub truncated : Bool

pub record Result : Type 0 where
  pub links : List String
  pub headers : List String
  pub paragraphs : List String
  pub markdown : String
  pub html : String
  pub raw_html : String
  pub truncated : Bool
  pub pages : List PageResult
  pub pages_crawled : ℕ
  pub pages_skipped : ℕ
  pub urls : List String
  pub http_status : ℕ
  pub duration_ms : ℕ

-- &PageResult{URL: url, Depth: depth}
abbrev pub blank_page : String → ℕ → PageResult
blank_page url depth = record {
  url = url;
  depth = depth;
  links = [];
  headers = [];
  paragraphs = [];
  markdown = "";
  html = "";
  raw_html = "";
  http_status = 0;
  truncated = false;
}

-- &Result{}
abbrev pub blank_result : Result
blank_result = record {
  links = [];
  headers = [];
  paragraphs = [];
  markdown = "";
  html = "";
  raw_html = "";
  truncated = false;
  pages = [];
  pages_crawled = 0;
  pages_skipped = 0;
  urls = [];
  http_status = 0;
  duration_ms = 0;
}

-- What ScrapePage returns: a result with no error, or an error with a result or none.
pub data Scraped : Type 0 where
  scraped : Result → Scraped
  refused : Option Result → Error → Scraped

-- DefaultOptions
unfoldable pub default_options : ScrapeOptions
default_options = record {
  timeout = pos 10_000_000_000;
  max_retries = pos 3;
  follow_redirects = true;
  max_body_size = pos 5_242_880;
  user_agent = "GoScrape/1.0";
  render_js = false;
}
