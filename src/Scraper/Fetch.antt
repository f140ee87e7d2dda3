-- ===== src/Scraper/Fetch.antt =====
-- internal/scraper/fetcher.go: the two fetchers, over net/http and a browser.
use Prim.Native.String.{len}
use web_gobbler.Prelude.{
  ℕ, ℤ, pos, to_ℕ, int_ltb, String, str_eq, cut, Bool, true, false, not, ◌||◌, ltb, Option, none,
  some, List, [], ◌∷◌, if◌then◌else◌,
}
use web_gobbler.Scraper.{
  Error, http_failed, parse_failure, timeout, request_failed, browser_unavailable, context_done,
  ScrapeOptions,
}
use web_gobbler.Scraper.Addresses.{Resolver, Verdict, check_redirect}

-- http.Client as newScrapeClient sets it up.
pub record Client : Type 0 where
  pub timeout : ℤ
  pub check_redirect : ℕ → String → Verdict

abbrev pub new_scrape_client : ScrapeOptions → Resolver → Client
new_scrape_client opts dns = record {
  timeout = opts.timeout;
  check_redirect = check_redirect opts dns;
}

pub record GetRequest : Type 0 where
  pub url : String
  pub user_agent : String
  pub accept : String
  pub accept_language : String

-- http.Response: its status, the bytes of its body, and whether the body ends with an error.
pub record HttpResponse : Type 0 where
  pub status : ℕ
  pub body : String
  pub breaks : Bool

-- What chromedp is asked: the page, the time limit, and the browser's path where it is given.
pub record BrowserTask : Type 0 where
  pub url : String
  pub timeout : ℤ
  pub exec_path : String

-- http.NewRequestWithContext (whether the URL can be requested), Client.Do (`send`), chromedp.Run,
-- the variables of the environment (empty where they are not set), exec.LookPath, whether a
-- browser's slot came before the end of the context, and whether a context has ended after a
-- failure.
pub record Web : Type 0 where
  pub is_request : String → Bool
  pub send : Client → GetRequest → Option HttpResponse
  pub run : BrowserTask → Option String
  pub getenv : String → String
  pub look_path : String → Bool
  pub has_slot : Bool
  pub ctx_done : Bool

-- ([]byte, int, error) of Fetch
pub data Fetched : Type 0 where
  fetched : String → ℕ → Fetched
  not_fetched : ℕ → Error → Fetched

-- A limit holds where it is positive.
abbrev pub limited : ℤ → String → String
limited max body = if int_ltb (pos 0) max then cut (to_ℕ max) body else body

-- io.ReadAll: an error of the body is met unless the limit is reached before.
abbrev pub read_all : ℤ → HttpResponse → Option String
read_all max resp =
    if resp.breaks
    then (if int_ltb (pos 0) max
        then (if ltb (len resp.body) (to_ℕ max) then none else some (cut (to_ℕ max) resp.body))
        else none)
    else some (limited max resp.body)

abbrev read_of : ℕ → Option String → Fetched
read_of status none = not_fetched status parse_failure
read_of status (some body) = fetched body status

-- What HTTPFetcher.Fetch makes of a response.
unfoldable pub fetch_response : ScrapeOptions → HttpResponse → Fetched
fetch_response opts resp =
    if ltb resp.status 200 || not (ltb resp.status 300)
    then not_fetched resp.status (http_failed resp.status)
    else read_of resp.status (read_all opts.max_body_size resp)

abbrev pub get_request : ScrapeOptions → String → GetRequest
get_request opts raw = record {
  url = raw;
  user_agent = opts.user_agent;
  accept = "text/html,application/xhtml+xml,application/xml;q=0.9,*/*;q=0.8";
  accept_language = "en-US,en;q=0.9";
}

module _ (web : Web) where
  -- HTTPFetcher.Fetch
  unfoldable pub http_fetch : Resolver → String → ScrapeOptions → Fetched
  http_fetch dns raw opts =
      if not (web.is_request raw)
      then not_fetched 0 request_failed
      else elim (web.send (new_scrape_client opts dns) (get_request opts raw)) [
        | none ↦ not_fetched 0 (if web.ctx_done then timeout else request_failed)
        | some resp ↦ fetch_response opts resp
      ]

  abbrev any_found : List String → Bool
  any_found [] = false
  any_found (c ∷ cs) = web.look_path c || any_found cs

  -- BrowserAvailable, at its first call; later calls give the same.
  abbrev pub browser_available : Bool
  browser_available =
      if not (str_eq (web.getenv "CHROME_PATH") "") || str_eq (web.getenv "RENDER_JS_ENABLED") "1"
      then true
      else any_found ("google-chrome" ∷ "chromium" ∷ "chromium-browser" ∷ "chrome" ∷ [])

  abbrev pub or_30_seconds : ℤ → ℤ
  or_30_seconds t = if int_ltb (pos 0) t then t else pos 30_000_000_000

  abbrev pub browser_task : String → ScrapeOptions → BrowserTask
  browser_task raw opts = record {
    url = raw;
    timeout = or_30_seconds opts.timeout;
    exec_path = web.getenv "CHROME_PATH";
  }

  -- BrowserFetcher.Fetch
  unfoldable pub browser_fetch : String → ScrapeOptions → Fetched
  browser_fetch raw opts =
      if not browser_available
      then not_fetched 0 browser_unavailable
      else if not web.has_slot
      then not_fetched 0 context_done
      else elim (web.run (browser_task raw opts)) [
        | none ↦ not_fetched 0 (if web.ctx_done then timeout else request_failed)
        | some html ↦ fetched (limited opts.max_body_size html) 200
      ]
