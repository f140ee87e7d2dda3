-- ===== src/Server/Examples.antt =====
-- Requests to an API over the counting store and queue (cmd/api/main.go).
use web_gobbler.Prelude.{
  ℕ, ◌-◌, pos, String, str_eq, false, none, some, [], ◌∷◌, ltb, if◌then◌else◌,
}
use web_gobbler.Crawl.Examples.{small_net}
use web_gobbler.Api.Types.{page_body, Response}
use web_gobbler.Api.Examples.{counting, plain_ids, plain_strings, idle, scrape_request}
use web_gobbler.Server.{
  health, scrape, Routed, to, nowhere, redirected, Request, Parts, Live, serve,
}
use web_gobbler.Server.Answers.{Chained, serve_lem}

abbrev pub page : ℕ → Response
page code = record { code = code; body = page_body "" }

-- A router that knows two paths, and a third that it redirects; each limiter lets two requests
-- through.
abbrev pub paths : String → Routed
paths path =
    if str_eq path "/health"
    then to health ""
    else if str_eq path "/api/v1/scrape"
    then to scrape ""
    else if str_eq path "/health/"
    then redirected (page 301)
    else nowhere

abbrev pub small_parts : Parts ℕ ℕ ℕ ℕ
small_parts = record {
  backend = counting;
  extractor = none;
  llm_enabled = false;
  ids = plain_ids;
  net = small_net;
  strings = plain_strings;
  atoi = λ text. pos 1;
  trim_space = λ text. text;
  rate = record {
    new_limiter = 2;
    allow = λ now left. (ltb 0 left, left - 1);
    wait = λ now left. (none, left);
  };
  find = λ routes method path. paths path;
  no_route = page 404;
  expose = λ s. page 200;
  max_bytes = λ limit body. body;
  bind_scrape = λ body. some scrape_request;
  bind_crawl = λ body. none;
  bind_map = λ body. none;
  bind_extract = λ body. none;
}

abbrev pub get_health : Request ℕ
get_health = record {
  method = "GET";
  path = "/health";
  ip = "a";
  now = 0;
  took = 1;
  query = λ key. none;
  body = 0;
}

abbrev fresh_state : Live ℕ ℕ ℕ
fresh_state = record { serving = idle; llm = 0; visitors = ("a", 1) ∷ []; log = [] }

serve_lem_example :
    Chained small_parts get_health fresh_state
      (to health "")
      (serve small_parts get_health fresh_state)
serve_lem_example = serve_lem small_parts get_health fresh_state (λ answer h. cc h)
