-- ===== src/Extract/Examples.antt =====
-- A language model for internal/extract that answers "{}" to its first request and fails after it,
-- and HandleExtract on a crawl of three pages.
use web_gobbler.Prelude.{
  ℕ, ◌+◌, ◌≤◌, String, str_eq, true, none, some, List, [], ◌∷◌, length, ◌≡◌, ◌≢◌, ◌↔◌, ◌⊎◌, refl,
  if◌then◌else◌, cut,
}
use web_gobbler.Scraper.{PageResult, blank_page, blank_result}
use web_gobbler.Extract.{
  Config, from_env, Llm, Extractor, extracted, HttpRequest, extract, read_answer, client_extract,
}
use web_gobbler.Extract.Laws.{extract_lem, Asked}
use web_gobbler.Store.Types.{completed, Job, ok, err, not_found}
use web_gobbler.Api.Types.{ExtractRequest}
use web_gobbler.Api.Backend.{Backend, Serving, Uuids}
use web_gobbler.Api.Extraction.{
  extract_pages, extract_result, extract_job, extract_problem, handle_extract,
}
use web_gobbler.Api.Extracting.{Extractable, handle_extract-code}
use web_gobbler.Api.PageExtracts.{AllAnswer, texts, extract_pages_lem}

abbrev once : Llm
once = record {
  marshal = λ r. some "{}";
  is_request = λ url. true;
  answer = λ log req. elim log [ [] ↦ some "{}" | r ∷ rs ↦ none ];
  unmarshal = λ s. some (record { choices = "{}" ∷ []; error = none });
  trim_space = λ s. s;
  is_json = λ s. str_eq s "{}";
}

abbrev config : Config
config = from_env (λ name. if str_eq name "LLM_API_KEY" then "key" else "") (λ s. s)

abbrev request : ExtractRequest
request = record { schema = ""; prompt = "p" }

abbrev page : String → PageResult
page text = record (blank_page "u" 0) { markdown = text }

abbrev crawl : List PageResult
crawl = page "a" ∷ page "" ∷ page "b" ∷ []

abbrev crawled : Job
crawled = record {
  id = 1;
  url = "u";
  extract = [];
  options = none;
  status = completed;
  result = some (record blank_result { pages = crawl });
  error_msg = none;
  http_status = none;
  retries_used = 0;
  duration_ms = none;
  created_at = 0;
  updated_at = 0;
  completed_at = none;
}

-- A store with that job alone.
abbrev one_job : Backend ℕ
one_job = record {
  create_job = λ job s. (ok (1, 10), s);
  get_job = λ id s. (ok crawled, s);
  list_jobs = λ page limit filter s. (ok ([], s), s);
  cancel_job = λ id s. (err (not_found id), s);
  ping_store = λ s. (true, s);
  enqueue = λ payload s. (true, s);
  queue_depth = λ s. (some s, s);
  ping_queue = λ s. (true, s);
}

abbrev ids : Uuids
ids = record { parse = λ s. some 1; format = λ id. "1" }

abbrev serving : Serving ℕ
serving = record { backend = 0; depth_gauge = 0; queued_jobs = 0 }

crawl_run :
    (extract_pages (client_extract once config) request crawl []).0
    ≡ record { url = "u"; extracted = some "{}"; error = "" }
      ∷ record { url = "u"; extracted = none; error = "no markdown" }
      ∷ record { url = "u"; extracted = none; error = "extract failed" }
      ∷ []
unfolding extract_pages client_extract extract read_answer from_env cut
crawl_run = refl

handle_run :
    (handle_extract one_job ids
      (λ s. s)
      true
      (some (client_extract once config))
      "1"
      (some request)
      serving
      []).0.code
    ≡ 200
unfolding handle_extract extract_problem extract_job extract_result
handle_run = refl

extract_example :
    let out = extract once config "a" "" "p" [] in
    ((out.1 ≡ []) × ((text : String) → out.0 ≢ extracted text))
    ⊎ Asked once config "a" "" "p" [] out
extract_example = extract_lem once config "a" "" "p" []

extract_pages_example :
    let out = extract_pages (client_extract once config) request crawl [] in
    AllAnswer (client_extract once config) request crawl [] out.0 × (length out.1 ≤ texts crawl + 0)
extract_pages_example = extract_pages_lem once config request crawl []

handle_extract-code_example :
    ((handle_extract one_job ids
        (λ s. s)
        true
        (some (client_extract once config))
        "1"
        (some request)
        serving
        []).0.code
      ≡ 200)
    ↔ ((true ≡ true)
        × (x : Extractor (List HttpRequest)) × (some (client_extract once config) ≡ some x)
        × Extractable one_job ids (λ s. s) x "1" (some request) serving [])
handle_extract-code_example =
    handle_extract-code one_job ids (λ s. s) true (some (client_extract once config)) "1"
      (some request) serving []
