-- ===== src/Api/Extraction.antt =====
-- internal/api/handlers.go: HandleExtract, over an Extractor with a state of its own.
use Prim.Native.String.{len}
use web_gobbler.Prelude.{
  String, str_eq, Bool, not, ◌&&◌, ltb, Option, none, some, List, [], ◌∷◌, is_empty, if◌then◌else◌,
}
use web_gobbler.Scraper.{PageResult, Result}
use web_gobbler.Extract.{Extractor}
use web_gobbler.Store.Types.{Uuid, completed, is_status, Job, not_found, Reply, ok, err}
use web_gobbler.Api.Types.{ExtractRequest, PageExtract, extract_body, Response}
use web_gobbler.Api.Backend.{Backend, Serving, Uuids}
use web_gobbler.Api.Convert.{error_response}

module _ {E : Type 0} (x : Extractor E) (req : ExtractRequest) where
  -- One page of a crawl.
  abbrev page_extract : String → Option String → PageExtract
  page_extract url none = record { url = url; extracted = none; error = "extract failed" }
  page_extract url (some out) = record { url = url; extracted = some out; error = "" }

  abbrev pub extract_page : PageResult → E → PageExtract × E
  extract_page p e =
      if str_eq p.markdown ""
      then (record { url = p.url; extracted = none; error = "no markdown" }, e)
      else let (out, e') = x p.markdown req.schema req.prompt e in (page_extract p.url out, e')

  -- The loop over the pages.
  unfoldable pub extract_pages : List PageResult → E → List PageExtract × E
  extract_pages [] e = ([], e)
  extract_pages (p ∷ ps) e =
      let (page, e₁) = extract_page p e in
      let (pages, e₂) = extract_pages ps e₁ in (page ∷ pages, e₂)

  abbrev pub extract_answer : Uuid → Option String → Response
  extract_answer id none = error_response 502 "extract failed"
  extract_answer id (some out) = record {
    code = 200;
    body = extract_body (record { job_id = id; extracted = some out; pages = [] });
  }

  -- What HandleExtract makes of a result.
  unfoldable pub extract_result : Uuid → Result → E → Response × E
  extract_result id r e =
      if not (is_empty r.pages)
      then (let (pages, e') = extract_pages r.pages e in
          (
            record {
              code = 200;
              body = extract_body (record { job_id = id; extracted = none; pages = pages });
            },
            e',
          ))
      else if str_eq r.markdown ""
      then (error_response 409 "job has no markdown; scrape with extract markdown first", e)
      else let (out, e') = x r.markdown req.schema req.prompt e in (extract_answer id out, e')

  abbrev not_ready : Response
  not_ready = error_response 409 "job must be completed with results"

  -- What it makes of GetJob's answer.
  unfoldable pub extract_job : Uuid → Reply Job → E → Response × E
  extract_job id (ok job) e = elim job.result [
    | none ↦ (not_ready, e)
    | some r ↦ if is_status job.status completed then extract_result id r e else (not_ready, e)
  ]
  extract_job id (err (not_found j)) e = (error_response 404 "job not found", e)
  extract_job id (err _) e = (error_response 500 "failed to get job", e)

-- The checks of a request, with strings.TrimSpace.
unfoldable pub extract_problem : (String → String) → ExtractRequest → Option Response
extract_problem trim_space req =
    if str_eq req.schema "" && str_eq (trim_space req.prompt) ""
    then some (error_response 400 "schema or prompt is required")
    else if ltb 4000 (len req.prompt)
    then some (error_response 400 "prompt too long")
    else none

-- HandleExtract. The extractor is `none` where the handler has none.
module _ {S E : Type 0} (b : Backend S) (ids : Uuids) (trim_space : String → String) where
  unfoldable pub handle_extract :
      Bool
      → Option (Extractor E)
      → String
      → Option ExtractRequest
      → Serving S
      → E
      → Response × (Serving S × E)
  handle_extract llm_enabled none text body s e =
      (error_response 501 "LLM extract not configured (set LLM_API_KEY)", (s, e))
  handle_extract llm_enabled (some x) text body s e =
      if not llm_enabled
      then (error_response 501 "LLM extract not configured (set LLM_API_KEY)", (s, e))
      else elim (ids.parse text) [
        | none ↦ (error_response 400 "invalid job id", (s, e))
        | some id ↦ elim body [
          | none ↦ (error_response 400 "invalid request body", (s, e))
          | some req ↦ elim (extract_problem trim_space req) [
            | some problem ↦ (problem, (s, e))
            | none ↦
                let (job, s') = b.get_job id s.backend in
                let (answer, e') = extract_job x req id job e in
                (answer, (record s { backend = s' }, e'))
          ]
        ]
      ]
