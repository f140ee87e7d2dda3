-- ===== src/Api/Listing.antt =====
-- internal/api/handlers.go, HandleListJobs, with strconv.Atoi as an argument: its value where it
-- reports an error is read too.
use web_gobbler.Prelude.{
  ℕ, ℤ, pos, ◌≤◌, String, str_eq, Bool, true, false, not, ◌&&◌, Option, none, some, List, [], ◌∷◌,
  map, contains, contains-true, contains-mem, Memᴰ, str_eq_iff_to, str_eq_iff_from, ◌≡◌, ◌⊎◌, inl,
  inr, refl, arith, Bool-cases, if◌then◌else◌,
}
use web_gobbler.Store.Types.{status_text, Job, Reply, ok, err}
use web_gobbler.Store.Listing.{page_or_one, limit_or_20}
use web_gobbler.Api.Types.{JobSummary, PaginatedResponse, list_body, Response}
use web_gobbler.Api.Backend.{Backend, Serving}
use web_gobbler.Api.Convert.{error_response}

abbrev pub statuses : List String
statuses = "queued" ∷ "processing" ∷ "completed" ∷ "failed" ∷ []

abbrev pub summary_of : Job → JobSummary
summary_of j = record {
  job_id = j.id;
  url = j.url;
  status = status_text j.status;
  created_at = j.created_at;
  updated_at = j.updated_at;
}

-- c.DefaultQuery
abbrev pub query_or : Option String → String → String
query_or none dflt = dflt
query_or (some text) dflt = text

abbrev pub list_answer : ℕ → ℕ → Reply (List Job × ℕ) → Response
list_answer page limit (err e) = error_response 500 "failed to list jobs"
list_answer page limit (ok (jobs, total)) = record {
  code = 200;
  body =
      list_body (record { jobs = map summary_of jobs; total = total; page = page; limit = limit });
}

-- The filter that a client may give: none, or a status.
abbrev pub KnownStatus : String → Type 0
KnownStatus filter = (filter ≡ "") ⊎ Memᴰ filter statuses

-- A page of jobs, its number and size in range.
abbrev pub Listed : Response → Type 0
Listed answer =
    (r : PaginatedResponse) × (answer ≡ record { code = 200; body = list_body r })
    × (1 ≤ r.page)
    × (1 ≤ r.limit)
    × (r.limit ≤ 100)

page_or_one-pos : (page : ℤ) → 1 ≤ page_or_one page
page_or_one-pos page = ground arith

limit_or_20_range : (limit : ℤ) → (1 ≤ limit_or_20 limit) × (limit_or_20 limit ≤ 100)
limit_or_20_range limit = ground arith

list_answer-Listed :
    (page limit : ℤ) (r : Reply (List Job × ℕ))
    → let answer = list_answer (page_or_one page) (limit_or_20 limit) r in
      Listed answer ⊎ (answer.code ≡ 500)
list_answer-Listed page limit (err e) = inr refl
list_answer-Listed page limit (ok (jobs, total)) =
    let (low, high) = limit_or_20_range limit in inl (_, refl, page_or_one-pos page, low, high)

-- The test of the filter.
abbrev pub refused : String → Bool
refused filter = not (str_eq filter "") && not (contains statuses filter)

known-cases :
    (filter : String)
    → ((refused filter ≡ false) × KnownStatus filter)
      ⊎ ((refused filter ≡ true) × (¬ KnownStatus filter))
known-cases filter = elim (Bool-cases (str_eq filter "")) [
  | inl absent ↦ inl (rw absent refl, inl (str_eq_iff_to filter "" absent))
  | inr given ↦ elim (Bool-cases (contains statuses filter)) [
    | inl listed ↦ inl (ground (arith, given, listed), inr (contains-true statuses filter listed))
    | inr missing ↦ inr (
      ground (arith, given, missing),
      λ known. elim known [
        | inl e ↦ cc (str_eq_iff_from filter "" e, given)
        | inr m ↦ cc (contains-mem statuses filter m, missing)
      ],
    )
  ]
]

module _ {S : Type 0} (b : Backend S) (atoi : String → ℤ) where
  -- HandleListJobs
  unfoldable pub handle_list_jobs :
      Option String → Option String → String → Serving S → Response × Serving S
  handle_list_jobs page_text limit_text filter s =
      let page = page_or_one (atoi (query_or page_text "1")) in
      let limit = limit_or_20 (atoi (query_or limit_text "20")) in
      if not (str_eq filter "") && not (contains statuses filter)
      then (
        error_response 400
            "invalid status filter: must be queued, processing, completed, or failed",
        s,
      )
      else let (answer, s') = b.list_jobs (pos page) (pos limit) filter s.backend in
        (list_answer page limit answer, record s { backend = s' })

  -- A list of jobs is answered with 400 exactly where the filter is neither absent nor a status,
  -- and then the store is not called; otherwise with 200 and a page whose number is at least 1 and
  -- whose size is from 1 to 100, whatever the client asks for, or with 500.
  pub handle_list_jobs-code :
      (page_text limit_text : Option String) (filter : String) (s : Serving S)
      → let answer = handle_list_jobs page_text limit_text filter s in
        (KnownStatus filter × (Listed answer.0 ⊎ (answer.0.code ≡ 500)))
        ⊎ ((¬ KnownStatus filter) × (answer.0.code ≡ 400) × (answer.1 ≡ s))
  unfolding handle_list_jobs
  handle_list_jobs-code page_text limit_text filter s = elim (known-cases filter) [
    | inl (e, known) ↦ inl (
      known,
      rw e (
          list_answer-Listed (atoi (query_or page_text "1")) (atoi (query_or limit_text "20"))
            (b.list_jobs _ _ filter s.backend).0),
    )
    | inr (e, unknown) ↦ inr (unknown, ground (arith, e), ground (arith, e))
  ]
