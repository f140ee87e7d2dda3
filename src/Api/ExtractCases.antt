-- ===== src/Api/ExtractCases.antt =====
-- The cases of HandleExtract: its checks, the job, and the result.
use Prim.Native.String.{len}
use web_gobbler.Prelude.{
  ◌≤◌, String, str_eq, str_eq_iff_to, str_eq_iff_from, true, false, ◌&&◌, ltb, Option, none, some,
  [], ◌≡◌, ◌≢◌, ◌↔◌, ◌⊎◌, inl, inr, refl, sym, ap, subst, ◌∙◌, arith, Option-cases, Bool-cases,
  List-cases,
}
use mathlib.Core.Option.{some-injective}
use web_gobbler.Scraper.{Result}
use web_gobbler.Extract.{Extractor}
use web_gobbler.Store.Types.{
  Uuid, JobStatus, queued, processing, completed, failed, is_status, Job, not_found, cannot_cancel,
  db_failed, Reply, ok, err,
}
use web_gobbler.Api.Types.{ExtractRequest, Response}
use web_gobbler.Api.Extraction.{extract_answer, extract_result, extract_job, extract_problem}

-- A schema or a prompt, and no long prompt.
abbrev pub IsAsked : (String → String) → ExtractRequest → Type 0
IsAsked trim_space req =
    ((req.schema ≢ "") ⊎ (trim_space req.prompt ≢ "")) × (len req.prompt ≤ 4000)

pub extract_problem_iff :
    (trim_space : String → String) (req : ExtractRequest)
    → (extract_problem trim_space req ≡ none) ↔ IsAsked trim_space req
unfolding extract_problem
extract_problem_iff trim_space req = (
  λ h. elim (Bool-cases (str_eq req.schema "")) [
    | inl blank ↦ (
      inr (λ e. ground (arith, h, blank, str_eq_iff_from (trim_space req.prompt) "" e)),
      ground (arith, h),
    )
    | inr there ↦
        (inl (λ e. ground (arith, there, str_eq_iff_from req.schema "" e)), ground (arith, h))
  ],
  λ h. elim h.0 [
    | inl schema ↦ elim (Bool-cases (str_eq req.schema "")) [
      | inl blank ↦ absurd (schema (str_eq_iff_to req.schema "" blank))
      | inr there ↦ ground (arith, h.1, there)
    ]
    | inr prompt ↦ elim (Bool-cases (str_eq (trim_space req.prompt) "")) [
      | inl blank ↦ absurd (prompt (str_eq_iff_to (trim_space req.prompt) "" blank))
      | inr there ↦ ground (arith, h.1, there)
    ]
  ],
)

pub extract_problem-code :
    (trim_space : String → String) (req : ExtractRequest) (problem : Response)
    → extract_problem trim_space req ≡ some problem
    → problem.code ≡ 400
unfolding extract_problem
extract_problem-code trim_space req problem h =
    elim (Bool-cases (str_eq req.schema "" && str_eq (trim_space req.prompt) "")) [
      | inl e ↦ ground (arith, h, e)
      | inr e ↦ elim (Bool-cases (ltb 4000 (len req.prompt))) [
        | inl long ↦ ground (arith, h, e, long)
        | inr short ↦ ground (arith, h, e, short)
      ]
    ]

completed-cases :
    (s : JobStatus)
    → ((s ≡ completed) × (is_status s completed ≡ true))
      ⊎ ((s ≢ completed) × (is_status s completed ≡ false))
completed-cases queued = inr (λ h. cc h, refl)
completed-cases processing = inr (λ h. cc h, refl)
completed-cases completed = inl (refl, refl)
completed-cases failed = inr (λ h. cc h, refl)

module _ {E : Type 0} (x : Extractor E) (req : ExtractRequest) where
  -- A result with pages, or with a text of which the extractor makes something.
  abbrev pub IsServed : Result → E → Type 0
  IsServed r e =
      (r.pages ≢ [])
      ⊎ ((r.pages ≡ [])
          × (r.markdown ≢ "")
          × ((out : String) × ((x r.markdown req.schema req.prompt e).0 ≡ some out)))

  asked-code :
      (id : Uuid) (out : Option String)
      → ((extract_answer x req id out).code ≡ 200) ↔ ((text : String) × (out ≡ some text))
  asked-code id none = (λ h. absurd (omega (arith, h)), λ h. cc (h.1))
  asked-code id (some text) = (λ h. (text, refl), λ h. refl)

  extract_result-code :
      (id : Uuid) (r : Result) (e : E) → ((extract_result x req id r e).0.code ≡ 200) ↔ IsServed r e
  unfolding extract_result
  extract_result-code id r e = elim (List-cases r.pages) [
    | inr (p, ps, there) ↦ (λ h. inl (λ h'. cc (there, h')), λ h. rw there refl)
    | inl empty ↦ elim (Bool-cases (str_eq r.markdown "")) [
      | inl blank ↦ (
        λ h.
            let code : (extract_result x req id r e).0.code ≡ 409 = rw (empty, blank) refl in
            absurd (omega (arith, h, code)),
        λ h. elim h [
          | inl pages ↦ absurd (pages empty)
          | inr (e', text, rest) ↦ absurd (text (str_eq_iff_to r.markdown "" blank))
        ],
      )
      | inr text ↦
          let same : (extract_result x req id r e).0.code
              ≡ (extract_answer x req id (x r.markdown req.schema req.prompt e).0).code =
            rw (empty, text) refl in
          (
            λ h. inr (
              empty,
              λ blank. ground (arith, text, str_eq_iff_from r.markdown "" blank),
              (asked-code id (x r.markdown req.schema req.prompt e).0).0 (sym same ∙ h),
            ),
            λ h. elim h [
              | inl pages ↦ absurd (pages empty)
              | inr (e', there, some_text) ↦
                  same ∙ (asked-code id (x r.markdown req.schema req.prompt e).0).1 some_text
            ],
          )
    ]
  ]

  abbrev pub IsReady : Reply Job → E → Type 0
  IsReady answer e =
      (job : Job) × (r : Result) × (answer ≡ ok job)
      × (job.status ≡ completed)
      × (job.result ≡ some r)
      × IsServed r e

  ok-injective : (a b : Job) → (◌≡◌ {A = Reply Job} (ok a) (ok b)) → a ≡ b
  ok-injective a b h = cc h

  pub extract_job-code :
      (id : Uuid) (answer : Reply Job) (e : E)
      → ((extract_job x req id answer e).0.code ≡ 200) ↔ IsReady answer e
  unfolding extract_job
  extract_job-code id (ok job) e = elim (Option-cases job.result) [
    | inl missing ↦ (
      λ h.
          let code : (extract_job x req id (ok job) e).0.code ≡ 409 = rw missing refl in
          absurd (omega (arith, h, code)),
      λ (job', r, same, done, there, served). cc (missing, there, ok-injective job job' same),
    )
    | inr (r, there) ↦ elim (completed-cases job.status) [
      | inl (done, yes_done) ↦
          let same : (extract_job x req id (ok job) e).0.code
              ≡ (extract_result x req id r e).0.code =
            rw (there, yes_done) refl in
          (
            λ h. (job, r, refl, done, there, (extract_result-code id r e).0 (sym same ∙ h)),
            λ (job', r', at, done', there', served).
                let which : r' ≡ r =
                  some-injective _ _
                    (sym there' ∙ ap (λ j. j.result) (sym (ok-injective job job' at)) ∙ there) in
                same ∙ (extract_result-code id r e).1 (subst (λ y. IsServed y e) which served),
          )
      | inr (not_done, no_done) ↦ (
        λ h.
            let code : (extract_job x req id (ok job) e).0.code ≡ 409 = rw (there, no_done) refl in
            absurd (omega (arith, h, code)),
        λ (job', r', at, done', there', served).
            absurd (not_done (ap (λ j. j.status) (ok-injective job job' at) ∙ done')),
      )
    ]
  ]
  extract_job-code id (err (not_found j)) e =
      (λ h. absurd (omega (arith, h)), λ (job, r, there, done, has, served). cc there)
  extract_job-code id (err (cannot_cancel st)) e =
      (λ h. absurd (omega (arith, h)), λ (job, r, there, done, has, served). cc there)
  extract_job-code id (err db_failed) e =
      (λ h. absurd (omega (arith, h)), λ (job, r, there, done, has, served). cc there)
