-- ===== src/Api/Extracting.antt =====
-- When HandleExtract answers with 200.
use web_gobbler.Prelude.{
  String, Bool, true, false, Option, none, some, ◌≡◌, ◌↔◌, inl, inr, refl, sym, subst, ◌∙◌, arith,
  Option-cases,
}
use mathlib.Core.Option.{some-injective}
use web_gobbler.Extract.{Extractor}
use web_gobbler.Store.Types.{Uuid}
use web_gobbler.Api.Types.{ExtractRequest}
use web_gobbler.Api.Backend.{Backend, Serving, Uuids}
use web_gobbler.Api.Extraction.{extract_job, extract_problem, handle_extract}
use web_gobbler.Api.ExtractCases.{
  IsAsked, IsReady, extract_problem_iff, extract_problem-code, extract_job-code,
}

module _ {S E : Type 0} (b : Backend S) (ids : Uuids) (trim_space : String → String) where
  -- Why a request is answered with 200.
  pub record Extractable (x : Extractor E) (text : String) (body : Option ExtractRequest)
      (s : Serving S) (e : E) : Type 0 where
    pub id : Uuid
    pub req : ExtractRequest
    pub named : ids.parse text ≡ some id
    pub read : body ≡ some req
    pub asked : IsAsked trim_space req
    pub ready : IsReady x req (b.get_job id s.backend).0 e

  enabled-code :
      (x : Extractor E) (text : String) (body : Option ExtractRequest) (s : Serving S) (e : E)
      → ((handle_extract b ids trim_space true (some x) text body s e).0.code ≡ 200)
        ↔ Extractable x text body s e
  unfolding handle_extract
  enabled-code x text body s e = elim (Option-cases (ids.parse text)) [
    | inl unnamed ↦ (
      λ h.
          let code : (handle_extract b ids trim_space true (some x) text body s e).0.code ≡ 400 =
            rw unnamed refl in
          absurd (omega (arith, h, code)),
      λ why. cc (why.named, unnamed),
    )
    | inr (id, named) ↦ elim (Option-cases body) [
      | inl unread ↦ (
        λ h.
            let code : (handle_extract b ids trim_space true (some x) text body s e).0.code ≡ 400 =
              rw (named, unread) refl in
            absurd (omega (arith, h, code)),
        λ why. cc (why.read, unread),
      )
      | inr (req, read) ↦ elim (Option-cases (extract_problem trim_space req)) [
        | inr (problem, there) ↦
            let code : (handle_extract b ids trim_space true (some x) text body s e).0.code
                ≡ problem.code =
              rw (named, read, there) refl in
            (
              λ h.
                  absurd
                    (omega (arith, h, code, extract_problem-code trim_space req problem there)),
              λ why.
                  let same : why.req ≡ req = some-injective _ _ (sym why.read ∙ read) in
                  cc (
                    there,
                    (extract_problem_iff trim_space req).1
                        (subst (IsAsked trim_space) same why.asked),
                  ),
            )
        | inl fine ↦
            let code : (handle_extract b ids trim_space true (some x) text body s e).0.code
                ≡ (extract_job x req id (b.get_job id s.backend).0 e).0.code =
              rw (named, read, fine) refl in
            (
              λ h. record {
                id = id;
                req = req;
                named = named;
                read = read;
                asked = (extract_problem_iff trim_space req).0 fine;
                ready = (extract_job-code x req id (b.get_job id s.backend).0 e).0 (sym code ∙ h);
              },
              λ why.
                  let same : why.req ≡ req = some-injective _ _ (sym why.read ∙ read) in
                  let same_id : why.id ≡ id = some-injective _ _ (sym why.named ∙ named) in
                  code
                  ∙ (extract_job-code x req id (b.get_job id s.backend).0 e).1 (
                      subst (λ r. IsReady x r (b.get_job id s.backend).0 e) same
                        (subst (λ i. IsReady x why.req (b.get_job i s.backend).0 e) same_id
                          why.ready)),
            )
      ]
    ]
  ]

  -- HandleExtract answers 200 exactly where the language model is configured, the identifier can be
  -- read, the body has a schema or a prompt and no prompt above 4,000 bytes, the store has the job,
  -- completed and with a result, and the result has pages, or it has Markdown and the extractor
  -- makes something of that.
  pub handle_extract-code :
      (enabled : Bool) (extractor : Option (Extractor E)) (text : String)
      (body : Option ExtractRequest) (s : Serving S) (e : E)
      → ((handle_extract b ids trim_space enabled extractor text body s e).0.code ≡ 200) ↔ (
          (enabled ≡ true) × (x : Extractor E) × (extractor ≡ some x) × Extractable x text body s e)
  unfolding handle_extract
  handle_extract-code enabled none text body s e =
      (λ h. absurd (omega (arith, h)), λ (on, y, h, why). cc h)
  handle_extract-code false (some x) text body s e =
      (λ h. absurd (omega (arith, h)), λ (on, y, h, why). cc on)
  handle_extract-code true (some x) text body s e = (
    λ h. (refl, x, refl, (enabled-code x text body s e).0 h),
    λ (on, y, h, why).
        (enabled-code x text body s e).1
          (subst (λ z. Extractable z text body s e) (sym (some-injective _ _ h)) why),
  )
