-- ===== src/Api/PageExtracts.antt =====
-- The loop of HandleExtract over the pages of a crawl.
use web_gobbler.Prelude.{
  ℕ, suc, ◌+◌, ◌≤◌, String, str_eq, str_eq_iff_to, str_eq_iff_from, none, some, List, [], ◌∷◌,
  length, subst, ◌≡◌, ◌≢◌, ◌⊎◌, inl, inr, refl, arith, Option-cases, Bool-cases, if◌then◌else◌,
}
use web_gobbler.Scraper.{PageResult}
use web_gobbler.Extract.{Config, HttpRequest, Llm, Extractor, client_extract}
use web_gobbler.Extract.Laws.{extract_lem}
use web_gobbler.Api.Types.{ExtractRequest, PageExtract}
use web_gobbler.Api.Extraction.{extract_page, extract_pages}

module _ {E : Type 0} (x : Extractor E) (req : ExtractRequest) where
  -- The answer about one page: what the extractor makes of that page's Markdown, or why there is no
  -- value.
  abbrev pub Answers : PageResult → E → PageExtract → Type 0
  Answers p e a =
      (a.url ≡ p.url)
      × (((p.markdown ≡ "") × (a.extracted ≡ none) × (a.error ≡ "no markdown"))
          ⊎ ((p.markdown ≢ "")
              × ((x p.markdown req.schema req.prompt e).0 ≡ none)
              × (a.extracted ≡ none)
              × (a.error ≡ "extract failed"))
          ⊎ ((p.markdown ≢ "")
              × (out : String) × ((x p.markdown req.schema req.prompt e).0 ≡ some out)
              × (a.extracted ≡ some out)
              × (a.error ≡ "")))

  -- The extractor after a page: it is not asked about one without Markdown.
  abbrev pub asked : PageResult → E → E
  asked p e = if str_eq p.markdown "" then e else (x p.markdown req.schema req.prompt e).1

  -- One answer for each page, the extractor asked about the pages in their order.
  abbrev pub AllAnswer : List PageResult → E → List PageExtract → Type 0
  AllAnswer [] e [] = Unit
  AllAnswer [] e (a ∷ rest) = ⊥
  AllAnswer (p ∷ ps) e [] = ⊥
  AllAnswer (p ∷ ps) e (a ∷ rest) = Answers p e a × AllAnswer ps (asked p e) rest

  extract_page-Answers : (p : PageResult) (e : E) → Answers p e (extract_page x req p e).0
  extract_page-Answers p e = elim (Bool-cases (str_eq p.markdown "")) [
    | inl blank ↦ rw blank (refl, inl (str_eq_iff_to p.markdown "" blank, refl, refl))
    | inr there ↦
        let text : p.markdown ≢ "" = λ h. ground (arith, there, str_eq_iff_from p.markdown "" h) in
        elim (Option-cases (x p.markdown req.schema req.prompt e).0) [
          | inl none_made ↦ rw (there, none_made) (refl, inr (inl (text, refl, refl, refl)))
          | inr (out, made) ↦ rw (there, made) (refl, inr (inr (text, out, refl, refl, refl)))
        ]
  ]

  extract_page-asked : (p : PageResult) (e : E) → (extract_page x req p e).1 ≡ asked p e
  extract_page-asked p e = elim (Bool-cases (str_eq p.markdown "")) [
    | inl blank ↦ rw blank refl
    | inr there ↦ rw there refl
  ]

  extract_pages-AllAnswer :
      (ps : List PageResult) (e : E) → AllAnswer ps e (extract_pages x req ps e).0
  unfolding extract_pages
  extract_pages-AllAnswer [] e = tt
  extract_pages-AllAnswer (p ∷ ps) e = (
    extract_page-Answers p e,
    subst (λ e'. AllAnswer ps e' (extract_pages x req ps (extract_page x req p e).1).0)
        (extract_page-asked p e) (extract_pages-AllAnswer ps (extract_page x req p e).1),
  )

-- The pages that have a text.
abbrev pub texts : List PageResult → ℕ
texts [] = 0
texts (p ∷ ps) = if str_eq p.markdown "" then texts ps else suc (texts ps)

module _ (llm : Llm) (cfg : Config) (req : ExtractRequest) where
  client_extract-log :
      (markdown : String) (log : List HttpRequest)
      → length (client_extract llm cfg markdown req.schema req.prompt log).1 ≤ suc (length log)
  unfolding client_extract
  client_extract-log markdown log = elim (extract_lem llm cfg markdown req.schema req.prompt log) [
    | inl quiet ↦ rw quiet.0 (omega arith)
    | inr asked ↦ rw asked.sent (omega arith)
  ]

  extract_pages-log :
      (ps : List PageResult) (log : List HttpRequest)
      → length (extract_pages (client_extract llm cfg) req ps log).1 ≤ texts ps + length log
  unfolding extract_pages
  extract_pages-log [] log = omega arith
  extract_pages-log (p ∷ ps) log = elim (Bool-cases (str_eq p.markdown "")) [
    | inl blank ↦ rw blank (extract_pages-log ps log)
    | inr there ↦
        let after = (client_extract llm cfg p.markdown req.schema req.prompt log).1 in
        rw there (omega (arith, extract_pages-log ps after, client_extract-log p.markdown log))
  ]

  -- The loop of HandleExtract over the pages of a crawl, with the client as its extractor, gives
  -- one answer for each page, in their order and under their URLs: the value that the client gives
  -- for that page's Markdown, the schema and the prompt, or that there is no Markdown, or that the
  -- client gives none. It sends one request at most for each page that has Markdown.
  pub extract_pages_lem :
      (ps : List PageResult) (log : List HttpRequest)
      → let out = extract_pages (client_extract llm cfg) req ps log in
        AllAnswer (client_extract llm cfg) req ps log out.0 × (length out.1 ≤ texts ps + length log)
  extract_pages_lem ps log =
      (extract_pages-AllAnswer (client_extract llm cfg) req ps log, extract_pages-log ps log)
