-- ===== src/Worker/Outcome.antt =====
-- What becomes of a job that a worker dequeues (cmd/worker/main.go).
use web_gobbler.Prelude.{
  ℕ, zero, suc, ◌<◌, ℤ, pos, negsuc, to_ℕ, String, Bool, true, false, ◌&&◌, Option, none, some,
  List, ltb, ◌≡◌, ◌↔◌, refl, sym, ◌∙◌, ◌⊎◌, inl, inr, arith, Bool-cases,
}
use web_gobbler.Scraper.{Error, ScrapeOptions, Result, Scraped, scraped, refused}
use web_gobbler.Crawl.Frontier.{World, Returned}
use web_gobbler.Store.Types.{Uuid, Time, Codec}
use web_gobbler.Store.Table.{Db}
use web_gobbler.Worker.Retry.{execute_from, execute_with_retry}
use web_gobbler.Worker.Process.{Metrics, panicked, handle_job_result}

-- There is a result or an error to handle.
abbrev answers : Option Result → Option Error → Bool
answers none none = false
answers none (some e) = true
answers (some r) e = true

answers_error : (p : Option Result) (e : Error) → answers p (some e) ≡ true
answers_error none e = refl
answers_error (some r) e = refl

Scraped-cases :
    (s : Scraped)
    → ((r : Result) × (s ≡ scraped r)) ⊎ ((p : Option Result) × (e : Error) × (s ≡ refused p e))
Scraped-cases (scraped r) = inl (r, refl)
Scraped-cases (refused p e) = inr (p, e, refl)

module _ (world : World) (url : String) (extract : List String) (opts : ScrapeOptions) where
  execute_from-answers :
      (left attempt : ℕ) (last : Returned)
      → (answers last.result last.error ≡ true) ⊎ (0 < left)
      → let r = (execute_from world url extract opts left attempt last).returned in
        answers r.result r.error ≡ true
  unfolding execute_from
  execute_from-answers zero attempt last (inl h) = h
  execute_from-answers zero attempt last (inr h) = absurd (omega arith)
  execute_from-answers (suc left) attempt last h =
      elim (Bool-cases (ltb 0 attempt && world.ctx_done attempt)) [
        | inl done ↦ rw done refl
        | inr live ↦ elim (Scraped-cases (world.scrape_page attempt url extract opts)) [
          | inl (r, e) ↦ ground (arith, e)
          | inr (p, x, e) ↦ ground (
            arith,
            e,
            answers_error p x,
            execute_from-answers left (suc attempt) (record { result = p; error = some x })
                (inl (answers_error p x)),
          )
        ]
      ]

panicked_iff :
    (c : Codec) (text : Error → String) (id : Uuid) (now : Time) (result : Option Result)
    (error : Option Error) (retries : ℕ) (db : Db) (m : Metrics)
    → (handle_job_result c text id now result error retries db m ≡ panicked db)
      ↔ (answers result error ≡ false)
unfolding handle_job_result
panicked_iff c text id now none none retries db m = (λ e. refl, λ e. refl)
panicked_iff c text id now none (some e) retries db m = (λ h. cc, λ h. cc)
panicked_iff c text id now (some r) none retries db m = (λ h. cc, λ h. cc)
panicked_iff c text id now (some r) (some e) retries db m = (λ h. cc, λ h. cc)

-- Handling what executeWithRetry returned ends the process, by reading a nil result, exactly when
-- the limit of attempts allows none.
pub retry_panics_iff :
    (world : World) (url : String) (extract : List String) (opts : ScrapeOptions) (max_retries : ℤ)
    (c : Codec) (text : Error → String) (id : Uuid) (now : Time) (retries : ℕ) (db : Db)
    (m : Metrics)
    → let r = (execute_with_retry world url extract opts max_retries).returned in
      (handle_job_result c text id now r.result r.error retries db m ≡ panicked db)
      ↔ (to_ℕ max_retries ≡ 0)
unfolding execute_with_retry execute_from
retry_panics_iff world url extract opts (negsuc n) c text id now retries db m =
    (λ h. refl, λ h. (panicked_iff c text id now none none retries db m).1 refl)
retry_panics_iff world url extract opts (pos zero) c text id now retries db m =
    (λ h. refl, λ h. (panicked_iff c text id now none none retries db m).1 refl)
retry_panics_iff world url extract opts (pos (suc n)) c text id now retries db m =
    let last : Returned = record { result = none; error = none } in
    let r = (execute_from world url extract opts (suc n) 0 last).returned in
    let some_answer =
      execute_from-answers world url extract opts (suc n) 0 last (inr (omega arith)) in
    (
      λ h. cc (sym some_answer ∙ (panicked_iff c text id now r.result r.error retries db m).0 h),
      λ h. absurd (omega arith),
    )
