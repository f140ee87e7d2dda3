-- ===== src/Worker/Laws.antt =====
-- The retry loop and the handling of results (cmd/worker/main.go).
use web_gobbler.Prelude.{
  ℕ, zero, suc, ◌+◌, ◌≤◌, ◌<◌, ℤ, pos, to_ℕ, String, false, Option, none, some, List, [], ◌∷◌, ltb,
  ◌≡◌, refl, sym, ap, subst, inl, inr, arith, Bool-cases,
}
use web_gobbler.Scraper.{Error, ScrapeOptions, Result, scraped, refused}
use web_gobbler.Crawl.Frontier.{World, Returned}
use web_gobbler.Worker.Retry.{delayed, execute_from, execute_with_retry}

abbrev sum : List ℕ → ℕ
sum [] = 0
sum (n ∷ ns) = n + sum ns

-- The attempt brought back an error.
abbrev pub Fails : World → String → List String → ScrapeOptions → ℕ → Type 0
Fails world url extract opts n =
    (p : Option Result) × (e : Error) × (world.scrape_page n url extract opts ≡ refused p e)

module _ (world : World) (url : String) (extract : List String) (opts : ScrapeOptions) where
  -- One round of the loop.
  round_fails :
      (left attempt : ℕ) (last : Returned) {p : Option Result} {e : Error}
      → world.ctx_done attempt ≡ false
      → world.scrape_page attempt url extract opts ≡ refused p e
      → execute_from world url extract opts (suc left) attempt last
        ≡ delayed attempt (
            execute_from world url extract opts left
              (suc attempt)
              (record { result = p; error = some e }))
  unfolding execute_from
  round_fails left attempt last calm fail = ground arith

  round_succeeds :
      (left attempt : ℕ) (last : Returned) {r : Result}
      → world.ctx_done attempt ≡ false
      → world.scrape_page attempt url extract opts ≡ scraped r
      → execute_from world url extract opts (suc left) attempt last
        ≡ delayed attempt
            (record { returned = record { result = some r; error = none }; tries = 0; waits = [] })
  unfolding execute_from
  round_succeeds left attempt last calm good = ground arith

  -- Every attempt from one up to another fails.
  abbrev FailsBetween : ℕ → ℕ → Type 0
  FailsBetween attempt stop = (n : ℕ) → attempt ≤ n → n < stop → Fails world url extract opts n

  -- The first success after failures is returned, if there are rounds for it.
  execute_from-success :
      (left attempt stop : ℕ) (last : Returned) (r : Result)
      → ((n : ℕ) → world.ctx_done n ≡ false)
      → FailsBetween attempt stop
      → world.scrape_page stop url extract opts ≡ scraped r
      → attempt ≤ stop
      → stop < attempt + left
      → let a = execute_from world url extract opts left attempt last in
        (a.returned ≡ record { result = some r; error = none }) × (attempt + a.tries ≡ suc stop)
  execute_from-success zero attempt stop last r calm fails good low high = absurd (omega arith)
  execute_from-success (suc left) attempt stop last r calm fails good low high =
      elim (Bool-cases (ltb attempt stop)) [
        | inl before ↦
            let (p, e, fail) = fails attempt (omega arith) (ground arith) in
            let later =
              execute_from-success left (suc attempt) stop (record { result = p; error = some e }) r
                calm (λ n lo hi. fails n (omega arith) hi) good (ground arith) (omega arith) in
            rw (round_fails left attempt last (calm attempt) fail) (later.0, omega (arith, later.1))
        | inr now ↦
            let same : attempt ≡ stop = ground arith in
            rw
              (round_succeeds left attempt last (calm attempt)
                (subst (λ n. world.scrape_page n url extract opts ≡ scraped r) (sym same) good))
              (refl, omega arith)
      ]

  -- Failures in all rounds that are left: the last is returned.
  execute_from-failure :
      (left attempt stop : ℕ) (last : Returned) (p : Option Result) (e : Error)
      → ((n : ℕ) → world.ctx_done n ≡ false)
      → FailsBetween attempt stop
      → world.scrape_page stop url extract opts ≡ refused p e
      → attempt + left ≡ suc stop
      → 0 < left
      → let a = execute_from world url extract opts left attempt last in
        (a.returned ≡ record { result = p; error = some e }) × (a.tries ≡ left)
  execute_from-failure zero attempt stop last p e calm fails fail end more = absurd (omega arith)
  execute_from-failure (suc zero) attempt stop last p e calm fails fail end more =
      let same : attempt ≡ stop = omega arith in
      rw
        (round_fails 0 attempt last (calm attempt)
          (subst (λ n. world.scrape_page n url extract opts ≡ refused p e) (sym same) fail))
        (unfold execute_from in (refl, refl))
  execute_from-failure (suc (suc left)) attempt stop last p e calm fails fail end more =
      let (q, x, miss) = fails attempt (omega arith) (omega arith) in
      let later =
        execute_from-failure (suc left) (suc attempt) stop (record { result = q; error = some x }) p
          e calm (λ n lo hi. fails n (omega arith) hi) fail (omega arith) (omega arith) in
      rw (round_fails (suc left) attempt last (calm attempt) miss) (later.0, ap suc later.1)

  -- executeWithRetry returns the first success, after as many failures as came before it, if the
  -- context lives and there are attempts for it.
  pub retry_success :
      (max_retries : ℤ) (stop : ℕ) (r : Result)
      → ((n : ℕ) → world.ctx_done n ≡ false)
      → ((n : ℕ) → n < stop → Fails world url extract opts n)
      → world.scrape_page stop url extract opts ≡ scraped r
      → stop < to_ℕ max_retries
      → let a = execute_with_retry world url extract opts max_retries in
        (a.returned ≡ record { result = some r; error = none }) × (a.tries ≡ suc stop)
  unfolding execute_with_retry
  retry_success max_retries stop r calm fails good room =
      let (back, count) =
        execute_from-success (to_ℕ max_retries) 0 stop (record { result = none; error = none }) r
          calm (λ n lo. fails n) good (omega arith) (omega arith) in
      (back, omega (arith, count))

  -- Where all attempts fail, whatever their errors, there are exactly as many as the limit allows,
  -- and the last one's error is returned.
  pub retry_failure :
      (limit : ℕ) (p : Option Result) (e : Error)
      → ((n : ℕ) → world.ctx_done n ≡ false)
      → ((n : ℕ) → n < limit → Fails world url extract opts n)
      → world.scrape_page limit url extract opts ≡ refused p e
      → let a = execute_with_retry world url extract opts (pos (suc limit)) in
        (a.returned ≡ record { result = p; error = some e }) × (a.tries ≡ suc limit)
  unfolding execute_with_retry
  retry_failure limit p e calm fails fail =
      execute_from-failure (suc limit) 0 limit (record { result = none; error = none }) p e calm
        (λ n lo. fails n) fail (omega arith) (omega arith)
