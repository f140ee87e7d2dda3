-- ===== src/Limits.antt =====
-- The two rate limiters: perDomainRateLimiter of cmd/worker/main.go, and IPRateLimiter with
-- RateLimitMiddleware of internal/api/middleware.go. Each keeps a map of limiters under a mutex,
-- which makes each look into the map one step; a purge of the map comes between requests here.
pub mod Apart
pub mod Examples
use web_gobbler.Prelude.{
  ℕ, String, str_eq, Bool, true, false, not, Option, none, some, List, [], ◌∷◌, if◌then◌else◌,
}
use web_gobbler.Scraper.{Error}
use web_gobbler.Api.Types.{Response}
use web_gobbler.Api.Convert.{error_response}

-- golang.org/x/time/rate: a new limiter of the rate and burst that are set, Allow and Wait at an
-- instant.
pub record Rate (L : Type 0) : Type 0 where
  pub new_limiter : L
  pub allow : ℕ → L → Bool × L
  pub wait : ℕ → L → Option Error × L

-- map[string]*rate.Limiter
abbrev pub Limiters : Type 0 → Type 0
Limiters L = List (String × L)

module _ {L : Type 0} where
  unfoldable pub find : String → Limiters L → Option L
  find key [] = none
  find key (entry ∷ rest) = if str_eq entry.0 key then some entry.1 else find key rest

  -- The limiter under a key becomes another; a key that is not there is added.
  unfoldable pub store : String → L → Limiters L → Limiters L
  store key l [] = (key, l) ∷ []
  store key l (entry ∷ rest) =
      if str_eq entry.0 key then (key, l) ∷ rest else entry ∷ store key l rest

module _ {L : Type 0} (rate : Rate L) where
  -- getLimiter, and the look into the map of Wait
  abbrev pub get_limiter : String → Limiters L → L
  get_limiter key m = elim (find key m) [ none ↦ rate.new_limiter | some l ↦ l ]

  -- A call of a method of the limiter of a key.
  abbrev pub on_limiter : {A : Type 0} → (L → A × L) → String → Limiters L → A × Limiters L
  on_limiter f key m = let (answer, l) = f (get_limiter key m) in (answer, store key l m)

  -- perDomainRateLimiter.Wait
  unfoldable pub wait_domain : ℕ → String → Limiters L → Option Error × Limiters L
  wait_domain now hostname m = on_limiter (rate.wait now) hostname m

  -- Whether RateLimitMiddleware lets a request through.
  abbrev pub admit : ℕ → String → Limiters L → Bool × Limiters L
  admit now ip m = on_limiter (rate.allow now) ip m

  -- RateLimitMiddleware, before the handlers that `next` stands for.
  unfoldable pub rate_limit :
      {S : Type 0} → ℕ → String → (S → Response × S) → Limiters L × S → Response × (Limiters L × S)
  rate_limit now ip next (m, s) =
      let (allowed, m') = admit now ip m in
      let (answer, s') = next s in
      if not allowed
      then (error_response 429 "rate limit exceeded: 60 requests per minute per IP", (m', s))
      else (answer, (m', s'))

  -- cleanupLoop, at one tick
  abbrev pub clean_up : Limiters L → Limiters L
  clean_up m = []
