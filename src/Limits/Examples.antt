-- ===== src/Limits/Examples.antt =====
-- Limiters that let one request through, for the two rate limiters of the program.
use web_gobbler.Prelude.{ℕ, zero, suc, Bool, true, false, none, some, List, [], ◌∷◌, ◌≡◌, refl}
use web_gobbler.Scraper.{rate_wait}
use web_gobbler.Api.Types.{status_body}
use web_gobbler.Limits.{Rate, find, store, rate_limit, wait_domain}
use web_gobbler.Limits.Apart.{Event, request, tick, seen_by, alone, seen_by-alone}

abbrev spend : ℕ → Bool × ℕ
spend zero = (false, 0)
spend (suc n) = (true, n)

abbrev once : Rate ℕ
once = record {
  new_limiter = 1;
  allow = λ now l. spend l;
  wait = λ now l. elim l [ zero ↦ (some rate_wait, 0) | suc n ↦ (none, n) ];
}

-- Two addresses take turns.
abbrev turns : List Event
turns = request 1 "a" ∷ request 2 "b" ∷ request 3 "a" ∷ tick ∷ request 4 "b" ∷ request 5 "a" ∷ []

turns_run : seen_by once "a" turns [] ≡ true ∷ false ∷ true ∷ []
unfolding seen_by find store
turns_run = refl

refused_run :
    (rate_limit once 2 "a"
      (λ s. (record { code = 200; body = status_body "ok" }, suc s))
      (("a", 0) ∷ [], 7)).1
    ≡ (("a", 0) ∷ [], 7)
unfolding rate_limit find store
refused_run = refl

wait_run : (wait_domain once 1 "h" []).0 ≡ none
unfolding wait_domain find store
wait_run = refl

seen_by-alone_example : seen_by once "a" turns [] ≡ alone once "a" turns none
unfolding find
seen_by-alone_example = seen_by-alone once "a" turns []
