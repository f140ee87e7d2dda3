-- ===== src/Scraper/SessionsExamples.antt =====
-- Two calls of a browser fetcher with one slot (internal/scraper/fetcher.go).
use web_gobbler.Prelude.{ℤ, pos, [], ◌∷◌, refl, arith}
use web_gobbler.Scraper.Sessions.{
  at_select, in_session, Fetcher, new_browser_fetcher, call, enter, Reach, here, next, Bounded,
  sessions-bound,
}

abbrev one : ℤ
one = pos 1

-- The second call waits for the first.
abbrev busy : Fetcher
busy = record { slots = 1; held = 1; calls = at_select ∷ in_session ∷ [] }

busy-Reach : Reach one busy
unfolding new_browser_fetcher
busy-Reach = next (next (next here call) call) (enter (at_select ∷ []) [] refl (omega arith))

sessions-bound_example : Bounded one busy
sessions-bound_example = sessions-bound one busy-Reach
