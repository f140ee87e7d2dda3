-- ===== src/Crawl/Loop.antt =====
-- The rule for the loops of CrawlBFS and MapBFS (internal/crawl/crawl.go): an invariant and a
-- measure below the fuel.
use web_gobbler.Prelude.{ℕ, zero, suc, ◌<◌, ◌≡◌, ◌⊎◌, arith, refl}
use web_gobbler.Scraper.{Error}
use web_gobbler.Crawl.Frontier.{
  LoopEnd, stopped, wait_failed, out_of_fuel, Round, go_on, halt, wait_error, run_loop,
}
use mathlib.Core.Logic.{inl, inr}

-- What holds of the state at either way out; a loop that is out of fuel satisfies nothing.
abbrev pub Ends :
    {S : Type 0} → (ℕ → S → Round S) → (S → Type 0) → (S → Error → Type 0) → LoopEnd S → Type 0
Ends round P Q (stopped n s) = P s × (round n s ≡ halt)
Ends round P Q (wait_failed n s e) = Q s e
Ends round P Q out_of_fuel = ⊥

pub Round-cases :
    {S : Type 0} (r : Round S)
    → (((t : S) × (r ≡ go_on t)) ⊎ (r ≡ halt)) ⊎ ((t : S) × (e : Error) × (r ≡ wait_error t e))
Round-cases (go_on t) = inl (inl (t, refl))
Round-cases halt = inl (inr refl)
Round-cases (wait_error t e) = inr (t, e, refl)

module _ {S : Type 0} (round : ℕ → S → Round S) (P : S → Type 0) (Q : S → Error → Type 0)
    (measure : S → ℕ) where
  pub run_loop_rule :
      ((n : ℕ) (s t : S) → P s → round n s ≡ go_on t → P t × (measure t < measure s))
      → ((n : ℕ) (s t : S) (e : Error) → P s → round n s ≡ wait_error t e → Q t e)
      → (fuel n : ℕ) (s : S) → measure s < fuel
      → P s
      → Ends round P Q (run_loop round fuel n s)
  unfolding run_loop
  run_loop_rule keep quit zero n s m p = absurd (omega arith)
  run_loop_rule keep quit (suc fuel) n s m p = elim (Round-cases (round n s)) [
    | inl (inl (t, e)) ↦
        let (p', less) = keep n s t p e in
        rw (e, Ends) (run_loop_rule keep quit fuel (suc n) t (omega arith) p')
    | inl (inr e) ↦ rw (e, Ends) (p, e)
    | inr (t, x, e) ↦ rw (e, Ends) (quit n s t x p e)
  ]
