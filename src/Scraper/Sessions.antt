-- ===== src/Scraper/Sessions.antt =====
-- internal/scraper/fetcher.go: NewBrowserFetcher, and the calls of BrowserFetcher.Fetch that share
-- its channel of slots. What a call does with a slot is in Scraper/Fetch.
use web_gobbler.Prelude.{
  ℕ, suc, ◌+◌, ◌-◌, ◌≤◌, ◌<◌, ℤ, pos, int_ltb, to_ℕ, negsuc, true, List, [], ◌∷◌, ◌++◌, ◌≡◌, refl,
  ap, ◌∙◌, ◌⊎◌, inl, inr, arith, ltb, Bool-cases, if◌then◌else◌,
}

-- Where a call stands: at the select, with a slot, or returned.
pub data Call : Type 0 where
  at_select in_session over : Call

-- `slots` is the capacity of the channel, `held` what is in it.
pub record Fetcher : Type 0 where
  pub slots : ℕ
  pub held : ℕ
  pub calls : List Call

-- NewBrowserFetcher
unfoldable pub new_browser_fetcher : ℤ → Fetcher
new_browser_fetcher max_concurrent = record {
  slots = if int_ltb max_concurrent (pos 1) then 2 else to_ℕ max_concurrent;
  held = 0;
  calls = [];
}

-- The calls go on in any order: a send waits for room, the end of the context may cut the wait, and
-- the deferred receive gives the slot back however the session ends.
pub data Step (f : Fetcher) : Fetcher → Type 0 where
  call : Step f (record f { calls = at_select ∷ f.calls })
  enter :
      (before after : List Call)
      → f.calls ≡ before ++ at_select ∷ after
      → f.held < f.slots
      → Step f (record f { held = suc f.held; calls = before ++ in_session ∷ after })
  give_up :
      (before after : List Call)
      → f.calls ≡ before ++ at_select ∷ after
      → Step f (record f { calls = before ++ over ∷ after })
  leave :
      (before after : List Call)
      → f.calls ≡ before ++ in_session ∷ after
      → Step f (record f { held = f.held - 1; calls = before ++ over ∷ after })

pub data Reach (max_concurrent : ℤ) : Fetcher → Type 0 where
  here : Reach max_concurrent (new_browser_fetcher max_concurrent)
  next : {f g : Fetcher} → Reach max_concurrent f → Step f g → Reach max_concurrent g

-- The calls with a session.
unfoldable pub sessions : List Call → ℕ
sessions [] = 0
sessions (in_session ∷ cs) = suc (sessions cs)
sessions (at_select ∷ cs) = sessions cs
sessions (over ∷ cs) = sessions cs

sessions-append : (xs ys : List Call) → sessions (xs ++ ys) ≡ sessions xs + sessions ys
unfolding sessions
sessions-append [] ys = omega arith
sessions-append (in_session ∷ xs) ys = omega (arith, sessions-append xs ys)
sessions-append (at_select ∷ xs) ys = omega (arith, sessions-append xs ys)
sessions-append (over ∷ xs) ys = omega (arith, sessions-append xs ys)

-- The channel holds one entry for each session.
record Inv (max_concurrent : ℤ) (f : Fetcher) : Type 0 where
  pub counted : f.held ≡ sessions f.calls
  pub room : f.held ≤ f.slots
  pub size : f.slots ≡ (new_browser_fetcher max_concurrent).slots

module _ (max_concurrent : ℤ) where
  abbrev Split : Fetcher → List Call → List Call → Call → Type 0
  Split f before after c = f.calls ≡ before ++ c ∷ after

  sessions_around :
      (f : Fetcher) (before after : List Call) (c : Call)
      → Split f before after c
      → sessions f.calls ≡ sessions before + sessions (c ∷ after)
  sessions_around f before after c e = ap sessions e ∙ sessions-append before (c ∷ after)

  Step-Inv : {f g : Fetcher} → Step f g → Inv max_concurrent f → Inv max_concurrent g
  unfolding sessions
  Step-Inv call v = record { counted = v.counted; room = v.room; size = v.size }
  Step-Inv {f} (enter before after e free) v = record {
    counted = omega (
      arith,
      v.counted,
      sessions_around f before after at_select e,
      sessions-append before (in_session ∷ after),
    );
    room = omega (arith, free);
    size = v.size;
  }
  Step-Inv {f} (give_up before after e) v = record {
    counted = omega (
      arith,
      v.counted,
      sessions_around f before after at_select e,
      sessions-append before (over ∷ after),
    );
    room = v.room;
    size = v.size;
  }
  Step-Inv {f} (leave before after e) v = record {
    counted = omega (
      arith,
      v.counted,
      sessions_around f before after in_session e,
      sessions-append before (over ∷ after),
    );
    room = omega (arith, v.room);
    size = v.size;
  }

  Reach-Inv : {f : Fetcher} → Reach max_concurrent f → Inv max_concurrent f
  unfolding new_browser_fetcher sessions
  Reach-Inv here = record { counted = refl; room = omega arith; size = refl }
  Reach-Inv (next r st) = Step-Inv st (Reach-Inv r)

  -- The limit that a caller asks for, two where it asks for none.
  abbrev Limit : ℕ → Type 0
  Limit n =
      ((1 ≤ n) × (max_concurrent ≡ pos n)) ⊎ ((n ≡ 2) × (int_ltb max_concurrent (pos 1) ≡ true))

  slots-Limit : Limit (new_browser_fetcher max_concurrent).slots
  unfolding new_browser_fetcher
  slots-Limit = limits max_concurrent
    where
      limits :
          (m : ℤ)
          → let n = (new_browser_fetcher m).slots in
            ((1 ≤ n) × (m ≡ pos n)) ⊎ ((n ≡ 2) × (int_ltb m (pos 1) ≡ true))
      limits (pos m) = elim (Bool-cases (ltb m 1)) [
        | inl e ↦ inr (ground (arith, e), e)
        | inr e ↦ inl (ground (arith, e), ground (arith, e))
      ]
      limits (negsuc n) = inr (refl, refl)

  abbrev pub Bounded : Fetcher → Type 0
  Bounded f =
      (n : ℕ) × Limit n
      × (sessions f.calls ≤ n)
      × (f.held ≡ sessions f.calls)
      × ((before after : List Call)
          → f.calls ≡ before ++ at_select ∷ after
          → sessions f.calls < n
          → Step f (record f { held = suc f.held; calls = before ++ in_session ∷ after }))

  -- However the calls of a browser fetcher interleave, and whichever end by a result, an error or
  -- their context: the sessions are never more than the limit that was asked for (two where it is
  -- less than one), each entry of the channel belongs to a session, and while fewer run than the
  -- limit a call that waits for a slot can have one.
  pub sessions-bound : {f : Fetcher} → Reach max_concurrent f → Bounded f
  unfolding new_browser_fetcher
  sessions-bound {f} r =
      let v = Reach-Inv r in
      let slots = (new_browser_fetcher max_concurrent).slots in
      (
        slots,
        slots-Limit,
        omega (arith, v.counted, v.room, v.size),
        v.counted,
        λ before after e free. enter before after e (omega (arith, v.counted, v.size, free)),
      )
