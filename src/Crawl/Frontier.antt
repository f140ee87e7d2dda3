-- ===== src/Crawl/Frontier.antt =====
-- internal/crawl/crawl.go, what CrawlBFS and MapBFS share: the options, the frontier, the
-- normalisation of URLs, and the surroundings of a loop.
-- A round of a loop is numbered, so that what the outside answers may change with time: whether the
-- context is done or the job cancelled, what the rate limiter says, and what a scrape brings back.
use web_gobbler.Prelude.{
  ℕ, zero, suc, ℤ, pos, int_ltb, to_ℕ, String, Bool, false, Option, none, some, List, if◌then◌else◌,
}
use web_gobbler.Scraper.{Url, Net, Error, ScrapeOptions, Result, Scraped}

-- crawl.Options
pub record Options : Type 0 where
  pub max_pages : ℤ
  pub max_depth : ℤ
  pub max_urls : ℤ
  pub extract : List String
  pub scrape : ScrapeOptions

-- frontierItem
pub record Item : Type 0 where
  pub url : String
  pub depth : ℕ

-- The surroundings of a crawl: ctx.Err(), the optional cancelCheck and rate limiter, ScrapePage,
-- and the time since the start when a round begins.
pub record World : Type 0 where
  pub ctx_done : ℕ → Bool
  pub cancel_check : Option (ℕ → Bool)
  pub rate : Option (ℕ → String → Option Error)
  pub scrape_page : ℕ → String → List String → ScrapeOptions → Scraped
  pub elapsed_ms : ℕ → ℕ

-- (*scraper.Result, error)
pub record Returned : Type 0 where
  pub result : Option Result
  pub error : Option Error

-- How a loop is left: normally, by the rate limiter's error, or (in the model alone) for want of
-- fuel. The number is the round at which it was left.
pub data LoopEnd (S : Type 0) : Type 0 where
  stopped : ℕ → S → LoopEnd S
  wait_failed : ℕ → S → Error → LoopEnd S
  out_of_fuel : LoopEnd S

-- One round: go on, or leave the loop.
pub data Round (S : Type 0) : Type 0 where
  go_on : S → Round S
  halt : Round S
  wait_error : S → Error → Round S

unfoldable pub run_loop : {S : Type 0} → (ℕ → S → Round S) → ℕ → ℕ → S → LoopEnd S
run_loop round zero n s = out_of_fuel
run_loop round (suc fuel) n s = elim (round n s) [
  | go_on t ↦ run_loop round fuel (suc n) t
  | halt ↦ stopped n s
  | wait_error t e ↦ wait_failed n t e
]

-- `if n <= 0 { n = d }`
abbrev pub or_default : ℤ → ℕ → ℕ
or_default n d = if int_ltb (pos 0) n then to_ℕ n else d

-- `if n < 0 { n = d }`
abbrev pub depth_or_default : ℤ → ℕ → ℕ
depth_or_default n d = if int_ltb n (pos 0) then d else to_ℕ n

abbrev pub is_cancelled : Option (ℕ → Bool) → ℕ → Bool
is_cancelled none n = false
is_cancelled (some check) n = check n

abbrev pub wait_on : Option (ℕ → String → Option Error) → ℕ → String → Option Error
wait_on none n host = none
wait_on (some wait) n host = wait n host

module _ (net : Net) where
  -- NormalizeURL; `none` is its error.
  unfoldable pub normalize_url : String → Option String
  normalize_url raw = elim (net.parse raw) [
    | none ↦ none
    | some u ↦ some (net.to_string (record u { fragment = "" }))
  ]

  unfoldable pub same_host : Url → Url → Bool
  same_host a b = net.equal_fold (net.hostname a) (net.hostname b)

  -- The guards that the link loops of both functions share: the link's normal form, if it parses
  -- twice and stays on the seed's host.
  unfoldable pub admissible : Url → String → Option String
  unfolding normalize_url same_host
  admissible seed link = elim (normalize_url link) [
    | none ↦ none
    | some norm ↦ elim (net.parse norm) [
      | none ↦ none
      | some u ↦ if same_host seed u then some norm else none
    ]
  ]
