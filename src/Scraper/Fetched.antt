-- ===== src/Scraper/Fetched.antt =====
-- What the fetchers of internal/scraper/fetcher.go return.
use Prim.Native.String.{len}
use web_gobbler.Prelude.{
  ℕ, ◌≤◌, ◌<◌, ℤ, pos, to_ℕ, int_ltb, String, cut, len-cut, Bool, true, false, not, ◌||◌, ltb, some,
  ◌≡◌, ◌≢◌, ◌⊎◌, inl, inr, sym, arith, Bool-cases, Option-cases, if◌then◌else◌,
}
use web_gobbler.Scraper.{http_failed, request_failed, timeout, ScrapeOptions}
use web_gobbler.Scraper.Addresses.{Resolver}
use web_gobbler.Scraper.Fetch.{
  HttpResponse, Web, Fetched, fetched, not_fetched, limited, read_all, fetch_response, http_fetch,
  browser_fetch, browser_available, browser_task, new_scrape_client, get_request,
}

-- A page that came has a status of success and fits the limit; an error of its status says which,
-- and that is none of success.
abbrev pub IsFetched : ScrapeOptions → Fetched → Type 0
IsFetched opts (fetched body status) =
    (200 ≤ status)
    × (status < 300)
    × (int_ltb (pos 0) opts.max_body_size ≡ true → len body ≤ to_ℕ opts.max_body_size)
IsFetched opts (not_fetched status e) =
    (n : ℕ) → e ≡ http_failed n → (n ≡ status) × ((status < 200) ⊎ (300 ≤ status))

limited-bound :
    (max : ℤ) (body : String) → int_ltb (pos 0) max ≡ true → len (limited max body) ≤ to_ℕ max
limited-bound max body h = rw h (len-cut (to_ℕ max) body)

read_all-bound :
    (max : ℤ) (resp : HttpResponse) (body : String)
    → read_all max resp ≡ some body
    → int_ltb (pos 0) max ≡ true
    → len body ≤ to_ℕ max
read_all-bound max resp body h positive = elim (Bool-cases resp.breaks) [
  | inl broken ↦ elim (Bool-cases (ltb (len resp.body) (to_ℕ max))) [
    | inl short ↦ ground (arith, h, positive, broken, short)
    | inr full ↦
        let same : body ≡ cut (to_ℕ max) resp.body = ground (arith, h, positive, broken, full) in
        rw same (len-cut (to_ℕ max) resp.body)
  ]
  | inr whole ↦
      let same : body ≡ limited max resp.body = ground (arith, h, whole) in
      rw same (limited-bound max resp.body positive)
]

http_failed-injective : (a b : ℕ) → http_failed a ≡ http_failed b → a ≡ b
http_failed-injective a b h = cc h

fetch_response-IsFetched :
    (opts : ScrapeOptions) (resp : HttpResponse) → IsFetched opts (fetch_response opts resp)
unfolding fetch_response
fetch_response-IsFetched opts resp =
    elim (Bool-cases (ltb resp.status 200 || not (ltb resp.status 300))) [
      | inl bad ↦ rw bad (λ n h. (sym (http_failed-injective resp.status n h), ground (arith, bad)))
      | inr good ↦ elim (Option-cases (read_all opts.max_body_size resp)) [
        | inl e ↦ rw (good, e) (λ n h. cc h)
        | inr (body, e) ↦
            rw (good, e)
              (
                ground (arith, good),
                ground (arith, good),
                read_all-bound opts.max_body_size resp body e,
              )
      ]
    ]

no_status : (done : Bool) (n : ℕ) → (if done then timeout else request_failed) ≢ http_failed n
no_status true n h = cc h
no_status false n h = cc h

pub http_fetch-IsFetched :
    (web : Web) (dns : Resolver) (raw : String) (opts : ScrapeOptions)
    → IsFetched opts (http_fetch web dns raw opts)
unfolding http_fetch
http_fetch-IsFetched web dns raw opts = elim (Bool-cases (web.is_request raw)) [
  | inr bad ↦ rw bad (λ n h. cc h)
  | inl good ↦ elim (Option-cases (web.send (new_scrape_client opts dns) (get_request opts raw))) [
    | inl e ↦ rw (good, e) (λ n h. absurd (no_status web.ctx_done n h))
    | inr (resp, e) ↦ rw (good, e) (fetch_response-IsFetched opts resp)
  ]
]

pub browser_fetch-IsFetched :
    (web : Web) (raw : String) (opts : ScrapeOptions) → IsFetched opts (browser_fetch web raw opts)
unfolding browser_fetch
browser_fetch-IsFetched web raw opts = elim (Bool-cases (browser_available web)) [
  | inr missing ↦ rw missing (λ n h. cc h)
  | inl there ↦ elim (Bool-cases web.has_slot) [
    | inr ended ↦ rw (there, ended) (λ n h. cc h)
    | inl slot ↦ elim (Option-cases (web.run (browser_task web raw opts))) [
      | inl e ↦ rw (there, slot, e) (λ n h. absurd (no_status web.ctx_done n h))
      | inr (html, e) ↦
          rw (there, slot, e) (omega arith, omega arith, limited-bound opts.max_body_size html)
    ]
  ]
]

-- The two fetchers, on one web: whichever the options choose, a body is returned with a status from
-- 200 to 299 only and, where MaxBodySize is positive, never with more bytes than that; and
-- ErrHTTPFailed is returned for a status outside that range only, with that status beside it.
pub fetch_lem :
    (web : Web) (dns : Resolver) (raw : String) (opts : ScrapeOptions)
    → IsFetched opts (http_fetch web dns raw opts) × IsFetched opts (browser_fetch web raw opts)
fetch_lem web dns raw opts =
    (http_fetch-IsFetched web dns raw opts, browser_fetch-IsFetched web raw opts)
