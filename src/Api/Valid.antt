-- ===== src/Api/Valid.antt =====
-- What a request that internal/api/validator.go lets through satisfies, and the reverse.
use web_gobbler.Prelude.{
  ℤ, pos, negsuc, ◌≤ℤ◌, int_ltb, String, str_eq, str_eq_iff_to, str_eq_iff_from, contains-true,
  contains-mem, Memᴰ, Bool, true, false, not, Option, none, some, List, [], ◌∷◌, contains, ◌≡◌, ◌≢◌,
  ◌↔◌, ◌⊎◌, inl, inr, refl, arith, All, Bool-cases, Option-cases, if◌then◌else◌,
}
use web_gobbler.Scraper.{Url, Net}
use web_gobbler.Api.Types.{RequestOptions, ScrapeRequest, CrawlRequest, MapRequest}
use web_gobbler.Api.Validator.{
  Invalid, extract_invalid, Strings, valid_extract_types, out_of_range, validate_options,
  check_options, validate_extract, validate_url, ◌orelse◌, validate_scrape_request,
  validate_crawl_request, validate_map_request,
}

-- A value that is set lies in a range.
abbrev pub Within : Option ℤ → ℤ → ℤ → Type 0
Within none lo hi = Unit
Within (some n) lo hi = (lo ≤ℤ n) × (n ≤ℤ hi)

pub record InRange (o : RequestOptions) : Type 0 where
  pub timeout : Within o.timeout_seconds (pos 1) (pos 60)
  pub retries : Within o.max_retries (pos 0) (pos 5)
  pub pages : Within o.max_pages (pos 1) (pos 100)
  pub depth : Within o.max_depth (pos 0) (pos 5)
  pub urls : Within o.max_urls (pos 1) (pos 500)

abbrev pub OptionsInRange : Option RequestOptions → Type 0
OptionsInRange none = Unit
OptionsInRange (some o) = InRange o

-- An absolute http or https URL with a host.
pub record WebUrl (net : Net) (url : String) : Type 0 where
  pub given : url ≢ ""
  pub target : Url
  pub parses : net.parse url ≡ some target
  pub web : (target.scheme ≡ "http") ⊎ (target.scheme ≡ "https")
  pub hosted : target.host ≢ ""

abbrev pub KnownType : Strings → String → Type 0
KnownType s t = Memᴰ (s.to_lower t) valid_extract_types

not_less_iff : (a b : ℤ) → (int_ltb a b ≡ false) ↔ (b ≤ℤ a)
not_less_iff (pos a) (pos b) = ground arith
not_less_iff (pos a) (negsuc b) = (λ h. tt, λ h. refl)
not_less_iff (negsuc a) (pos b) = (λ h. cc, λ h. elim h [ ])
not_less_iff (negsuc a) (negsuc b) = ground arith

out_of_range_iff : (o : Option ℤ) (lo hi : ℤ) → (out_of_range o lo hi ≡ false) ↔ Within o lo hi
unfolding out_of_range
out_of_range_iff none lo hi = (λ h. tt, λ h. refl)
out_of_range_iff (some n) lo hi = ground (arith, not_less_iff n lo, not_less_iff hi n)

validate_options_iff : (o : RequestOptions) → (validate_options o ≡ none) ↔ InRange o
unfolding validate_options
validate_options_iff o =
    let t₁ = out_of_range_iff o.timeout_seconds (pos 1) (pos 60) in
    let t₂ = out_of_range_iff o.max_retries (pos 0) (pos 5) in
    let t₃ = out_of_range_iff o.max_pages (pos 1) (pos 100) in
    let t₄ = out_of_range_iff o.max_depth (pos 0) (pos 5) in
    let t₅ = out_of_range_iff o.max_urls (pos 1) (pos 500) in
    (
      λ h. record {
        timeout = t₁.0 (ground arith);
        retries = t₂.0 (ground arith);
        pages = t₃.0 (ground arith);
        depth = t₄.0 (ground arith);
        urls = t₅.0 (ground arith);
      },
      λ r. rw (t₁.1 r.timeout, t₂.1 r.retries, t₃.1 r.pages, t₄.1 r.depth, t₅.1 r.urls) refl,
    )

check_options_iff : (o : Option RequestOptions) → (check_options o ≡ none) ↔ OptionsInRange o
check_options_iff none = (λ h. tt, λ h. refl)
check_options_iff (some o) = validate_options_iff o

first_known :
    (b : Bool) (rest : Option Invalid) (t : String)
    → (if not b then some (extract_invalid t) else rest) ≡ none
    → b ≡ true
first_known true rest t h = refl
first_known false rest t h = cc

rest_known :
    (b : Bool) (rest : Option Invalid) (t : String)
    → (if not b then some (extract_invalid t) else rest) ≡ none
    → rest ≡ none
rest_known true rest t h = h
rest_known false rest t h = cc

validate_extract_iff :
    (s : Strings) (ts : List String) → (validate_extract s ts ≡ none) ↔ All (KnownType s) ts
unfolding validate_extract
validate_extract_iff s [] = (λ h. tt, λ h. refl)
validate_extract_iff s (t ∷ ts) =
    let rest = validate_extract_iff s ts in
    let known = contains valid_extract_types (s.to_lower t) in
    (
      λ h. (
        contains-true valid_extract_types (s.to_lower t)
            (first_known known (validate_extract s ts) t h),
        rest.0 (rest_known known (validate_extract s ts) t h),
      ),
      λ (k, ks). rw (contains-mem valid_extract_types (s.to_lower t) k) (rest.1 ks),
    )

validate_url_iff : (net : Net) (url : String) → (validate_url net url ≡ none) ↔ WebUrl net url
unfolding validate_url
validate_url_iff net url = (to, from)
  where
    to : validate_url net url ≡ none → WebUrl net url
    to h = elim (Bool-cases (str_eq url "")) [
      | inl e ↦ absurd (ground arith)
      | inr e ↦ elim (Option-cases (net.parse url)) [
        | inl p ↦ absurd (ground arith)
        | inr (u, p) ↦ record {
          given = λ q. cc (str_eq_iff_from url "" q);
          target = u;
          parses = p;
          web = ground (arith, str_eq_iff_to u.scheme "http", str_eq_iff_to u.scheme "https");
          hosted = λ q. absurd (ground (arith, str_eq_iff_from u.host "" q));
        }
      ]
    ]

    from : WebUrl net url → validate_url net url ≡ none
    from w = ground (
      arith,
      w.parses,
      str_eq_iff_to url "",
      str_eq_iff_to w.target.host "",
      str_eq_iff_from w.target.scheme "http",
      str_eq_iff_from w.target.scheme "https",
    )

orelse_iff : (a b : Option Invalid) → ((a orelse b) ≡ none) ↔ ((a ≡ none) × (b ≡ none))
orelse_iff none b = (λ h. (refl, h), λ h. h.1)
orelse_iff (some e) b = (λ h. cc, λ h. cc)

module _ (net : Net) (strings : Strings) where
  -- A scrape request is let through exactly when its URL is an absolute web URL, its extract types
  -- are known in lower case, and its options, where there are any, are in range.
  pub validate_scrape_iff :
      (req : ScrapeRequest)
      → (validate_scrape_request net strings req ≡ none)
        ↔ (WebUrl net req.url × All (KnownType strings) req.extract × OptionsInRange req.options)
  unfolding validate_scrape_request
  validate_scrape_iff req = ground (
    arith,
    orelse_iff (validate_url net req.url)
        (validate_extract strings req.extract orelse check_options req.options),
    orelse_iff (validate_extract strings req.extract) (check_options req.options),
    validate_url_iff net req.url,
    validate_extract_iff strings req.extract,
    check_options_iff req.options,
  )

  -- A crawl request is let through under the same conditions.
  pub validate_crawl_iff :
      (req : CrawlRequest)
      → (validate_crawl_request net strings req ≡ none)
        ↔ (WebUrl net req.url × All (KnownType strings) req.extract × OptionsInRange req.options)
  unfolding validate_crawl_request
  validate_crawl_iff req = ground (
    arith,
    orelse_iff (validate_url net req.url)
        (validate_extract strings req.extract orelse check_options req.options),
    orelse_iff (validate_extract strings req.extract) (check_options req.options),
    validate_url_iff net req.url,
    validate_extract_iff strings req.extract,
    check_options_iff req.options,
  )

-- A map request is let through exactly when its URL is an absolute web URL and its options, where
-- there are any, are in range.
pub validate_map_iff :
    (net : Net) (req : MapRequest)
    → (validate_map_request net req ≡ none) ↔ (WebUrl net req.url × OptionsInRange req.options)
unfolding validate_map_request
validate_map_iff net req = ground (
  arith,
  orelse_iff (validate_url net req.url) (check_options req.options),
  validate_url_iff net req.url,
  check_options_iff req.options,
)
