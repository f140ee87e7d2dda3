-- ===== src/Api/Answers.antt =====
-- What the handlers of internal/api/handlers.go answer, whatever the store and the queue do.
use web_gobbler.Prelude.{
  String, Option, none, some, List, [], ◌∷◌, ◌≡◌, ◌↔◌, arith, inl, inr, ◌⊎◌, All, Option-cases,
}
use web_gobbler.Scraper.{Net}
use web_gobbler.Queue.{kind_scrape, kind_crawl, kind_map}
use web_gobbler.Api.Types.{RequestOptions, ScrapeRequest, CrawlRequest, MapRequest, Response}
use web_gobbler.Api.Validator.{
  Invalid, Strings, validate_scrape_request, validate_crawl_request, validate_map_request,
}
use web_gobbler.Api.Backend.{Backend, Serving, Uuids}
use web_gobbler.Api.Convert.{extract_or, crawl_defaults, map_defaults}
use web_gobbler.Api.Handlers.{checked, accept_job, handle_scrape, handle_crawl, handle_map}
use web_gobbler.Api.Valid.{
  WebUrl, KnownType, OptionsInRange, validate_scrape_iff, validate_crawl_iff, validate_map_iff,
}

module _ {S : Type 0} (b : Backend S) (ids : Uuids) where
  -- Once a request is let through, the answer is 202 or 500.
  accept_job-code :
      (kind url : String) (extract : List String) (opts : Option RequestOptions) (s : Serving S)
      → let code = (accept_job b ids kind url extract opts s).0.code in (code ≡ 202) ⊎ (code ≡ 500)
  unfolding accept_job
  accept_job-code kind url extract opts s = ground arith

  -- What the three handlers make of a body that can be read.
  checked-code :
      {R Valid : Type 0} (strings : Strings) (validate : R → Option Invalid)
      (run : R → Serving S → Response × Serving S) (req : R) (s : Serving S)
      → (validate req ≡ none) ↔ Valid
      → ((run req s).0.code ≡ 202) ⊎ ((run req s).0.code ≡ 500)
      → let answer = checked b ids strings validate run (some req) s in
        (Valid × ((answer.0.code ≡ 202) ⊎ (answer.0.code ≡ 500)))
        ⊎ ((¬ Valid) × (answer.0.code ≡ 400) × (answer.1 ≡ s))
  checked-code strings validate run req s valid codes = elim (Option-cases (validate req)) [
    | inl passed ↦ inl (valid.0 passed, ground (arith, codes, passed))
    | inr (e, stopped) ↦
        inr (λ v. cc (valid.1 v, stopped), ground (arith, stopped), ground (arith, stopped))
  ]

  module _ (net : Net) (strings : Strings) (s : Serving S) where
    -- A scrape request that is valid is answered with 202 or 500; any other with 400, and then
    -- neither the store nor the queue is called and no metric moves.
    pub handle_scrape-code :
        (req : ScrapeRequest)
        → let answer = handle_scrape b ids net strings (some req) s in
          let Valid =
            WebUrl net req.url × All (KnownType strings) req.extract × OptionsInRange req.options in
          (Valid × ((answer.0.code ≡ 202) ⊎ (answer.0.code ≡ 500)))
          ⊎ ((¬ Valid) × (answer.0.code ≡ 400) × (answer.1 ≡ s))
    unfolding handle_scrape
    handle_scrape-code req =
        checked-code strings (validate_scrape_request net strings)
          (λ r. accept_job b ids kind_scrape r.url (extract_or ("links" ∷ []) r.extract) r.options)
          req s (validate_scrape_iff net strings req)
          (accept_job-code kind_scrape req.url (extract_or ("links" ∷ []) req.extract) req.options
            s)

    -- The same of a crawl request.
    pub handle_crawl-code :
        (req : CrawlRequest)
        → let answer = handle_crawl b ids net strings (some req) s in
          let Valid =
            WebUrl net req.url × All (KnownType strings) req.extract × OptionsInRange req.options in
          (Valid × ((answer.0.code ≡ 202) ⊎ (answer.0.code ≡ 500)))
          ⊎ ((¬ Valid) × (answer.0.code ≡ 400) × (answer.1 ≡ s))
    unfolding handle_crawl
    handle_crawl-code req =
        checked-code strings (validate_crawl_request net strings)
          (λ r.
            accept_job b ids kind_crawl r.url (extract_or ("markdown" ∷ []) r.extract)
              (some (crawl_defaults r.options)))
          req s (validate_crawl_iff net strings req)
          (accept_job-code kind_crawl req.url (extract_or ("markdown" ∷ []) req.extract)
            (some (crawl_defaults req.options)) s)

    -- A map request that is valid, of its URL and its options, is answered with 202 or 500; any
    -- other with 400, and then neither the store nor the queue is called and no metric moves.
    pub handle_map-code :
        (req : MapRequest)
        → let answer = handle_map b ids net strings (some req) s in
          let Valid = WebUrl net req.url × OptionsInRange req.options in
          (Valid × ((answer.0.code ≡ 202) ⊎ (answer.0.code ≡ 500)))
          ⊎ ((¬ Valid) × (answer.0.code ≡ 400) × (answer.1 ≡ s))
    unfolding handle_map
    handle_map-code req =
        checked-code strings (validate_map_request net)
          (λ r. accept_job b ids kind_map r.url ("links" ∷ []) (some (map_defaults r.options))) req
          s (validate_map_iff net req)
          (accept_job-code kind_map req.url ("links" ∷ []) (some (map_defaults req.options)) s)
