-- ===== src/Server/Answers.antt =====
-- What every request to the API gets, whichever route it takes (internal/api/middleware.go).
use web_gobbler.Prelude.{
  Bool, true, false, some, [], ◌∷◌, ◌≡◌, ◌≢◌, refl, ◌⊎◌, inl, inr, arith, All, Bool-cases,
}
use web_gobbler.Limits.{admit, rate_limit}
use web_gobbler.Server.{
  Routed, to, nowhere, redirected, routes, Request, LogLine, Parts, Live, Headers, set_header,
  get_header, Sent, max_request_body_size, security_headers, logging, run_routed, chain,
  chain_or_redirect, serve,
}

-- The headers that SecurityHeadersMiddleware documents.
abbrev security : Headers
security =
    ("X-Content-Type-Options", "nosniff")
    ∷ ("X-Frame-Options", "DENY")
    ∷ ("Content-Security-Policy", "default-src 'self'")
    ∷ ("Strict-Transport-Security", "max-age=31536000; includeSubDomains")
    ∷ ("Referrer-Policy", "strict-origin-when-cross-origin")
    ∷ []

abbrev pub IsSecured : Sent → Type 0
IsSecured sent = All (λ h. get_header h.0 sent.headers ≡ some h.1) security

module _ {S E L R : Type 0} (p : Parts S E L R) (req : Request R) (x : Live S E L) where
  -- The request as the handlers get it.
  abbrev capped : Request R
  capped = record req { body = p.max_bytes max_request_body_size req.body }

  abbrev allowed : Bool
  allowed = (admit p.rate req.now req.ip x.visitors).0

  -- Where the limiter lets the request through, the route's handler gives the answer and the new
  -- state.
  abbrev ByHandler : Routed → Sent × Live S E L → Type 0
  ByHandler found (sent, x') =
      (sent.response, (x'.serving, x'.llm)) ≡ run_routed p found capped (x.serving, x.llm)

  -- An answer that went through the chain.
  abbrev line_of : Sent → LogLine
  line_of sent = record {
    method = req.method;
    path = req.path;
    status = sent.response.code;
    duration_ms = req.took;
  }

  abbrev Refused : Sent × Live S E L → Type 0
  Refused (sent, x') = (sent.response.code ≡ 429) × (x'.serving ≡ x.serving) × (x'.llm ≡ x.llm)

  -- An answer that went through the chain.
  pub record Chained (found : Routed) (out : Sent × Live S E L) : Type 0 where
    pub secured : IsSecured out.0
    pub logged : out.1.log ≡ line_of out.0 ∷ x.log
    pub visited : out.1.visitors ≡ (admit p.rate req.now req.ip x.visitors).1
    pub handled : ((allowed ≡ true) × ByHandler found out) ⊎ ((allowed ≡ false) × Refused out)

  chain-Chained : (found : Routed) → Chained found (chain p found [] req x)
  unfolding rate_limit logging security_headers set_header get_header
  chain-Chained found = record {
    secured = (refl, (refl, (refl, (refl, (refl, tt)))));
    logged = refl;
    visited = elim (Bool-cases allowed) [ inl e ↦ rw e refl | inr e ↦ rw e refl ];
    handled = elim (Bool-cases allowed) [
      | inl e ↦ inl (e, ground (arith, e))
      | inr e ↦ inr (e, (ground (arith, e), ground (arith, e), ground (arith, e)))
    ];
  }

  chain_or_redirect-Chained :
      (found : Routed)
      → ((answer : _) → found ≢ redirected answer)
      → Chained found (chain_or_redirect p found req x)
  chain_or_redirect-Chained (to endpoint id) routed = chain-Chained (to endpoint id)
  chain_or_redirect-Chained nowhere routed = chain-Chained nowhere
  chain_or_redirect-Chained (redirected answer) routed = absurd (routed answer refl)

  -- Every request but those that gin redirects before the chain is answered with the five security
  -- headers and leaves one line in the log, with the status of its answer, whatever becomes of it:
  -- no route, a refusal or a handler. A request that the limiter of its address refuses is answered
  -- 429 and changes neither the handler's nor the extractor's state; any other has the answer of
  -- its route, with the body limited to 1 MiB.
  pub serve_lem :
      ((answer : _) → p.find routes req.method req.path ≢ redirected answer)
      → Chained (p.find routes req.method req.path) (serve p req x)
  unfolding serve
  serve_lem = chain_or_redirect-Chained (p.find routes req.method req.path)
