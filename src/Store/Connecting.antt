-- ===== src/Store/Connecting.antt =====
-- How internal/store's New ends.
use web_gobbler.Prelude.{
  ℕ, zero, suc, ◌+◌, ◌*◌, ◌≤◌, ◌<◌, String, true, false, ltb, ◌==◌, ◌≡◌, refl, ◌⊎◌, inl, inr, arith,
  Bool-cases,
}
use web_gobbler.Store.Connect.{
  PoolConfig, Server, bad_config, no_pool, ctx_ended, ping_failed, unmade, closed, Connection,
  opened, refused, pool_config, ping_loop, new_store, Pauses,
}

module _ (srv : Server) where
  -- Why the loop ends at a ping.
  abbrev pub EndsAt : PoolConfig → ℕ → Connection → Type 0
  EndsAt config n c =
      ((c ≡ opened config) × (srv.ping n ≡ true))
      ⊎ ((c ≡ refused ping_failed closed) × (srv.ping n ≡ false) × (60_000 < srv.elapsed_ms n))
      ⊎ ((c ≡ refused ctx_ended closed)
          × (srv.ping n ≡ false)
          × ((srv.ctx_err n ≡ true) ⊎ (srv.ctx_done n ≡ true)))

  pub record Ended (config : PoolConfig) (c : Connection) : Type 0 where
    pub pings : ℕ
    pub few : pings < 122
    pub unanswered : (m : ℕ) → m < pings → srv.ping m ≡ false
    pub why : EndsAt config pings c

  elapsed-bound : Pauses srv → (n : ℕ) → 500 * n ≤ srv.elapsed_ms n
  elapsed-bound pauses zero = omega arith
  elapsed-bound pauses (suc n) = omega (arith, elapsed-bound pauses n, pauses n)

  still_quiet :
      (n : ℕ)
      → ((m : ℕ) → m < n → srv.ping m ≡ false)
      → srv.ping n ≡ false
      → (m : ℕ) → m < suc n
      → srv.ping m ≡ false
  still_quiet n quiet silent m lt = elim (Bool-cases (m == n)) [
    | inl same ↦ let at : m ≡ n = ground arith in rw at silent
    | inr other ↦ quiet m (ground (arith, other, lt))
  ]

  ping_loop-Ended :
      Pauses srv
      → (config : PoolConfig) (fuel n : ℕ) → fuel + n ≡ 122
      → ((m : ℕ) → m < n → srv.ping m ≡ false)
      → n ≤ 121
      → Ended config (ping_loop srv config fuel n)
  unfolding ping_loop
  ping_loop-Ended pauses config zero n full quiet low = absurd (omega arith)
  ping_loop-Ended pauses config (suc fuel) n full quiet low =
      let bound = elapsed-bound pauses n in
      elim (Bool-cases (srv.ping n)) [
        | inl answered ↦ record {
          pings = n;
          few = omega arith;
          unanswered = quiet;
          why = inl (rw answered refl, answered);
        }
        | inr silent ↦ elim (Bool-cases (srv.ctx_err n)) [
          | inl ended ↦ record {
            pings = n;
            few = omega arith;
            unanswered = quiet;
            why = inr (inr (rw (silent, ended) refl, silent, inl ended));
          }
          | inr going ↦ elim (Bool-cases (ltb 60_000 (srv.elapsed_ms n))) [
            | inl late ↦ record {
              pings = n;
              few = omega arith;
              unanswered = quiet;
              why = inr (inl (rw (silent, going, late) refl, silent, ground (arith, late)));
            }
            | inr early ↦ elim (Bool-cases (srv.ctx_done n)) [
              | inl ended ↦ record {
                pings = n;
                few = omega arith;
                unanswered = quiet;
                why = inr (inr (rw (silent, going, early, ended) refl, silent, inr ended));
              }
              | inr waits ↦
                  let on_time : srv.elapsed_ms n ≤ 60_000 = ground (arith, early) in
                  rw (silent, going, early, waits)
                    (ping_loop-Ended pauses config fuel (suc n) (omega arith)
                      (still_quiet n quiet silent) (omega (arith, on_time, bound)))
            ]
          ]
        ]
      ]

  -- The three ways in which New ends.
  abbrev pub HowItEnds : String → Type 0
  HowItEnds url =
      ((srv.parses url ≡ false) × (new_store srv url ≡ refused bad_config unmade))
      ⊎ ((srv.parses url ≡ true)
          × (srv.makes_pool (pool_config url) ≡ false)
          × (new_store srv url ≡ refused no_pool unmade))
      ⊎ ((srv.parses url ≡ true)
          × (srv.makes_pool (pool_config url) ≡ true)
          × Ended (pool_config url) (new_store srv url))

  -- New, with pauses of half a second at least: a URL that does not parse and a pool that cannot be
  -- made are reported, with no pool left; otherwise the loop ends after at most 122 pings, at the
  -- first that is answered, with the pool, or, none answered, at the end of the context or after
  -- more than a minute, with an error and the pool closed.
  pub new_store_lem : Pauses srv → (url : String) → HowItEnds url
  unfolding new_store
  new_store_lem pauses url = elim (Bool-cases (srv.parses url)) [
    | inr bad ↦ inl (bad, rw bad refl)
    | inl good ↦ elim (Bool-cases (srv.makes_pool (pool_config url))) [
      | inr none_made ↦ inr (inl (good, none_made, rw (good, none_made) refl))
      | inl made ↦ inr (
          inr (
            good,
            made,
            rw (good, made)
                (ping_loop-Ended pauses (pool_config url) 122 0 refl (λ m lt. absurd (omega arith))
                  (omega arith)),
          ))
    ]
  ]
