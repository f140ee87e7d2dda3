-- ===== src/Scraper/Redirects.antt =====
-- Where the redirects of internal/scraper/scraper.go lead.
use web_gobbler.Prelude.{
  ℕ, suc, ◌+◌, ◌≤◌, String, true, List, [], ◌∷◌, ◌≡◌, ◌⊎◌, inl, inr, refl, arith, length, leb,
  Bool-cases, Option-cases,
}
use web_gobbler.Scraper.{ScrapeOptions}
use web_gobbler.Scraper.Addresses.{Resolver, check_host, check_redirect, followed_hosts}
use web_gobbler.Scraper.Private.{Contactable, check_host_iff}

-- The hosts, each looked up with the number of requests made before it, may be contacted.
abbrev pub AllContactable : Resolver → ℕ → List String → Type 0
AllContactable dns via [] = Unit
AllContactable dns via (host ∷ hosts) =
    Contactable dns via host × AllContactable dns (suc via) hosts

module _ (opts : ScrapeOptions) (dns : Resolver) where
  redirect-cases :
      (via : ℕ) (host : String) (hosts : List String)
      → (followed_hosts opts dns via (host ∷ hosts) ≡ [])
        ⊎ ((followed_hosts opts dns via (host ∷ hosts)
              ≡ host ∷ followed_hosts opts dns (suc via) hosts)
            × (opts.follow_redirects ≡ true)
            × (via ≤ 4)
            × Contactable dns via host)
  unfolding followed_hosts check_redirect
  redirect-cases via host hosts = elim (Option-cases (check_host dns via host)) [
    | inl calm ↦
        let c = (check_host_iff dns via host).0 calm in
        elim (Bool-cases opts.follow_redirects) [
          | inl on ↦ elim (Bool-cases (leb 5 via)) [
            | inl over ↦ inl (ground (arith, on, over))
            | inr room ↦ inr (ground (arith, on, room, calm), on, ground arith, c)
          ]
          | inr off ↦ inl (ground (arith, off))
        ]
    | inr (x, bad) ↦ inl (ground (arith, bad))
  ]

  followed_from :
      (hosts : List String) (via : ℕ)
      → via ≤ 5
      → let followed = followed_hosts opts dns via hosts in
        (via + length followed ≤ 5)
        × ((opts.follow_redirects ≡ true) ⊎ (followed ≡ []))
        × AllContactable dns via followed
  followed_from [] via h = unfold followed_hosts in (omega arith, inr refl, tt)
  followed_from (host ∷ hosts) via h = elim (redirect-cases via host hosts) [
    | inl stop ↦ rw stop (omega arith, inr refl, tt)
    | inr (go, on, room, c) ↦
        let (short, how, clear) = followed_from hosts (suc via) (omega arith) in
        rw go (omega arith, inl on, (c, clear))
  ]

  -- Whatever redirects a site answers with: no more than four are followed after the first request,
  -- none where redirects are not to be followed, and each host that one leads to resolves, at that
  -- time, to addresses none of which is private.
  pub followed_hosts_lem :
      (hosts : List String)
      → let followed = followed_hosts opts dns 1 hosts in
        (length followed ≤ 4)
        × ((opts.follow_redirects ≡ true) ⊎ (followed ≡ []))
        × AllContactable dns 1 followed
  followed_hosts_lem hosts =
      let (short, how, clear) = followed_from hosts 1 (omega arith) in (omega arith, how, clear)
