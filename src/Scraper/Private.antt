-- ===== src/Scraper/Private.antt =====
-- What isPrivateIP and resolveAndCheckURL (internal/scraper/scraper.go) let through.
use text.Mathlib.Text.{starts_with}
use mathlib.Core.Option.{some-injective}
use web_gobbler.Prelude.{
  ℕ, ◌+◌, ◌*◌, ◌/◌, ◌%◌, ◌^◌, ◌≤◌, ◌<◌, String, Bool, true, false, not, ◌||◌, Option, none, some,
  List, [], ◌∷◌, ◌≡◌, ◌≢◌, ◌↔◌, ◌⊎◌, inl, inr, refl, arith, ap, sym, subst, ◌&&◌, ◌∙◌, All,
  Option-cases, if◌then◌else◌,
}
use web_gobbler.Scraper.{Url, Net, Error, invalid_url}
use web_gobbler.Scraper.Addresses.{
  Ip, v4, v6, Block, to4, prefix_matches, any_block, private_cidrs, dotted, is_private_ip,
  any_private, Resolver, check_host, Checked, safe, unsafe, checked_host, resolve_and_check_url,
}

any_prefix : List Block → Ip → Bool
any_prefix [] ip = false
any_prefix (b ∷ bs) ip = prefix_matches b.address ip b.ones || any_prefix bs ip

any_block-to4 : (bs : List Block) (ip : Ip) → any_block bs ip ≡ any_prefix bs (to4 ip)
unfolding any_prefix
any_block-to4 [] ip = refl
any_block-to4 (b ∷ bs) ip =
    ap (λ x. prefix_matches b.address (to4 ip) b.ones || x) (any_block-to4 bs ip)

is_private_ip-to4 : (ip : Ip) → is_private_ip ip ≡ any_prefix private_cidrs (to4 ip)
unfolding is_private_ip
is_private_ip-to4 ip = any_block-to4 private_cidrs ip

to4_plain : (n : ℕ) → (n / 2 ^ 32) ≢ 65535 → to4 (v6 n) ≡ v6 n
to4_plain n h = ground arith

to4_mapped : (n k : ℕ) → n / 2 ^ 32 ≡ 65535 → n % 2 ^ 32 ≡ k → to4 (v6 n) ≡ v4 k
to4_mapped n k h e = ground arith

-- The private ranges by the first two bytes of an address.
abbrev pub PrivateBytes : ℕ → ℕ → Type 0
PrivateBytes a b =
    (a ≡ 127)
    ⊎ (a ≡ 10)
    ⊎ ((a ≡ 172) × (16 ≤ b) × (b ≤ 31))
    ⊎ ((a ≡ 192) × (b ≡ 168))
    ⊎ ((a ≡ 169) × (b ≡ 254))

module _ (a b c d : ℕ) (small : (a < 256) × (b < 256) × (c < 256) × (d < 256)) where
  -- An IPv4 address a.b.c.d is private exactly when it is in 127/8, 10/8, 172.16/12, 192.168/16 or
  -- 169.254/16.
  pub is_private_ip_v4_iff : (is_private_ip (v4 (dotted a b c d)) ≡ true) ↔ PrivateBytes a b
  unfolding is_private_ip
  is_private_ip_v4_iff = ground arith

  -- An IPv4-mapped IPv6 address, ::ffff:a.b.c.d, is private exactly when a.b.c.d is.
  pub is_private_ip_mapped :
      is_private_ip (v6 (65535 * 2 ^ 32 + dotted a b c d)) ≡ is_private_ip (v4 (dotted a b c d))
  is_private_ip_mapped =
      let bound : dotted a b c d < 4294967296 = omega arith in
      let high : (281470681743360 + dotted a b c d) / 4294967296 ≡ 65535 = omega arith in
      let low : (281470681743360 + dotted a b c d) % 4294967296 ≡ dotted a b c d = omega arith in
      is_private_ip-to4 (v6 (281470681743360 + dotted a b c d))
      ∙ ap (any_prefix private_cidrs) (to4_mapped _ (dotted a b c d) high low)
      ∙ sym (is_private_ip-to4 (v4 (dotted a b c d)))

-- An IPv6 address that maps no IPv4 address is private exactly when it is ::1; no other address of
-- IPv6, link-local and unique local ones included, is taken for private.
pub is_private_ip_v6_iff : (n : ℕ) → (n / 2 ^ 32) ≢ 65535 → (is_private_ip (v6 n) ≡ true) ↔ (n ≡ 1)
unfolding any_prefix
is_private_ip_v6_iff n h =
    let e = is_private_ip-to4 (v6 n) ∙ ap (any_prefix private_cidrs) (to4_plain n h) in
    ground (arith, e)

-- Of a list of addresses, none is private.
abbrev pub NonePrivate : List Ip → Type 0
NonePrivate = All (λ ip. is_private_ip ip ≡ false)

any_private-false : (ips : List Ip) → (any_private ips ≡ false) ↔ NonePrivate ips
any_private-false [] = (λ h. tt, λ h. refl)
any_private-false (ip ∷ ips) =
    let rest = any_private-false ips in
    (λ h. (ground arith, rest.0 (ground arith)), λ (h, hs). ground (arith, rest.1 hs, h))

-- A host may be contacted at a lookup: it has addresses, none of which is private.
abbrev pub Contactable : Resolver → ℕ → String → Type 0
Contactable dns n host = (ips : List Ip) × (dns.lookup_ip n host ≡ some ips) × NonePrivate ips

pub check_host_iff :
    (dns : Resolver) (n : ℕ) (host : String)
    → (check_host dns n host ≡ none) ↔ Contactable dns n host
unfolding check_host
check_host_iff dns n host = (to, from)
  where
    to : check_host dns n host ≡ none → Contactable dns n host
    to h = elim (Option-cases (dns.lookup_ip n host)) [
      | inl e ↦ absurd (ground arith)
      | inr (ips, e) ↦ (ips, e, (any_private-false ips).0 (ground arith))
    ]

    from : Contactable dns n host → check_host dns n host ≡ none
    from (ips, e, safe_ips) = ground (arith, e, (any_private-false ips).1 safe_ips)

-- What resolveAndCheckURL makes of the two prefixes, the switch, the check of the host and the URL.
abbrev decide : Bool → Bool → Bool → Option Error → Url → Checked
decide a b allowed o u =
    if not a && not b then unsafe invalid_url else if allowed then safe u else checked_host o u

safe-injective : (v u : Url) → safe v ≡ safe u → v ≡ u
safe-injective v u h = cc

decide_iff :
    (a b allowed : Bool) (o : Option Error) (v u : Url)
    → (decide a b allowed o v ≡ safe u)
      ↔ (((a ≡ true) ⊎ (b ≡ true)) × (v ≡ u) × ((allowed ≡ true) ⊎ (o ≡ none)))
decide_iff false false allowed o v u = (λ h. cc, λ h. ground arith)
decide_iff false true true o v u =
    (λ h. (inr refl, safe-injective v u h, inl refl), λ (web, same, clear). ap safe same)
decide_iff false true false none v u =
    (λ h. (inr refl, safe-injective v u h, inr refl), λ (web, same, clear). ap safe same)
decide_iff false true false (some x) v u = (λ h. cc, λ h. ground arith)
decide_iff true b true o v u =
    (λ h. (inl refl, safe-injective v u h, inl refl), λ (web, same, clear). ap safe same)
decide_iff true b false none v u =
    (λ h. (inl refl, safe-injective v u h, inr refl), λ (web, same, clear). ap safe same)
decide_iff true b false (some x) v u = (λ h. cc, λ h. ground arith)

-- A URL passes exactly when it begins with http:// or https://, parses, and its host resolves to
-- addresses none of which is private, or private addresses are allowed; it is then the parsed URL.
pub resolve_and_check_url_iff :
    (net : Net) (dns : Resolver) (raw : String) (u : Url)
    → (resolve_and_check_url net dns raw ≡ safe u) ↔ (
        ((starts_with raw "http://" ≡ true) ⊎ (starts_with raw "https://" ≡ true))
        × (net.parse raw ≡ some u)
        × ((dns.allow_private ≡ true) ⊎ Contactable dns 0 (net.hostname u)))
unfolding resolve_and_check_url
resolve_and_check_url_iff net dns raw u = elim (Option-cases (net.parse raw)) [
  | inl e ↦ ground (arith, e)
  | inr (v, e) ↦
      let shape : resolve_and_check_url net dns raw
          ≡ decide (starts_with raw "http://") (starts_with raw "https://") dns.allow_private
              (check_host dns 0 (net.hostname v)) v =
        rw (e, resolve_and_check_url) refl in
      let decided =
        decide_iff (starts_with raw "http://") (starts_with raw "https://") dns.allow_private
          (check_host dns 0 (net.hostname v)) v u in
      let host = check_host_iff dns 0 (net.hostname v) in
      (
        λ h.
            let (web, same, clear) = decided.0 (sym shape ∙ h) in
            let parsed : net.parse raw ≡ some u = e ∙ ap some same in
            (
              web,
              parsed,
              elim clear [
                | inl allowed ↦ inl allowed
                | inr calm ↦
                    inr (subst (λ w. Contactable dns 0 (net.hostname w)) same (host.0 calm))
              ],
            ),
        λ (web, parsed, clear).
            let same : v ≡ u = some-injective _ _ (sym e ∙ parsed) in
            shape
            ∙ decided.1 (
              web,
              same,
              elim clear [
                | inl allowed ↦ inl allowed
                | inr c ↦
                    inr (host.1 (subst (λ w. Contactable dns 0 (net.hostname w)) (sym same) c))
              ],
            ),
      )
]
