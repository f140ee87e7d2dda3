-- ===== src/Scraper/Addresses.antt =====
-- internal/scraper/scraper.go: the addresses that a scrape may not go to, and the checks of its URL
-- and of each redirect.
use text.Mathlib.Text.{starts_with}
use web_gobbler.Prelude.{
  ℕ, suc, ◌+◌, ◌-◌, ◌*◌, ◌/◌, ◌%◌, ◌^◌, String, Bool, false, not, ◌&&◌, ◌||◌, Option, none, some,
  List, [], ◌∷◌, ◌==◌, leb, if◌then◌else◌,
}
use web_gobbler.Scraper.{
  Url, Net, Error, invalid_url, private_ip, too_many_redirects, dns_failed, ScrapeOptions,
}

-- net.IP as a number of 32 or of 128 bits.
pub data Ip : Type 0 where
  v4 : ℕ → Ip
  v6 : ℕ → Ip

-- net.IPNet: an address and the number of bits of its prefix.
pub record Block : Type 0 where
  pub address : Ip
  pub ones : ℕ

-- ip.To4(), or the address itself: an IPv6 address of the form ::ffff:a.b.c.d is that IPv4 address.
abbrev pub to4 : Ip → Ip
to4 (v4 n) = v4 n
to4 (v6 n) = if (n / 2 ^ 32) == 65535 then v4 (n % 2 ^ 32) else v6 n

abbrev pub prefix_matches : Ip → Ip → ℕ → Bool
prefix_matches (v4 a) (v4 n) ones = (a / 2 ^ (32 - ones)) == (n / 2 ^ (32 - ones))
prefix_matches (v6 a) (v6 n) ones = (a / 2 ^ (128 - ones)) == (n / 2 ^ (128 - ones))
prefix_matches _ _ ones = false

-- block.Contains(ip)
abbrev pub in_block : Block → Ip → Bool
in_block b ip = prefix_matches b.address (to4 ip) b.ones

-- a.b.c.d
abbrev pub dotted : ℕ → ℕ → ℕ → ℕ → ℕ
dotted a b c d = ((a * 256 + b) * 256 + c) * 256 + d

abbrev block4 : ℕ → ℕ → ℕ → Block
block4 a b ones = record { address = v4 (dotted a b 0 0); ones = ones }

-- privateCIDRs
abbrev pub private_cidrs : List Block
private_cidrs =
    block4 127 0 8
    ∷ block4 10 0 8
    ∷ block4 172 16 12
    ∷ block4 192 168 16
    ∷ block4 169 254 16
    ∷ record { address = v6 1; ones = 128 }
    ∷ []

abbrev pub any_block : List Block → Ip → Bool
any_block [] ip = false
any_block (b ∷ bs) ip = in_block b ip || any_block bs ip

-- isPrivateIP
unfoldable pub is_private_ip : Ip → Bool
is_private_ip ip = any_block private_cidrs ip

abbrev pub any_private : List Ip → Bool
any_private [] = false
any_private (ip ∷ ips) = is_private_ip ip || any_private ips

-- net.LookupIP, which may fail and may answer otherwise each time it is asked, and whether
-- SCRAPER_ALLOW_PRIVATE_IPS is set.
pub record Resolver : Type 0 where
  pub lookup_ip : ℕ → String → Option (List Ip)
  pub allow_private : Bool

-- The lookup of a host and the look at its addresses: the error, if there is one.
unfoldable pub check_host : Resolver → ℕ → String → Option Error
check_host dns n host = elim (dns.lookup_ip n host) [
  | none ↦ some dns_failed
  | some ips ↦ if any_private ips then some private_ip else none
]

-- (*url.URL, error) of resolveAndCheckURL.
pub data Checked : Type 0 where
  safe : Url → Checked
  unsafe : Error → Checked

abbrev pub checked_host : Option Error → Url → Checked
checked_host none u = safe u
checked_host (some e) u = unsafe e

-- resolveAndCheckURL
unfoldable pub resolve_and_check_url : Net → Resolver → String → Checked
resolve_and_check_url net dns raw =
    if not (starts_with raw "http://") && not (starts_with raw "https://")
    then unsafe invalid_url
    else elim (net.parse raw) [
      | none ↦ unsafe invalid_url
      | some u ↦
          if dns.allow_private then safe u else checked_host (check_host dns 0 (net.hostname u)) u
    ]

-- What CheckRedirect answers: go on, stop with the answer at hand, or fail.
pub data Verdict : Type 0 where
  allow : Verdict
  use_last : Verdict
  refuse : Error → Verdict

abbrev verdict_of : Option Error → Verdict
verdict_of none = allow
verdict_of (some e) = refuse e

-- CheckRedirect of newScrapeClient, after `via` requests, for the host of the next.
unfoldable pub check_redirect : ScrapeOptions → Resolver → ℕ → String → Verdict
check_redirect opts dns via host =
    if not opts.follow_redirects
    then use_last
    else if leb 5 via
    then refuse too_many_redirects
    else verdict_of (check_host dns via host)

-- How net/http calls it: for each redirect in turn, with the requests made so far, until one is not
-- followed. The value is the list of the hosts that redirects led to.
unfoldable pub followed_hosts : ScrapeOptions → Resolver → ℕ → List String → List String
followed_hosts opts dns via [] = []
followed_hosts opts dns via (host ∷ hosts) =
    let rest = followed_hosts opts dns (suc via) hosts in
    elim (check_redirect opts dns via host) [ allow ↦ host ∷ rest | use_last ↦ [] | refuse e ↦ [] ]
