-- ===== src/Scraper/Examples.antt =====
-- Addresses, URLs and redirects for internal/scraper/scraper.go, with a resolver that knows a
-- public host and a private one.
use text.Mathlib.Text.{starts_with}
use web_gobbler.Prelude.{
  ◌≤◌, String, str_eq, true, false, none, some, [], ◌∷◌, ◌≡◌, ◌↔◌, ◌⊎◌, refl, length, if◌then◌else◌,
}
use web_gobbler.Scraper.{Url, Net, private_ip, default_options}
use web_gobbler.Scraper.Addresses.{
  v4, dotted, is_private_ip, Resolver, safe, unsafe, resolve_and_check_url, check_host,
  check_redirect, followed_hosts,
}
use web_gobbler.Scraper.Private.{Contactable, resolve_and_check_url_iff}
use web_gobbler.Scraper.Redirects.{AllContactable, followed_hosts_lem}

abbrev pub small_dns : Resolver
small_dns = record {
  lookup_ip = λ n host.
      if str_eq host "out"
      then some (v4 (dotted 93 184 216 34) ∷ [])
      else if str_eq host "in"
      then some (v4 (dotted 10 0 0 7) ∷ [])
      else none;
  allow_private = false;
}

abbrev web_url : String → Url
web_url host = record { scheme = "http"; host = host; rest = ""; fragment = "" }

abbrev pub two_hosts : Net
two_hosts = record {
  parse = λ s.
      if str_eq s "http://out"
      then some (web_url "out")
      else if str_eq s "http://in"
      then some (web_url "in")
      else none;
  to_string = λ u. u.rest;
  hostname = λ u. u.host;
  resolve_reference = λ base u. u;
  equal_fold = str_eq;
}

out_run : resolve_and_check_url two_hosts small_dns "http://out" ≡ safe (web_url "out")
unfolding resolve_and_check_url check_host is_private_ip
out_run = refl

in_run : resolve_and_check_url two_hosts small_dns "http://in" ≡ unsafe private_ip
unfolding resolve_and_check_url check_host is_private_ip
in_run = refl

hops_run :
    followed_hosts default_options small_dns 1 ("out" ∷ "out" ∷ "in" ∷ "out" ∷ [])
    ≡ "out" ∷ "out" ∷ []
unfolding followed_hosts check_redirect default_options check_host is_private_ip
hops_run = refl

resolve_and_check_url_example :
    (resolve_and_check_url two_hosts small_dns "http://in" ≡ safe (web_url "in")) ↔ (
      ((starts_with "http://in" "http://" ≡ true) ⊎ (starts_with "http://in" "https://" ≡ true))
      × (two_hosts.parse "http://in" ≡ some (web_url "in"))
      × ((small_dns.allow_private ≡ true) ⊎ Contactable small_dns 0 "in"))
resolve_and_check_url_example =
    resolve_and_check_url_iff two_hosts small_dns "http://in" (web_url "in")

followed_hosts_example :
    let followed = followed_hosts default_options small_dns 1 ("out" ∷ "out" ∷ "in" ∷ "out" ∷ []) in
    (length followed ≤ 4)
    × ((default_options.follow_redirects ≡ true) ⊎ (followed ≡ []))
    × AllContactable small_dns 1 followed
followed_hosts_example =
    followed_hosts_lem default_options small_dns ("out" ∷ "out" ∷ "in" ∷ "out" ∷ [])
