-- ===== src/Greylist/Crawler.antt =====
-- src/greylist/crawler.rs: forward-confirmed reverse DNS, and the memo over it. A lookup that fails
-- or runs into its timeout is `failed`; the resolver is a parameter.
pub mod Verdicts
use hotchkiss_io.Base.{
  Bool, List, Option, [], false, filter, if◌then◌else◌, ltb, none, some, true, ℕ, ◌-◌, ◌==◌, ◌||◌,
  ◌∷◌,
}
use hotchkiss_io.Text.{Text, codes, ends_with, to_ascii_lowercase, trim_end_matches}
use hotchkiss_io.Fallible.{Fallible, done, failed}
use hotchkiss_io.Greylist.Ip.{IpAddr, ips_contain, same_ip}

abbrev crawler_suffixes : List Text
crawler_suffixes =
    codes ".googlebot.com"
    ∷ codes ".google.com"
    ∷ codes ".search.msn.com"
    ∷ codes ".crawl.yahoo.net"
    ∷ codes ".yandex.com"
    ∷ codes ".yandex.net"
    ∷ codes ".yandex.ru"
    ∷ codes ".crawl.baidu.com"
    ∷ codes ".baidu.com"
    ∷ codes ".applebot.apple.com"
    ∷ []

pub data CrawlerVerdict : Type 0 where
  verified not_crawler unknown : CrawlerVerdict

-- The two lookups: the names of an address, and the addresses of a name.
pub record CrawlerDns : Type 0 where
  pub ptr : IpAddr → Fallible (List Text)
  pub forward : Text → Fallible (List IpAddr)

ends_with_any : Text → List Text → Bool
ends_with_any n [] = false
ends_with_any n (s ∷ ss) = ends_with s n || ends_with_any n ss

unfoldable pub matches_crawler_suffix : Text → Bool
unfolding ends_with_any
matches_crawler_suffix name =
    ends_with_any (to_ascii_lowercase (trim_end_matches (λ c. c == b'.') name)) crawler_suffixes

module _ (dns : CrawlerDns) where
  -- The loop over the names that matched.
  confirm : IpAddr → List Text → CrawlerVerdict
  confirm ip [] = not_crawler
  confirm ip (name ∷ names) =
      let rest = confirm ip names in
      elim (dns.forward name) [
        | done ips ↦ if ips_contain ips ip then verified else rest
        | failed ↦ unknown
      ]

  unfoldable pub verify_crawler : IpAddr → CrawlerVerdict
  unfolding confirm
  verify_crawler ip = elim (dns.ptr ip) [
    | failed ↦ unknown
    | done names ↦ confirm ip (filter matches_crawler_suffix names)
  ]

-- The memo: each address with its verdict and the instant of the check, the newest first.
pub record CrawlerCache : Type 0 where
  pub ttl : ℕ
  pub entries : List (IpAddr × Bool × ℕ)

unfoldable pub find_entry : IpAddr → List (IpAddr × Bool × ℕ) → Option (Bool × ℕ)
find_entry ip [] = none
find_entry ip ((j, v, at) ∷ es) = if same_ip j ip then some (v, at) else find_entry ip es

-- `duration_since` is 0 for an instant in the future, as `-` is.
unfoldable pub cached : CrawlerCache → IpAddr → ℕ → Option Bool
unfolding find_entry
cached c ip now = elim (find_entry ip c.entries) [
  | none ↦ none
  | some (v, at) ↦ if ltb (now - at) c.ttl then some v else none
]

unfoldable pub store_verdict : CrawlerCache → IpAddr → Bool → ℕ → CrawlerCache
store_verdict c ip v now = record c { entries = (ip, v, now) ∷ c.entries }

-- Only a definite verdict is stored.
remember : CrawlerCache → IpAddr → ℕ → CrawlerVerdict → CrawlerCache
unfolding store_verdict
remember c ip now verified = store_verdict c ip true now
remember c ip now not_crawler = store_verdict c ip false now
remember c ip now unknown = c

abbrev pub of_flag : Bool → CrawlerVerdict
of_flag true = verified
of_flag false = not_crawler

unfoldable pub verify : CrawlerDns → CrawlerCache → IpAddr → ℕ → CrawlerVerdict × CrawlerCache
unfolding remember
verify dns c ip now = elim (cached c ip now) [
  | some v ↦ (of_flag v, c)
  | none ↦ (verify_crawler dns ip, remember c ip now (verify_crawler dns ip))
]
