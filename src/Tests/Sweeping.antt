-- ===== src/Tests/Sweeping.antt =====
-- Detection, the crawlers, the table, the snapshot and the sweep, on concrete inputs.
use hotchkiss_io.Base.{
  Bool, List, Option, [], arith, false, none, refl, some, subst, true, ◌∷◌, ◌≡◌, ◌≢◌, ◌⊎◌,
}
use hotchkiss_io.Text.{
  Text, codes, contains, ends_with, is_one_of, same, to_ascii_lowercase, trim_end_matches,
}
use hotchkiss_io.Fallible.{done}
use hotchkiss_io.Greylist.Detection.Rules.{score_mono}
use hotchkiss_io.Greylist.Table.{pin_manual}
use hotchkiss_io.Greylist.Crawler.Verdicts.{Means, Remembers, verify-Agrees, verify_crawler-Means}
use hotchkiss_io.Greylist.Crawler.{
  CrawlerCache, CrawlerDns, matches_crawler_suffix, not_crawler, verified, verify, verify_crawler,
}
use hotchkiss_io.Greylist.Detection.{
  IpFeatures, IpPathAgg, build_features, clear, is_signature_path, score, should_evaluate, tripped,
}
use hotchkiss_io.Greylist.Detection.Features.{IsReported, build_features-IsReported, find_features}
use hotchkiss_io.Greylist.Ip.{
  IpAddr, ips_contain, is_loopback, is_private_scope, is_unspecified, v4,
}
use hotchkiss_io.Greylist.ActiveSet.{GreylistSet, is_allowlisted, is_greylisted}
use hotchkiss_io.Greylist.Table.Pins.{has_row}
use hotchkiss_io.Greylist.Sweep.{run_once, ttl_expiry}
use hotchkiss_io.Greylist.Sweep.Probes.{run_once-greylists_probes}
use hotchkiss_io.Greylist.Sweep.Spared.{run_once-spares_crawlers, run_once-spares_operator}

-- A probing address, and a flooding one.
abbrev prober : Text
prober = codes "8.8.8.8"

abbrev flooder : Text
flooder = codes "9.9.9.9"

abbrev log_rows : List IpPathAgg
log_rows =
    record { ip = prober; path = codes "/a.php"; status = 404; count = 2 }
    ∷ record { ip = flooder; path = codes "/"; status = 200; count = 1500 }
    ∷ []

-- Each text parses as an address of its first character.
abbrev parse_first : Text → Option IpAddr
parse_first [] = none
parse_first (c ∷ s) = some (v4 c 8 8 8)

abbrev bot_name : Text
bot_name = codes "crawl.googlebot.com."

abbrev bot_dns : CrawlerDns
bot_dns = record { ptr = λ ip. done (bot_name ∷ []); forward = λ name. done (v4 b'9' 8 8 8 ∷ []) }

abbrev empty_cache : CrawlerCache
empty_cache = record { ttl = 21600; entries = [] }

abbrev operator : Text
operator = codes "7.7.7.7"

abbrev operator_set : GreylistSet
operator_set = record { inner = []; allow = operator ∷ [] }

build_features-IsReported_example :
    IsReported parse_first prober log_rows
      (find_features prober (build_features parse_first log_rows))
build_features-IsReported_example = build_features-IsReported parse_first prober log_rows

abbrev flood_features : IpFeatures
flood_features = record {
  ip = flooder;
  total = 1500;
  distinct_paths = 1;
  distinct_404 = 0;
  errors = 0;
  signature_hits = 0;
}

abbrev quiet_features : IpFeatures
quiet_features = record flood_features { total = 3 }

score_mono_example : score (record quiet_features { total = 2 }) ≡ clear
unfolding score tripped
score_mono_example =
    score_mono (record quiet_features { total = 2 }) quiet_features
      (record { more_hits = omega arith; more_404 = omega arith; more_total = omega arith }) refl

verify_crawler-Means_example :
    Means bot_dns (v4 b'9' 8 8 8) (verify_crawler bot_dns (v4 b'9' 8 8 8))
verify_crawler-Means_example = verify_crawler-Means bot_dns (v4 b'9' 8 8 8)

verify-Agrees_example :
    Remembers bot_dns empty_cache (v4 b'9' 8 8 8) (verify bot_dns empty_cache (v4 b'9' 8 8 8) 100)
verify-Agrees_example = verify-Agrees bot_dns empty_cache (v4 b'9' 8 8 8) 100 tt

abbrev no_release_fails : Text → Bool
no_release_fails ip = false

run_once-greylists_probes_example :
    is_greylisted
      (run_once no_release_fails bot_dns parse_first log_rows [] empty_cache operator_set 100
        200).set
      prober
    ≡ true
unfolding should_evaluate is_allowlisted is_one_of same is_signature_path ttl_expiry is_loopback
    is_unspecified is_private_scope to_ascii_lowercase contains
run_once-greylists_probes_example =
    run_once-greylists_probes no_release_fails bot_dns parse_first log_rows [] empty_cache
      operator_set 100 200 prober refl refl (omega arith) (omega arith)

googlebot_confirmed : verify_crawler bot_dns (v4 b'9' 8 8 8) ≡ verified
unfolding verify_crawler matches_crawler_suffix ips_contain ends_with to_ascii_lowercase
    trim_end_matches
googlebot_confirmed = refl

flooder_is_no_stranger :
    (addr : IpAddr) → parse_first flooder ≡ some addr → verify_crawler bot_dns addr ≢ not_crawler
flooder_is_no_stranger addr e n =
    let at : addr ≡ v4 b'9' 8 8 8 = cc in
    cc (googlebot_confirmed, subst (λ a. verify_crawler bot_dns a ≡ not_crawler) at n)

run_once-spares_crawlers_example :
    has_row flooder
      (run_once no_release_fails bot_dns parse_first log_rows [] empty_cache operator_set 100
        200).table
    ≡ false
unfolding same is_signature_path
run_once-spares_crawlers_example =
    run_once-spares_crawlers no_release_fails bot_dns parse_first log_rows [] empty_cache
      operator_set 100 200 flooder tt flooder_is_no_stranger (omega arith) refl

run_once-spares_operator_example :
    ((has_row operator
          (run_once no_release_fails bot_dns parse_first log_rows
            (pin_manual [] 5 operator (codes "stale"))
            empty_cache
            operator_set
            100
            200).table
        ≡ false)
      ⊎ (no_release_fails operator ≡ true))
    × (is_greylisted
          (run_once no_release_fails bot_dns parse_first log_rows
            (pin_manual [] 5 operator (codes "stale"))
            empty_cache
            operator_set
            100
            200).set
          operator
        ≡ false)
unfolding is_allowlisted is_one_of
run_once-spares_operator_example =
    run_once-spares_operator no_release_fails bot_dns parse_first log_rows
      (pin_manual [] 5 operator (codes "stale")) empty_cache operator_set 100 200 operator refl
