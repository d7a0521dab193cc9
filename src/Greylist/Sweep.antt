-- ===== src/Greylist/Sweep.antt =====
-- src/greylist/sweep.rs: one pass of the detection sweep, over the state that it changes: the table,
-- the memo of crawler verdicts and the request path's snapshot. The pass is the one whose queries
-- succeed: any other that fails ends it there with an error, but one that fails to release an address
-- is only logged, and `release_fails` says for which. `now` is the time of its loop, `later` that of the
-- pruning and the reload; the addresses come in the order of their first row, where the source's
-- map has none.
pub mod Effects
pub mod Probes
pub mod Spared
pub mod Report
use hotchkiss_io.Base.{Bool, List, Option, [], if◌then◌else◌, length, none, some, ℕ, ◌*◌, ◌+◌, ◌∷◌}
use hotchkiss_io.Text.{Text}
use hotchkiss_io.Greylist.Ip.{IpAddr}
use hotchkiss_io.Greylist.Detection.{
  IpFeatures, IpPathAgg, Verdict, build_features, clear, exempts_verified_crawlers, greylist, score,
}
use hotchkiss_io.Greylist.Crawler.{
  CrawlerCache, CrawlerDns, CrawlerVerdict, not_crawler, unknown, verified, verify,
}
use hotchkiss_io.Greylist.Table.{GreylistEntry, active, prune_expired, release, upsert_auto}
use hotchkiss_io.Greylist.ActiveSet.{GreylistSet, allowlisted, is_allowlisted, refresh}

abbrev pub greylist_ttl_days : ℕ
greylist_ttl_days = 7

pub record SweepReport : Type 0 where
  pub evaluated : ℕ
  pub greylisted : ℕ
  pub exempted_crawlers : ℕ
  pub skipped_unknown_dns : ℕ

unfoldable pub ttl_expiry : ℕ → ℕ
ttl_expiry now = now + greylist_ttl_days * 86400

-- What the loop changes.
pub record Pass : Type 0 where
  pub report : SweepReport
  pub table : List GreylistEntry
  pub cache : CrawlerCache

-- `upsert_auto` and the count.
unfoldable pub enter : ℕ → Text → Text → Text → Pass → Pass
enter now ip reason evidence p = record p {
  report = record (p.report) { greylisted = p.report.greylisted + 1 };
  table = upsert_auto p.table now ip reason (some evidence) (ttl_expiry now);
}

abbrev pub count_exempted : SweepReport → SweepReport
count_exempted r = record r { exempted_crawlers = r.exempted_crawlers + 1 }

abbrev pub count_skipped : SweepReport → SweepReport
count_skipped r = record r { skipped_unknown_dns = r.skipped_unknown_dns + 1 }

-- The three arms of the `match` on the crawler's verdict.
unfoldable pub on_verdict : ℕ → Text → Text → Text → Pass → CrawlerVerdict → Pass
unfolding enter
on_verdict now ip reason evidence p verified = record p { report = count_exempted p.report }
on_verdict now ip reason evidence p unknown = record p { report = count_skipped p.report }
on_verdict now ip reason evidence p not_crawler = enter now ip reason evidence p

module _ (dns : CrawlerDns) (parse_ip : Text → Option IpAddr) where
  -- A blunt rule asks the resolver first.
  unfoldable pub consult : ℕ → Text → Text → Text → Pass → Pass
  unfolding on_verdict
  consult now ip reason evidence p = elim (parse_ip ip) [
    | none ↦ p
    | some addr ↦
        let (verdict, cache) = verify dns p.cache addr now in
        on_verdict now ip reason evidence (record p { cache = cache }) verdict
  ]

  unfoldable pub judge : ℕ → Text → Verdict → Pass → Pass
  unfolding consult enter
  judge now ip clear p = p
  judge now ip (greylist rule reason evidence) p =
      if exempts_verified_crawlers rule
      then consult now ip reason evidence p
      else enter now ip reason evidence p

  unfoldable pub sweep_one : GreylistSet → ℕ → IpFeatures → Pass → Pass
  unfolding judge
  sweep_one set now f p = if is_allowlisted set f.ip then p else judge now f.ip (score f) p

  unfoldable pub sweep_all : GreylistSet → ℕ → List IpFeatures → Pass → Pass
  unfolding sweep_one
  sweep_all set now [] p = p
  sweep_all set now (f ∷ fs) p = sweep_all set now fs (sweep_one set now f p)

-- The loop over the operator's addresses: a release that fails leaves its row, and the loop goes on.
unfoldable pub release_all : (Text → Bool) → List Text → List GreylistEntry → List GreylistEntry
release_all release_fails [] t = t
release_all release_fails (ip ∷ ips) t =
    release_all release_fails ips (if release_fails ip then t else (release t ip).1)

-- What a pass leaves: its report, the table, the memo and the snapshot.
pub record Swept : Type 0 where
  pub report : SweepReport
  pub table : List GreylistEntry
  pub cache : CrawlerCache
  pub set : GreylistSet

-- From the end of the loop on: release, prune, reload.
unfoldable pub settle : (Text → Bool) → GreylistSet → ℕ → Pass → Swept
unfolding release_all
settle release_fails set later p =
    let kept = (prune_expired (release_all release_fails (allowlisted set) p.table) later).1 in
    record {
      report = p.report;
      table = kept;
      cache = p.cache;
      set = refresh set (active kept later);
    }

abbrev pub start : List GreylistEntry → CrawlerCache → List IpFeatures → Pass
start table cache fs = record {
  report = record {
    evaluated = length fs;
    greylisted = 0;
    exempted_crawlers = 0;
    skipped_unknown_dns = 0;
  };
  table = table;
  cache = cache;
}

unfoldable pub run_once :
    (Text → Bool)
    → CrawlerDns
    → (Text → Option IpAddr)
    → List IpPathAgg
    → List GreylistEntry
    → CrawlerCache
    → GreylistSet
    → (now later : ℕ) → Swept
unfolding sweep_all settle
run_once release_fails dns parse_ip rows table cache set now later =
    let fs = build_features parse_ip rows in
    settle release_fails set later (sweep_all dns parse_ip set now fs (start table cache fs))
