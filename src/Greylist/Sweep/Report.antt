-- ===== src/Greylist/Sweep/Report.antt =====
-- The counters of a sweep.
use hotchkiss_io.Base.{Bool, List, Option, [], arith, length, refl, ℕ, ◌+◌, ◌∙◌, ◌∷◌, ◌≡◌, ◌≤◌}
use hotchkiss_io.Greylist.Sweep.{
  Pass, SweepReport, enter, on_verdict, run_once, settle, start, sweep_all, sweep_one,
}
use hotchkiss_io.Greylist.Crawler.{
  CrawlerCache, CrawlerDns, CrawlerVerdict, not_crawler, unknown, verified, verify,
}
use hotchkiss_io.Text.{Text}
use hotchkiss_io.Greylist.Ip.{IpAddr}
use hotchkiss_io.Greylist.ActiveSet.{GreylistSet}
use hotchkiss_io.Greylist.Detection.{IpFeatures, IpPathAgg, build_features}
use hotchkiss_io.Greylist.Sweep.Effects.{Effect, consulted, entered, idle, sweep_one-Effect}
use hotchkiss_io.Greylist.Table.{GreylistEntry}

abbrev pub decided : SweepReport → ℕ
decided r = r.greylisted + r.exempted_crawlers + r.skipped_unknown_dns

-- At most one more decision, and the same number evaluated.
abbrev CountsOne : SweepReport → SweepReport → Type 0
CountsOne r s = (decided s ≤ decided r + 1) × (s.evaluated ≡ r.evaluated)

on_verdict-CountsOne :
    (now : ℕ) (ip reason evidence : Text) (p : Pass) (v : CrawlerVerdict)
    → CountsOne p.report (on_verdict now ip reason evidence p v).report
unfolding on_verdict enter
on_verdict-CountsOne now ip reason evidence p verified = (omega arith, refl)
on_verdict-CountsOne now ip reason evidence p unknown = (omega arith, refl)
on_verdict-CountsOne now ip reason evidence p not_crawler = (omega arith, refl)

module _ (dns : CrawlerDns) (parse_ip : Text → Option IpAddr) (set : GreylistSet) (now : ℕ) where
  Effect-CountsOne :
      (f : IpFeatures) (p q : Pass)
      → Effect dns parse_ip set now f p q
      → CountsOne p.report q.report
  unfolding enter
  Effect-CountsOne f p q idle = (omega arith, refl)
  Effect-CountsOne f p q (entered rule reason evidence n e x) = (omega arith, refl)
  Effect-CountsOne f p q (consulted rule reason evidence addr e x a) =
      on_verdict-CountsOne now f.ip reason evidence
        (record p { cache = (verify dns p.cache addr now).1 }) (verify dns p.cache addr now).0

  sweep_all-counts :
      (fs : List IpFeatures) (p : Pass)
      → (decided (sweep_all dns parse_ip set now fs p).report ≤ decided p.report + length fs)
        × ((sweep_all dns parse_ip set now fs p).report.evaluated ≡ p.report.evaluated)
  unfolding sweep_all
  sweep_all-counts [] p = (omega arith, refl)
  sweep_all-counts (f ∷ fs) p =
      let q = sweep_one dns parse_ip set now f p in
      let (at_most, kept) = sweep_all-counts fs q in
      let (one, same_count) = Effect-CountsOne f p q (sweep_one-Effect dns parse_ip set now f p) in
      (omega (arith, at_most, one), kept ∙ same_count)

-- A report counts each address evaluated at most once: the addresses entered, exempted and skipped
-- are no more than those evaluated, which are the features of the window.
pub run_once-report :
    (release_fails : Text → Bool) (dns : CrawlerDns) (parse_ip : Text → Option IpAddr)
    (rows : List IpPathAgg) (table : List GreylistEntry) (cache : CrawlerCache) (set : GreylistSet)
    (now later : ℕ)
    → (decided (run_once release_fails dns parse_ip rows table cache set now later).report
        ≤ (run_once release_fails dns parse_ip rows table cache set now later).report.evaluated)
      × ((run_once release_fails dns parse_ip rows table cache set now later).report.evaluated
          ≡ length (build_features parse_ip rows))
unfolding run_once settle
run_once-report release_fails dns parse_ip rows table cache set now later =
    let fs = build_features parse_ip rows in
    let (at_most, kept) = sweep_all-counts dns parse_ip set now fs (start table cache fs) in
    (omega (arith, at_most, kept), kept)
