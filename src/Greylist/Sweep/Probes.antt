-- ===== src/Greylist/Sweep/Probes.antt =====
-- An address that probed is greylisted when the pass ends.
use hotchkiss_io.Base.{
  Bool, Bool-cases, List, Option, [], arith, false, inl, inr, none, refl, some, subst, true, ℕ, ◌<◌,
  ◌∙◌, ◌∷◌, ◌≡◌, ◌≤◌, ◌⊎◌,
}
use hotchkiss_io.Text.{Text, is_one_of, same}
use hotchkiss_io.Text.Laws.{same_iff}
use hotchkiss_io.Greylist.Ip.{IpAddr}
use hotchkiss_io.Greylist.Detection.{
  IpFeatures, IpPathAgg, build_features, evidence_of, greylist, rule_label, score, should_evaluate,
  signature_probe, tripped,
}
use hotchkiss_io.Greylist.Detection.Features.{
  IsReported, absent, build_features-IsReported, count_where, counted, find_features, is_probe,
  rows_of, skipped,
}
use hotchkiss_io.Greylist.Crawler.{
  CrawlerCache, CrawlerDns, CrawlerVerdict, not_crawler, unknown, verified, verify,
}
use hotchkiss_io.Greylist.Table.{GreylistEntry, active, is_active, prune_expired, release}
use hotchkiss_io.Greylist.Table.Pins.{
  active-holds, holds, prune_expired-holds, release-other, upsert_auto-holds, upsert_auto-other,
}
use hotchkiss_io.Greylist.ActiveSet.{GreylistSet, allowlisted, is_allowlisted, is_greylisted}
use hotchkiss_io.Greylist.ActiveSet.Allowlist.{is_greylisted-refresh, is_one_of-allowlisted}
use hotchkiss_io.Greylist.Sweep.{
  Pass, enter, judge, on_verdict, release_all, run_once, settle, start, sweep_all, sweep_one,
  ttl_expiry,
}
use hotchkiss_io.Greylist.Sweep.Effects.{Effect, consulted, entered, idle, sweep_one-Effect}

score_of_probe :
    (f : IpFeatures)
    → 2 ≤ f.signature_hits
    → score f ≡ greylist signature_probe (rule_label signature_probe) (evidence_of f)
unfolding score
score_of_probe f hits =
    let first : tripped f ≡ some signature_probe = unfold tripped in ground arith in
    rw (first, score) refl

module _ (ip : Text) (now later : ℕ) (h : later < ttl_expiry now) where
  enter-holds :
      (j reason evidence : Text) (p : Pass)
      → (holds ip later p.table ≡ true) ⊎ (j ≡ ip)
      → holds ip later (enter now j reason evidence p).table ≡ true
  unfolding enter
  enter-holds j reason evidence p c = elim (Bool-cases (same j ip)) [
    | inl y ↦
        let e : j ≡ ip = (same_iff j ip).0 y in
        rw e (upsert_auto-holds p.table now ip reason (some evidence) (ttl_expiry now) later h)
    | inr n ↦
        upsert_auto-other (λ e. is_active e later) ip p.table now j reason (some evidence)
          (ttl_expiry now) n
        ∙ elim c [ inl held ↦ held | inr e ↦ absurd (ground (arith, same_iff j ip)) ]
  ]

  on_verdict-holds :
      (j reason evidence : Text) (p : Pass) (v : CrawlerVerdict)
      → holds ip later p.table ≡ true
      → holds ip later (on_verdict now j reason evidence p v).table ≡ true
  unfolding on_verdict
  on_verdict-holds j reason evidence p verified held = held
  on_verdict-holds j reason evidence p unknown held = held
  on_verdict-holds j reason evidence p not_crawler held = enter-holds j reason evidence p (inl held)

  module _ (dns : CrawlerDns) (parse_ip : Text → Option IpAddr) (set : GreylistSet) where
    Effect-holds :
        (f : IpFeatures) (p q : Pass)
        → Effect dns parse_ip set now f p q
        → holds ip later p.table ≡ true
        → holds ip later q.table ≡ true
    Effect-holds f p q idle held = held
    Effect-holds f p q (entered rule reason evidence n e x) held =
        enter-holds f.ip reason evidence p (inl held)
    Effect-holds f p q (consulted rule reason evidence addr e x a) held =
        on_verdict-holds f.ip reason evidence _ (verify dns p.cache addr now).0 held

    sweep_all-keeps :
        (fs : List IpFeatures) (p : Pass)
        → holds ip later p.table ≡ true
        → holds ip later (sweep_all dns parse_ip set now fs p).table ≡ true
    unfolding sweep_all
    sweep_all-keeps [] p held = held
    sweep_all-keeps (f ∷ fs) p held =
        sweep_all-keeps fs (sweep_one dns parse_ip set now f p)
          (Effect-holds f p _ (sweep_one-Effect dns parse_ip set now f p) held)

    is_allowlisted_at :
        (f : IpFeatures)
        → f.ip ≡ ip
        → is_allowlisted set ip ≡ false
        → is_allowlisted set f.ip ≡ false
    is_allowlisted_at f e n = rw e n

    sweep_one-enters :
        (f : IpFeatures) (p : Pass)
        → f.ip ≡ ip
        → is_allowlisted set ip ≡ false
        → 2 ≤ f.signature_hits
        → holds ip later (sweep_one dns parse_ip set now f p).table ≡ true
    unfolding sweep_one judge
    sweep_one-enters f p e n hits = rw (score_of_probe f hits) (
        rw (is_allowlisted_at f e n)
          (enter-holds f.ip (rule_label signature_probe) (evidence_of f) p (inr e)))

    sweep_all-enters :
        (fs : List IpFeatures) (p : Pass) (f : IpFeatures)
        → find_features ip fs ≡ some f
        → is_allowlisted set ip ≡ false
        → 2 ≤ f.signature_hits
        → holds ip later (sweep_all dns parse_ip set now fs p).table ≡ true
    unfolding sweep_all find_features
    sweep_all-enters [] p f e n hits = cc
    sweep_all-enters (g ∷ fs) p f e n hits = elim (Bool-cases (same g.ip ip)) [
      | inl y ↦
          let found : g ≡ f = ground (arith, e, y) in
          sweep_all-keeps fs (sweep_one dns parse_ip set now g p)
            (sweep_one-enters g p ((same_iff g.ip ip).0 y) n (rw found hits))
      | inr m ↦
          sweep_all-enters fs (sweep_one dns parse_ip set now g p) f (ground (arith, e, m)) n hits
    ]

release_all-holds :
    (release_fails : Text → Bool) (ip : Text) (later : ℕ) (ips : List Text) (t : List GreylistEntry)
    → is_one_of ip ips ≡ false
    → holds ip later (release_all release_fails ips t) ≡ holds ip later t
unfolding release_all is_one_of
release_all-holds release_fails ip later [] t n = refl
release_all-holds release_fails ip later (j ∷ ips) t n = elim (Bool-cases (release_fails j)) [
  | inl y ↦ rw y (release_all-holds release_fails ip later ips t (ground arith))
  | inr k ↦ rw k (
      release_all-holds release_fails ip later ips (release t j).1 (ground arith)
      ∙ release-other (λ e. is_active e later) ip j t
          (ground (arith, same_iff ip j, same_iff j ip)))
]

settle-greylists :
    (release_fails : Text → Bool) (set : GreylistSet) (later : ℕ) (p : Pass) (ip : Text)
    → is_allowlisted set ip ≡ false
    → holds ip later p.table ≡ true
    → is_greylisted (settle release_fails set later p).set ip ≡ true
unfolding settle
settle-greylists release_fails set later p ip n held =
    let t = release_all release_fails (allowlisted set) p.table in
    is_greylisted-refresh set (active (prune_expired t later).1 later) ip
    ∙ rw
        (
          n,
          active-holds ip later (prune_expired t later).1,
          prune_expired-holds t later ip,
          release_all-holds release_fails ip later (allowlisted set) p.table
              (is_one_of-allowlisted set ip ∙ n),
        )
        held

-- Rule R1 end to end: an address that is not the operator's and has at least two failed probes of a
-- signature path in the window is greylisted for the request path when the pass ends, whatever the
-- resolver says, provided that the pass takes less than the lifetime of an entry.
pub run_once-greylists_probes :
    (release_fails : Text → Bool) (dns : CrawlerDns) (parse_ip : Text → Option IpAddr)
    (rows : List IpPathAgg) (table : List GreylistEntry) (cache : CrawlerCache) (set : GreylistSet)
    (now later : ℕ) (ip : Text)
    → should_evaluate parse_ip ip ≡ true
    → is_allowlisted set ip ≡ false
    → 2 ≤ count_where is_probe (rows_of ip rows)
    → later < ttl_expiry now
    → is_greylisted (run_once release_fails dns parse_ip rows table cache set now later).set ip
      ≡ true
unfolding run_once
run_once-greylists_probes release_fails dns parse_ip rows table cache set now later ip y n hits h =
    reported (find_features ip (build_features parse_ip rows)) refl
      (build_features-IsReported parse_ip ip rows)
  where
    reported :
        (o : Option IpFeatures)
        → find_features ip (build_features parse_ip rows) ≡ o
        → IsReported parse_ip ip rows o
        → is_greylisted
            (settle release_fails set later (
              sweep_all dns parse_ip set now
                (build_features parse_ip rows)
                (start table cache (build_features parse_ip rows)))).set
            ip
          ≡ true
    reported none e (skipped s) = absurd (ground (arith, s, y))
    reported none e (absent s) =
        absurd (omega (arith, subst (λ own. 2 ≤ count_where is_probe own) s hits))
    reported (some f) e (counted g s i t r k) =
        settle-greylists release_fails set later
          (sweep_all dns parse_ip set now (build_features parse_ip rows)
            (start table cache (build_features parse_ip rows)))
          ip n
          (sweep_all-enters ip now later h dns parse_ip set _
            (start table cache (build_features parse_ip rows)) f e n (rw k hits))
