-- ===== src/Greylist/Sweep/Spared.antt =====
-- Whom the sweep spares: the operator, and a crawler whose name is confirmed.
use hotchkiss_io.Base.{
  All, All-map, Bool, Bool-cases, List, Option, [], arith, false, if◌then◌else◌, inl, inr, none,
  refl, some, subst, sym, true, ℕ, ◌<◌, ◌∙◌, ◌∷◌, ◌≡◌, ◌≢◌, ◌⊎◌,
}
use hotchkiss_io.Text.{Text, is_one_of, same}
use hotchkiss_io.Text.Laws.{same_iff}
use hotchkiss_io.Greylist.Ip.{IpAddr}
use hotchkiss_io.Greylist.Detection.{
  IpFeatures, IpPathAgg, Rule, build_features, distinct_404_burst, exempts_verified_crawlers, flood,
  greylist, score, signature_probe,
}
use hotchkiss_io.Greylist.Crawler.{
  CrawlerCache, CrawlerDns, CrawlerVerdict, not_crawler, unknown, verified, verify, verify_crawler,
}
use hotchkiss_io.Greylist.Table.{GreylistEntry, active, prune_expired, release}
use hotchkiss_io.Greylist.Table.Pins.{
  has_row, prune_expired-has_row, release-gone, release-has_row, upsert_auto-has_row,
}
use hotchkiss_io.Greylist.ActiveSet.{GreylistSet, allowlisted, is_allowlisted, is_greylisted}
use hotchkiss_io.Greylist.ActiveSet.Allowlist.{is_greylisted-refresh, is_one_of-allowlisted}
use hotchkiss_io.Greylist.Sweep.{
  Pass, enter, on_verdict, release_all, run_once, settle, start, sweep_all, sweep_one, ttl_expiry,
}
use hotchkiss_io.Greylist.Detection.Features.{
  IsReported, build_features-IsReported, count_where, counted, find_features, is_probe, rows_of,
}
use hotchkiss_io.Greylist.Sweep.Effects.{Effect, consulted, entered, idle, sweep_one-Effect}
use hotchkiss_io.Greylist.Detection.Rules.{Explains, bursts, floods, probes, score-Explains}
use hotchkiss_io.Greylist.Crawler.Verdicts.{Agrees, verify-Agrees}
use hotchkiss_io.Greylist.Detection.Once.{build_features-once}

release_all-has_row :
    (release_fails : Text → Bool) (j : Text) (ips : List Text) (t : List GreylistEntry)
    → has_row j t ≡ false
    → has_row j (release_all release_fails ips t) ≡ false
unfolding release_all
release_all-has_row release_fails j [] t h = h
release_all-has_row release_fails j (ip ∷ ips) t h = elim (Bool-cases (release_fails ip)) [
  | inl y ↦ rw y (release_all-has_row release_fails j ips t h)
  | inr n ↦
      rw n (release_all-has_row release_fails j ips (release t ip).1 (release-has_row t ip j h))
]

release_all-gone :
    (release_fails : Text → Bool) (j : Text) (ips : List Text) (t : List GreylistEntry)
    → release_fails j ≡ false
    → is_one_of j ips ≡ true
    → has_row j (release_all release_fails ips t) ≡ false
unfolding release_all is_one_of
release_all-gone release_fails j [] t k h = cc
release_all-gone release_fails j (ip ∷ ips) t k h = elim (Bool-cases (same j ip)) [
  | inl y ↦
      let here : release_fails ip ≡ false =
        subst (λ z. release_fails z ≡ false) ((same_iff j ip).0 y) k in
      rw here (
        release_all-has_row release_fails j ips (release t ip).1
          (rw ((same_iff j ip).0 y) (release-gone t ip)))
  | inr n ↦
      release_all-gone release_fails j ips (if release_fails ip then t else (release t ip).1) k
        (ground arith)
]

-- When a pass ends, an allowlisted address is not greylisted by the snapshot, and it has no row in the
-- table unless the query that releases it failed.
pub run_once-spares_operator :
    (release_fails : Text → Bool) (dns : CrawlerDns) (parse_ip : Text → Option IpAddr)
    (rows : List IpPathAgg) (table : List GreylistEntry) (cache : CrawlerCache) (set : GreylistSet)
    (now later : ℕ) (ip : Text)
    → is_allowlisted set ip ≡ true
    → ((has_row ip (run_once release_fails dns parse_ip rows table cache set now later).table
          ≡ false)
        ⊎ (release_fails ip ≡ true))
      × (is_greylisted (run_once release_fails dns parse_ip rows table cache set now later).set ip
          ≡ false)
unfolding run_once settle
run_once-spares_operator release_fails dns parse_ip rows table cache set now later ip y =
    let fs = build_features parse_ip rows in
    let p = sweep_all dns parse_ip set now fs (start table cache fs) in
    let t = release_all release_fails (allowlisted set) p.table in
    (
      elim (Bool-cases (release_fails ip)) [
        | inl k ↦ inr k
        | inr k ↦ inl (
            prune_expired-has_row t later ip (
              release_all-gone release_fails ip (allowlisted set) p.table k
                (is_one_of-allowlisted set ip ∙ y)))
      ],
      is_greylisted-refresh set (active (prune_expired t later).1 later) ip ∙ rw y refl,
    )

-- The rules that ask no resolver are R1, which needs two hits.
exempt_of_few :
    (f : IpFeatures) (rule : Rule) (reason evidence : Text)
    → score f ≡ greylist rule reason evidence
    → f.signature_hits < 2
    → exempts_verified_crawlers rule ≡ true
exempt_of_few f signature_probe reason evidence e few =
    elim (subst (Explains f) e (score-Explains f)).0
        as (λ r _. r ≡ signature_probe → exempts_verified_crawlers r ≡ true) [
          | probes hits ↦ λ q. absurd (omega (arith, few, hits))
          | bursts _ _ ↦ λ q. refl
          | floods _ _ _ ↦ λ q. refl
        ]
      refl
exempt_of_few f distinct_404_burst reason evidence e few = refl
exempt_of_few f flood reason evidence e few = refl

module _ (dns : CrawlerDns) (parse_ip : Text → Option IpAddr) (ip : Text) (set : GreylistSet)
    (now : ℕ) where
  -- The state of the pass while the address is spared.
  record IsSpared (p : Pass) : Type 0 where
    absent : has_row ip p.table ≡ false
    agrees : Agrees dns p.cache

  on_verdict-IsSpared :
      (j reason evidence : Text) (p : Pass) (v : CrawlerVerdict)
      → IsSpared p
      → (same j ip ≡ true → v ≢ not_crawler)
      → IsSpared (on_verdict now j reason evidence p v)
  unfolding on_verdict enter
  on_verdict-IsSpared j reason evidence p verified s d = record {
    absent = s.absent;
    agrees = s.agrees;
  }
  on_verdict-IsSpared j reason evidence p unknown s d = record {
    absent = s.absent;
    agrees = s.agrees;
  }
  on_verdict-IsSpared j reason evidence p not_crawler s d = record {
    absent =
        upsert_auto-has_row ip p.table now j reason (some evidence) (ttl_expiry now)
        ∙ elim (Bool-cases (same j ip)) [ inl y ↦ absurd (d y refl) | inr n ↦ rw n s.absent ];
    agrees = s.agrees;
  }

  Effect-IsSpared :
      (f : IpFeatures) (p q : Pass)
      → Effect dns parse_ip set now f p q
      → ((addr : IpAddr) → parse_ip ip ≡ some addr → verify_crawler dns addr ≢ not_crawler)
      → (same f.ip ip ≡ true → f.signature_hits < 2)
      → IsSpared p
      → IsSpared q
  unfolding enter
  Effect-IsSpared f p q idle c few s = s
  Effect-IsSpared f p q (entered rule reason evidence n e x) c few s = record {
    absent =
        upsert_auto-has_row ip p.table now f.ip reason (some evidence) (ttl_expiry now)
        ∙ elim (Bool-cases (same f.ip ip)) [
          | inl y ↦ absurd (ground (arith, x, exempt_of_few f rule reason evidence e (few y)))
          | inr m ↦ rw m s.absent
        ];
    agrees = s.agrees;
  }
  Effect-IsSpared f p q (consulted rule reason evidence addr e x a) c few s =
      let (same_verdict, agrees, _) = verify-Agrees dns p.cache addr now s.agrees in
      on_verdict-IsSpared f.ip reason evidence _ (verify dns p.cache addr now).0
        (record { absent = s.absent; agrees = agrees })
        (λ y v.
          c addr (subst (λ i. parse_ip i ≡ some addr) ((same_iff f.ip ip).0 y) a)
            (sym same_verdict ∙ v))

  sweep_all-IsSpared :
      (fs : List IpFeatures) (p : Pass)
      → ((addr : IpAddr) → parse_ip ip ≡ some addr → verify_crawler dns addr ≢ not_crawler)
      → All (λ f. same f.ip ip ≡ true → f.signature_hits < 2) fs
      → IsSpared p
      → IsSpared (sweep_all dns parse_ip set now fs p)
  unfolding sweep_all
  sweep_all-IsSpared [] p c few s = s
  sweep_all-IsSpared (f ∷ fs) p c (few, rest) s =
      sweep_all-IsSpared fs (sweep_one dns parse_ip set now f p) c rest
        (Effect-IsSpared f p _ (sweep_one-Effect dns parse_ip set now f p) c few s)

  hits_of_rows :
      (rows : List IpPathAgg)
      → count_where is_probe (rows_of ip rows) < 2
      → All (λ f. same f.ip ip ≡ true → f.signature_hits < 2) (build_features parse_ip rows)
  hits_of_rows rows few =
      All-map _ _
        (λ f found y. counted_hits f (found y) _ refl (build_features-IsReported parse_ip ip rows))
        (build_features parse_ip rows) (build_features-once parse_ip ip rows)
    where
      counted_hits :
          (f : IpFeatures)
          → find_features ip (build_features parse_ip rows) ≡ some f
          → (o : Option IpFeatures) → find_features ip (build_features parse_ip rows) ≡ o
          → IsReported parse_ip ip rows o
          → f.signature_hits < 2
      counted_hits f e none h r = absurd (ground (arith, sym e ∙ h))
      counted_hits f e (some g) h (counted k i j t r hits) =
          let q : f ≡ g = ground (arith, sym e ∙ h) in rw q (omega (arith, hits, few))

-- Rules R2 and R3 end to end, with a memo that agrees with the resolver: an address with fewer
-- than two failed probes, which the resolver does not rule out as a crawler (it confirms one,
-- or its answer is inconclusive), and which has no row, has none after the pass.
pub run_once-spares_crawlers :
    (release_fails : Text → Bool) (dns : CrawlerDns) (parse_ip : Text → Option IpAddr)
    (rows : List IpPathAgg) (table : List GreylistEntry) (cache : CrawlerCache) (set : GreylistSet)
    (now later : ℕ) (ip : Text)
    → Agrees dns cache
    → ((addr : IpAddr) → parse_ip ip ≡ some addr → verify_crawler dns addr ≢ not_crawler)
    → count_where is_probe (rows_of ip rows) < 2
    → has_row ip table ≡ false
    → has_row ip (run_once release_fails dns parse_ip rows table cache set now later).table ≡ false
unfolding run_once settle
run_once-spares_crawlers release_fails dns parse_ip rows table cache set now later ip a c few h =
    let fs = build_features parse_ip rows in
    let p = sweep_all dns parse_ip set now fs (start table cache fs) in
    let s =
      sweep_all-IsSpared dns parse_ip ip set now fs (start table cache fs) c
        (hits_of_rows dns parse_ip ip set now rows few) (record { absent = h; agrees = a }) in
    prune_expired-has_row (release_all release_fails (allowlisted set) p.table) later ip
      (release_all-has_row release_fails ip (allowlisted set) p.table s.absent)
