-- ===== src/Greylist/Sweep/Effects.antt =====
-- What one address of the loop does to the state of the pass.
use hotchkiss_io.Base.{Bool-cases, Option, false, inl, inr, none, refl, some, true, ℕ, ◌≡◌}
use hotchkiss_io.Text.{Text}
use hotchkiss_io.Greylist.Ip.{IpAddr}
use hotchkiss_io.Greylist.Detection.{
  IpFeatures, Rule, Verdict, clear, exempts_verified_crawlers, greylist, score,
}
use hotchkiss_io.Greylist.Crawler.{CrawlerDns, verify}
use hotchkiss_io.Greylist.ActiveSet.{GreylistSet, is_allowlisted}
use hotchkiss_io.Greylist.Sweep.{Pass, consult, enter, judge, on_verdict, sweep_one}

module _ (dns : CrawlerDns) (parse_ip : Text → Option IpAddr) where
  pub data Effect (set : GreylistSet) (now : ℕ) (f : IpFeatures) (p : Pass) : Pass → Type 0 where
    idle : Effect set now f p p
    entered :
        (rule : Rule) (reason evidence : Text)
        → is_allowlisted set f.ip ≡ false
        → score f ≡ greylist rule reason evidence
        → exempts_verified_crawlers rule ≡ false
        → Effect set now f p (enter now f.ip reason evidence p)
    consulted :
        (rule : Rule) (reason evidence : Text) (addr : IpAddr)
        → score f ≡ greylist rule reason evidence
        → exempts_verified_crawlers rule ≡ true
        → parse_ip f.ip ≡ some addr
        → Effect set now f p (
            on_verdict now f.ip reason evidence
              (record p { cache = (verify dns p.cache addr now).1 })
              (verify dns p.cache addr now).0)

  consult-Effect :
      (set : GreylistSet) (now : ℕ) (f : IpFeatures) (p : Pass) (rule : Rule)
      (reason evidence : Text)
      → score f ≡ greylist rule reason evidence
      → exempts_verified_crawlers rule ≡ true
      → Effect set now f p (consult dns parse_ip now f.ip reason evidence p)
  unfolding consult
  consult-Effect set now f p rule reason evidence e x = parsed (parse_ip f.ip) refl
    where
      parsed :
          (o : Option IpAddr)
          → parse_ip f.ip ≡ o
          → Effect set now f p (elim o [
            | none ↦ p
            | some addr ↦
                let (verdict, cache) = verify dns p.cache addr now in
                on_verdict now f.ip reason evidence (record p { cache = cache }) verdict
          ])
      parsed none h = idle
      parsed (some addr) h = consulted rule reason evidence addr e x h

  pub sweep_one-Effect :
      (set : GreylistSet) (now : ℕ) (f : IpFeatures) (p : Pass)
      → Effect set now f p (sweep_one dns parse_ip set now f p)
  unfolding sweep_one judge
  sweep_one-Effect set now f p = elim (Bool-cases (is_allowlisted set f.ip)) [
    | inl y ↦ rw y idle
    | inr n ↦ rw n (judged n (score f) refl)
  ]
    where
      judged :
          is_allowlisted set f.ip ≡ false
          → (v : Verdict) → score f ≡ v
          → Effect set now f p (judge dns parse_ip now f.ip v p)
      judged n clear e = idle
      judged n (greylist rule reason evidence) e =
          elim (Bool-cases (exempts_verified_crawlers rule)) [
            | inl x ↦ rw x (consult-Effect set now f p rule reason evidence e x)
            | inr x ↦ rw x (entered rule reason evidence n e x)
          ]
