-- ===== src/Greylist/Detection/Rules.antt =====
-- What `score` decides.
use hotchkiss_io.Base.{Option, arith, none, refl, some, ◌<◌, ◌≡◌, ◌≤◌}
use hotchkiss_io.Greylist.Detection.{
  IpFeatures, Rule, Verdict, clear, distinct_404_burst, evidence_of, flood, greylist, rule_label,
  score, signature_probe, tripped,
}

-- The rule that an address trips, from the most to the least confident.
pub data Trips (f : IpFeatures) : Rule → Type 0 where
  probes : 2 ≤ f.signature_hits → Trips f signature_probe
  bursts : f.signature_hits < 2 → 40 ≤ f.distinct_404 → Trips f distinct_404_burst
  floods : f.signature_hits < 2 → f.distinct_404 < 40 → 1000 ≤ f.total → Trips f flood

-- No threshold is reached.
abbrev pub IsQuiet : IpFeatures → Type 0
IsQuiet f = (f.signature_hits < 2) × (f.distinct_404 < 40) × (f.total < 1000)

abbrev pub Explains : IpFeatures → Verdict → Type 0
Explains f clear = IsQuiet f
Explains f (greylist rule reason evidence) = Trips f rule × (reason ≡ rule_label rule)

tripped-Trips : (f : IpFeatures) (rule : Rule) → tripped f ≡ some rule → Trips f rule
unfolding tripped
tripped-Trips f signature_probe h = probes (ground arith)
tripped-Trips f distinct_404_burst h = bursts (ground arith) (ground arith)
tripped-Trips f flood h = floods (ground arith) (ground arith) (ground arith)

tripped-IsQuiet : (f : IpFeatures) → tripped f ≡ none → IsQuiet f
unfolding tripped
tripped-IsQuiet f h = ground arith

-- A verdict names the first rule of R1, R2, R3 whose threshold is reached, with that rule's label
-- for its reason, and an address is clear only if it is below all three.
pub score-Explains : (f : IpFeatures) → Explains f (score f)
unfolding score
score-Explains f = explain (tripped f) refl
  where
    explain :
        (o : Option Rule)
        → tripped f ≡ o
        → Explains f
            (elim o [ some rule ↦ greylist rule (rule_label rule) (evidence_of f) | none ↦ clear ])
    explain none e = tripped-IsQuiet f e
    explain (some rule) e = (tripped-Trips f rule e, refl)

-- At least as much of everything.
pub record AtLeast (f g : IpFeatures) : Type 0 where
  pub more_hits : f.signature_hits ≤ g.signature_hits
  pub more_404 : f.distinct_404 ≤ g.distinct_404
  pub more_total : f.total ≤ g.total

-- More misbehaviour never clears an address: what is greylisted stays so as its counts grow.
pub score_mono : (f g : IpFeatures) → AtLeast f g → score g ≡ clear → score f ≡ clear
unfolding score tripped
score_mono f g h e = ground arith
