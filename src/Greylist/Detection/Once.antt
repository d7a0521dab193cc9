-- ===== src/Greylist/Detection/Once.antt =====
-- No address is reported twice.
use hotchkiss_io.Base.{
  All, All-map, Bool-cases, List, Option, [], arith, false, filter, if◌then◌else◌, inl, inr, length,
  map, refl, some, true, ℕ, ◌∷◌, ◌≡◌, ◌≤◌,
}
use hotchkiss_io.Text.{Text, same}
use hotchkiss_io.Text.Laws.{same_iff}
use hotchkiss_io.Text.Map.{alter}
use hotchkiss_io.Greylist.Ip.{IpAddr}
use hotchkiss_io.Greylist.Detection.{
  Acc, IpFeatures, IpPathAgg, accumulate, build_features, count_row, features_of, or_new,
  should_evaluate,
}
use hotchkiss_io.Greylist.Detection.Features.{find_features}

abbrev occurrences : Text → List IpFeatures → ℕ
occurrences ip fs = length (filter (λ f. same f.ip ip) fs)

occurrences-alter_other :
    (ip k : Text) (f : Option Acc → Acc) (m : List (Text × Acc))
    → same k ip ≡ false
    → occurrences ip (map features_of (alter k f m)) ≡ occurrences ip (map features_of m)
unfolding alter
occurrences-alter_other ip k f [] n = ground arith
occurrences-alter_other ip k f ((j, a) ∷ m) n = ground (arith, occurrences-alter_other ip k f m n)

occurrences-alter :
    (ip k : Text) (f : Option Acc → Acc) (m : List (Text × Acc))
    → occurrences ip (map features_of m) ≤ 1
    → occurrences ip (map features_of (alter k f m)) ≤ 1
unfolding alter
occurrences-alter ip k f [] h = ground arith
occurrences-alter ip k f ((j, a) ∷ m) h = ground (
  arith,
  same_iff j k,
  same_iff j ip,
  same_iff k ip,
  occurrences-alter ip k f m,
  occurrences-alter_other ip k f m,
)

found_of_none :
    (ip : Text) (P : IpFeatures → Type 0) (fs : List IpFeatures)
    → occurrences ip fs ≤ 0
    → All (λ f. same f.ip ip ≡ true → P f) fs
found_of_none ip P [] h = tt
found_of_none ip P (f ∷ fs) h = elim (Bool-cases (same f.ip ip)) [
  | inl y ↦ absurd (ground (arith, h, y))
  | inr n ↦ (λ y. absurd (ground (arith, y, n)), found_of_none ip P fs (ground (arith, h, n)))
]

found_of_once :
    (ip : Text) (fs : List IpFeatures)
    → occurrences ip fs ≤ 1
    → All (λ f. same f.ip ip ≡ true → find_features ip fs ≡ some f) fs
unfolding find_features
found_of_once ip [] h = tt
found_of_once ip (f ∷ fs) h = elim (Bool-cases (same f.ip ip)) [
  | inl y ↦ (λ _. rw y refl, found_of_none ip _ fs (ground (arith, h, y)))
  | inr n ↦ (
    λ y. absurd (ground (arith, y, n)),
    All-map _ _ (λ g e y. rw n (e y)) fs (found_of_once ip fs (ground (arith, h, n))),
  )
]

module _ (parse_ip : Text → Option IpAddr) (ip : Text) where
  occurrences-accumulate :
      (m : List (Text × Acc)) (rows : List IpPathAgg)
      → occurrences ip (map features_of m) ≤ 1
      → occurrences ip (map features_of (accumulate parse_ip m rows)) ≤ 1
  unfolding accumulate
  occurrences-accumulate m [] h = h
  occurrences-accumulate m (r ∷ rows) h =
      occurrences-accumulate
        (if should_evaluate parse_ip r.ip then alter r.ip (λ a. count_row r (or_new a)) m else m)
        rows
        (elim (Bool-cases (should_evaluate parse_ip r.ip)) [
          | inl y ↦ rw y (occurrences-alter ip r.ip (λ a. count_row r (or_new a)) m h)
          | inr n ↦ rw n h
        ])

  -- Every entry for the address is the one that a search finds.
  pub build_features-once :
      (rows : List IpPathAgg)
      → All
          (λ f. same f.ip ip ≡ true → find_features ip (build_features parse_ip rows) ≡ some f)
          (build_features parse_ip rows)
  unfolding build_features
  build_features-once rows = found_of_once ip _ (occurrences-accumulate [] rows (omega arith))
