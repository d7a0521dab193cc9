-- ===== src/Greylist/Detection/Features.antt =====
-- The features of an address are sums over its own rows.
use hotchkiss_io.Base.{
  Bool, Bool-cases, List, Option, [], arith, false, filter, if◌then◌else◌, inl, inr, leb, map, none,
  refl, some, true, ℕ, ◌&&◌, ◌+◌, ◌∷◌, ◌≡◌,
}
use hotchkiss_io.Text.{Text, same}
use hotchkiss_io.Text.Map.{alter, lookup, lookup-alter}
use hotchkiss_io.Text.Laws.{same_iff}
use hotchkiss_io.Greylist.Ip.{IpAddr}
use hotchkiss_io.Greylist.Detection.{
  Acc, IpFeatures, IpPathAgg, accumulate, build_features, count_row, features_of, is_signature_path,
  no_requests, or_new, should_evaluate,
}

-- The rows of one address, and sums over rows that a test picks: the independent description.
abbrev pub rows_of : Text → List IpPathAgg → List IpPathAgg
rows_of ip = filter (λ r. same r.ip ip)

abbrev pub count_where : (IpPathAgg → Bool) → List IpPathAgg → ℕ
count_where p [] = 0
count_where p (r ∷ rows) = (if p r then r.count else 0) + count_where p rows

abbrev pub is_error : IpPathAgg → Bool
is_error r = leb 400 r.status

abbrev pub is_probe : IpPathAgg → Bool
is_probe r = leb 400 r.status && is_signature_path r.path

fold_rows : Acc → List IpPathAgg → Acc
fold_rows a [] = a
fold_rows a (r ∷ rows) = fold_rows (count_row r a) rows

record IsSum (a : Acc) (rows : List IpPathAgg) (b : Acc) : Type 0 where
  total : b.total ≡ a.total + count_where (λ r. true) rows
  errors : b.errors ≡ a.errors + count_where is_error rows
  signature_hits : b.signature_hits ≡ a.signature_hits + count_where is_probe rows

-- One row more on the accumulator.
count_row-IsSum :
    (a b : Acc) (r : IpPathAgg) (rows : List IpPathAgg)
    → IsSum (count_row r a) rows b
    → IsSum a (r ∷ rows) b
unfolding count_row
count_row-IsSum a b r rows s = record {
  total = ground arith;
  errors = ground arith;
  signature_hits = ground arith;
}

fold_rows-IsSum : (a : Acc) (rows : List IpPathAgg) → IsSum a rows (fold_rows a rows)
unfolding fold_rows
fold_rows-IsSum a [] = omega arith
fold_rows-IsSum a (r ∷ rows) =
    count_row-IsSum a (fold_rows (count_row r a) rows) r rows (fold_rows-IsSum (count_row r a) rows)

abbrev merge : Option Acc → List IpPathAgg → Option Acc
merge o [] = o
merge o (r ∷ rows) = merge (some (count_row r (or_new o))) rows

merge-some : (a : Acc) (rows : List IpPathAgg) → merge (some a) rows ≡ some (fold_rows a rows)
unfolding fold_rows
merge-some a [] = refl
merge-some a (r ∷ rows) = merge-some (count_row r a) rows

unfoldable pub find_features : Text → List IpFeatures → Option IpFeatures
find_features ip [] = none
find_features ip (f ∷ fs) = if same f.ip ip then some f else find_features ip fs

find_features-map :
    (ip : Text) (m : List (Text × Acc))
    → find_features ip (map features_of m)
      ≡ elim (lookup ip m) [ none ↦ none | some a ↦ some (features_of (ip, a)) ]
unfolding find_features lookup
find_features-map ip [] = refl
find_features-map ip ((j, a) ∷ m) = ground (arith, find_features-map ip m, same_iff j ip)

module _ (parse_ip : Text → Option IpAddr) where
  lookup-accumulate :
      (ip : Text) (m : List (Text × Acc)) (rows : List IpPathAgg)
      → lookup ip (accumulate parse_ip m rows) ≡ (
          if should_evaluate parse_ip ip
          then merge (lookup ip m) (rows_of ip rows)
          else lookup ip m)
  unfolding accumulate
  lookup-accumulate ip m [] = ground arith
  lookup-accumulate ip m (r ∷ rows) =
      let next =
        if should_evaluate parse_ip r.ip then alter r.ip (λ a. count_row r (or_new a)) m else m in
      ground (
        arith,
        lookup-accumulate ip next rows,
        same_iff r.ip ip,
        lookup-alter r.ip ip (λ a. count_row r (or_new a)) m,
      )

  -- What `build_features` reports of an address: nothing if it is not to be evaluated or made no
  -- request, and otherwise the sums over the rows of that address alone.
  pub data IsReported (ip : Text) (rows : List IpPathAgg) : Option IpFeatures → Type 0 where
    skipped : should_evaluate parse_ip ip ≡ false → IsReported ip rows none
    absent : rows_of ip rows ≡ [] → IsReported ip rows none
    counted :
        (f : IpFeatures)
        → should_evaluate parse_ip ip ≡ true
        → f.ip ≡ ip
        → f.total ≡ count_where (λ r. true) (rows_of ip rows)
        → f.errors ≡ count_where is_error (rows_of ip rows)
        → f.signature_hits ≡ count_where is_probe (rows_of ip rows)
        → IsReported ip rows (some f)

  IsReported-rows :
      (ip : Text) (rows own : List IpPathAgg)
      → should_evaluate parse_ip ip ≡ true
      → rows_of ip rows ≡ own
      → IsReported ip rows
          (elim (merge none own) [ none ↦ none | some a ↦ some (features_of (ip, a)) ])
  IsReported-rows ip rows [] y e = absent e
  IsReported-rows ip rows (r ∷ own) y e =
      let s = fold_rows-IsSum no_requests (r ∷ own) in
      let last : merge none (r ∷ own) ≡ some (fold_rows no_requests (r ∷ own)) =
        unfold fold_rows in merge-some (count_row r no_requests) own in
      rw last (
        counted _ y refl (rw e (omega (arith, s.total))) (rw e (omega (arith, s.errors)))
          (rw e (omega (arith, s.signature_hits))))

  -- What a search finds for an address in the features: nothing only if the address is not to
  -- be evaluated or has no row, and otherwise the sums over its own rows alone.
  pub build_features-IsReported :
      (ip : Text) (rows : List IpPathAgg)
      → IsReported ip rows (find_features ip (build_features parse_ip rows))
  unfolding build_features lookup
  build_features-IsReported ip rows = rw (find_features-map ip (accumulate parse_ip [] rows)) (
      rw (lookup-accumulate ip [] rows) (elim (Bool-cases (should_evaluate parse_ip ip)) [
        | inl y ↦ rw y (IsReported-rows ip rows (rows_of ip rows) y refl)
        | inr n ↦ rw n (skipped n)
      ]))
