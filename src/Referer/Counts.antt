-- ===== src/Referer/Counts.antt =====
-- No request is lost when the referers are grouped.
use hotchkiss_io.Base.{
  Bool, Bool-cases, List, [], arith, if◌then◌else◌, inl, inr, insert_by, ltb, refl, sort_by, ℕ, ◌+◌,
  ◌∷◌, ◌≡◌,
}
use hotchkiss_io.Referer.{
  CategoryCount, ExternalReferer, RefererCategory, RefererClass, RefererCount, UrlParser,
  add_external, aggregator, category_counts, count_row, count_rows, direct, external, external_leb,
  group_referers, in_category, internal, ip_literal, malformed, normalize_referer, referral,
  same_category, searching, social, total_of,
}
use hotchkiss_io.Text.{Text, same}

-- The requests of the rows that are not navigation within the site.
abbrev pub requests_of_class : RefererClass → ℕ → ℕ
requests_of_class internal n = 0
requests_of_class _ n = n

unfoldable pub outside_requests : UrlParser → Text → List RefererCount → ℕ
unfolding normalize_referer
outside_requests parse site_host [] = 0
outside_requests parse site_host (r ∷ rows) =
    requests_of_class (normalize_referer parse r.referer site_host) r.count
    + outside_requests parse site_host rows

abbrev pub total_of_categories : List CategoryCount → ℕ
total_of_categories [] = 0
total_of_categories (c ∷ cs) = c.count + total_of_categories cs

total_of-add_external :
    (h : Text) (cat : RefererCategory) (n : ℕ) (es : List ExternalReferer)
    → total_of (add_external h cat n es) ≡ total_of es + n
unfolding total_of add_external
total_of-add_external h cat n [] = omega arith
total_of-add_external h cat n (e ∷ es) = elim (Bool-cases (same e.host h)) [
  | inl y ↦ rw y (omega arith)
  | inr m ↦ rw m (omega (arith, total_of-add_external h cat n es))
]

count_row-total :
    (c : RefererClass) (n : ℕ) (s : List ExternalReferer × ℕ)
    → total_of (count_row c n s).0 + (count_row c n s).1
      ≡ (total_of s.0 + s.1) + requests_of_class c n
unfolding count_row
count_row-total direct n (es, k) = omega arith
count_row-total malformed n (es, k) = omega arith
count_row-total ip_literal n (es, k) = omega arith
count_row-total internal n (es, k) = omega arith
count_row-total (external h cat) n (es, k) = omega (arith, total_of-add_external h cat n es)

count_rows-total :
    (parse : UrlParser) (site : Text) (rows : List RefererCount) (s : List ExternalReferer × ℕ)
    → total_of (count_rows parse site rows s).0 + (count_rows parse site rows s).1
      ≡ (total_of s.0 + s.1) + outside_requests parse site rows
unfolding count_rows outside_requests
count_rows-total parse site [] s = omega arith
count_rows-total parse site (r ∷ rows) s = omega (
  arith,
  count_row-total (normalize_referer parse r.referer site) r.count s,
  count_rows-total parse site rows (count_row (normalize_referer parse r.referer site) r.count s),
)

total_of-insert_by :
    (le : ExternalReferer → ExternalReferer → Bool) (e : ExternalReferer)
    (es : List ExternalReferer)
    → total_of (insert_by le e es) ≡ e.count + total_of es
unfolding total_of insert_by
total_of-insert_by le e [] = refl
total_of-insert_by le e (f ∷ es) = elim (Bool-cases (le e f)) [
  | inl y ↦ rw y refl
  | inr n ↦ rw n (omega (arith, total_of-insert_by le e es))
]

total_of-sort_by :
    (le : ExternalReferer → ExternalReferer → Bool) (es : List ExternalReferer)
    → total_of (sort_by le es) ≡ total_of es
unfolding total_of sort_by
total_of-sort_by le [] = refl
total_of-sort_by le (e ∷ es) =
    omega (arith, total_of-insert_by le e (sort_by le es), total_of-sort_by le es)

-- What an entry adds to a category.
abbrev part : RefererCategory → RefererCategory → ℕ → ℕ
part c cat n = if same_category c cat then n else 0

in_category-step :
    (cat : RefererCategory) (e : ExternalReferer) (es : List ExternalReferer)
    → in_category cat (e ∷ es) ≡ part e.category cat e.count + in_category cat es
unfolding in_category total_of
in_category-step cat e es = elim (Bool-cases (same_category e.category cat)) [
  | inl y ↦ rw y refl
  | inr n ↦ rw n (omega arith)
]

-- Every entry is of one of the four categories.
part-total :
    (c : RefererCategory) (n : ℕ)
    → ((part c searching n + part c social n) + part c aggregator n) + part c referral n ≡ n
unfolding same_category
part-total searching n = omega arith
part-total social n = omega arith
part-total aggregator n = omega arith
part-total referral n = omega arith

in_categories-total :
    (es : List ExternalReferer)
    → ((in_category searching es + in_category social es) + in_category aggregator es)
        + in_category referral es
      ≡ total_of es
unfolding total_of
in_categories-total [] = unfold in_category in refl
in_categories-total (e ∷ es) = omega (
  arith,
  in_category-step searching e es,
  in_category-step social e es,
  in_category-step aggregator e es,
  in_category-step referral e es,
  part-total e.category e.count,
  in_categories-total es,
)

category_counts-total :
    (cat : RefererCategory) (cats : List RefererCategory) (es : List ExternalReferer)
    → total_of_categories (category_counts (cat ∷ cats) es)
      ≡ in_category cat es + total_of_categories (category_counts cats es)
unfolding category_counts
category_counts-total cat cats es = elim (Bool-cases (ltb 0 (in_category cat es))) [
  | inl y ↦ rw y refl
  | inr n ↦ ground (arith, n)
]

abbrev all_categories : List RefererCategory
all_categories = searching ∷ social ∷ aggregator ∷ referral ∷ []

all_categories-total :
    (es : List ExternalReferer)
    → total_of_categories (category_counts all_categories es) ≡ total_of es
all_categories-total es = omega (
  arith,
  category_counts-total searching (social ∷ aggregator ∷ referral ∷ []) es,
  category_counts-total social (aggregator ∷ referral ∷ []) es,
  category_counts-total aggregator (referral ∷ []) es,
  category_counts-total referral [] es,
  none_left,
  in_categories-total es,
)
  where
    none_left : total_of_categories (category_counts [] es) ≡ 0
    none_left = unfold category_counts in refl

-- Every request with a referer is counted in one category or as noise, but for the navigation within
-- the site, also when more hosts refer than are listed.
pub group_referers-total :
    (parse : UrlParser) (rows : List RefererCount) (site : Text) (n : ℕ)
    → total_of_categories (group_referers parse rows site n).by_category
        + (group_referers parse rows site n).noise_count
      ≡ outside_requests parse site rows
unfolding group_referers total_of
group_referers-total parse rows site n = omega (
  arith,
  count_rows-total parse site rows ([], 0),
  total_of-sort_by external_leb (count_rows parse site rows ([], 0)).0,
  all_categories-total (sort_by external_leb (count_rows parse site rows ([], 0)).0),
)
