-- ===== src/Referer/Hosts.antt =====
-- What stands behind a referrer of the dashboard.
use hotchkiss_io.Base.{
  All, All-of_pointwise, List, [], arith, length, sort_by, subst, suc, sym, take, zero, ℕ, ◌+◌, ◌∷◌,
  ◌≡◌, ◌≤◌,
}
use hotchkiss_io.Referer.{
  ExternalReferer, GroupedReferers, RefererCount, UrlParser, category_rules, count_rows,
  external_leb, group_referers, normalize_referer, top_external_limit,
}
use hotchkiss_io.Text.{Text}
use hotchkiss_io.Sorting.{All-sort_by}
use hotchkiss_io.Referer.Counts.{group_referers-total, outside_requests, total_of_categories}
use hotchkiss_io.Referer.Classes.{
  IsCategory, IsClass, IsOwn, categorize-IsCategory, is_internal-false, normalize_referer-IsClass,
}
use hotchkiss_io.Referer.Folded.{
  All-both, IsExternal, IsFolded, count_rows-IsFolded, counts_of-DistinctHosts, host_requests,
  host_total, host_total-count_rows,
}

-- What an entry of the dashboard says: its count is that of all rows of its host, its host is not the
-- site's, and its category is that of the first rule that its host meets.
abbrev pub IsReferrer : UrlParser → Text → List RefererCount → ExternalReferer → Type 0
IsReferrer parse site rows e =
    (e.count ≡ host_requests parse site e.host rows)
    × (¬ IsOwn site e.host × IsCategory e.host category_rules e.category)

All-take : {A : Type 0} (P : A → Type 0) (n : ℕ) (xs : List A) → All P xs → All P (take n xs)
All-take P zero xs h = tt
All-take P (suc n) [] h = tt
All-take P (suc n) (x ∷ xs) (px, h) = (px, All-take P n xs h)

folded-IsReferrer :
    (parse : UrlParser) (site : Text) (rows : List RefererCount)
    → All (IsReferrer parse site rows) (count_rows parse site rows ([], 0)).0
folded-IsReferrer parse site rows =
    All-both (λ e. e.count ≡ host_total e.host es) (IsExternal site) (IsReferrer parse site rows)
      (λ e c i. (
        omega (arith, c, host_total-count_rows parse site e.host rows ([], 0)),
        (
          is_internal-false e.host site i.0,
          subst (IsCategory e.host category_rules) (sym i.1) (categorize-IsCategory e.host),
        ),
      ))
      es (counts_of-DistinctHosts es folded.0) folded.1
  where
    es : List ExternalReferer
    es = (count_rows parse site rows ([], 0)).0

    folded : IsFolded site es
    folded = count_rows-IsFolded parse site rows ([], 0) (tt, tt)

length-take : {A : Type 0} (n : ℕ) (xs : List A) → length (take n xs) ≤ n
length-take zero xs = omega arith
length-take (suc n) [] = omega arith
length-take (suc n) (x ∷ xs) = omega (arith, length-take n xs)

-- The picture of the referrers: each row is of the class that its URL says, each listed entry is a
-- referrer, there are at most 25, and the categories and the noise together count the requests of all
-- rows that are not of the class of navigation within the site.
pub record IsGrouped (parse : UrlParser) (site : Text) (rows : List RefererCount)
    (g : GroupedReferers) : Type 0 where
  pub classes :
      All (λ r. IsClass parse site r.referer (normalize_referer parse r.referer site)) rows
  pub referrers : All (IsReferrer parse site rows) g.top_external
  pub few : length g.top_external ≤ 25
  pub total : total_of_categories g.by_category + g.noise_count ≡ outside_requests parse site rows

-- Each referer is classed by what its URL says: blank, unparsable, an IP address, the site or its beta,
-- or another host. A referrer that the dashboard lists is not the site or its beta, has the category of
-- the first rule that it meets, and counts the requests of all rows of its host; at most 25 are listed,
-- and the categories and the noise together count the requests of all rows but those of the site.
pub group_referers-IsGrouped :
    (parse : UrlParser) (rows : List RefererCount) (site : Text) (n : ℕ)
    → IsGrouped parse site rows (group_referers parse rows site n)
group_referers-IsGrouped parse rows site n = record {
  classes = All-of_pointwise _ (λ r. normalize_referer-IsClass parse r.referer site) rows;
  referrers =
      unfold group_referers in
      All-take (IsReferrer parse site rows) top_external_limit ordered (
        All-sort_by (IsReferrer parse site rows) external_leb (count_rows parse site rows ([], 0)).0
          (folded-IsReferrer parse site rows));
  few = unfold group_referers in length-take top_external_limit ordered;
  total = group_referers-total parse rows site n;
}
  where
    ordered : List ExternalReferer
    ordered = sort_by external_leb (count_rows parse site rows ([], 0)).0
