-- ===== src/Pages/Listing/Order.antt =====
-- The order of a listing.
use mathlib.Core.List.{Perm}
use hotchkiss_io.Base.{
  All, All-map, Bool, List, Option, [], arith, false, filter, sort_by, true, ℕ, ◌<◌, ◌∷◌, ◌≡◌, ◌≤◌,
  ◌⊎◌,
}
use hotchkiss_io.Pages.Listing.{
  Collation, ListOrder, listed, manual_leb, newest, newest_leb, ordered,
}
use hotchkiss_io.Pages.{ContentPageDao}
use hotchkiss_io.Sorting.{IsAscending, sort_by-IsAscending, sort_by-perm}
use hotchkiss_io.Text.{Text}
use hotchkiss_io.Int64.{biased}
use hotchkiss_io.Roles.{Role}

-- The whole of a listing, whatever page of it is asked for.
unfoldable pub children_in_order :
    Collation → List ContentPageDao → ℕ → Option ℕ → Text → Role → ListOrder → List ContentPageDao
children_in_order sql rows now parent search viewer newest =
    sort_by (newest_leb sql) (filter (listed sql now parent search viewer) rows)
children_in_order sql rows now parent search viewer ordered =
    sort_by manual_leb (filter (listed sql now parent search viewer) rows)

-- Which of two pages comes first: the newer one, or the one with the smaller number of the manual
-- order, read as a signed one; then the larger id, or the smaller one.
abbrev pub IsBefore : Collation → ListOrder → ContentPageDao → ContentPageDao → Type 0
IsBefore sql newest p q =
    (sql.date_leb p.page_creation_date q.page_creation_date ≡ false)
    ⊎ ((sql.date_leb q.page_creation_date p.page_creation_date ≡ true) × (q.page_id ≤ p.page_id))
IsBefore sql ordered p q =
    (biased p.page_order < biased q.page_order)
    ⊎ ((biased p.page_order ≡ biased q.page_order) × (p.page_id ≤ q.page_id))

abbrev pub IsInOrder : Collation → ListOrder → List ContentPageDao → Type 0
IsInOrder sql order [] = Unit
IsInOrder sql order (p ∷ ps) = All (IsBefore sql order p) ps × IsInOrder sql order ps

-- What SQLite says of its order of dates.
pub record IsDateOrder (sql : Collation) : Type 0 where
  pub total : (a b : ℕ) → sql.date_leb a b ≡ false → sql.date_leb b a ≡ true
  pub trans :
      (a b c : ℕ) → sql.date_leb a b ≡ true → sql.date_leb b c ≡ true → sql.date_leb a c ≡ true

ascending-IsInOrder :
    (sql : Collation) (order : ListOrder) (le : ContentPageDao → ContentPageDao → Bool)
    → ((p q : ContentPageDao) → le p q ≡ true → IsBefore sql order p q)
    → (ps : List ContentPageDao) → IsAscending le ps
    → IsInOrder sql order ps
ascending-IsInOrder sql order le means [] h = tt
ascending-IsInOrder sql order le means (p ∷ ps) (below, h) =
    (All-map _ _ (means p) ps below, ascending-IsInOrder sql order le means ps h)

manual_leb_total : (p q : ContentPageDao) → manual_leb p q ≡ false → manual_leb q p ≡ true
manual_leb_total p q h = ground arith

manual_leb_trans :
    (p q r : ContentPageDao) → manual_leb p q ≡ true → manual_leb q r ≡ true → manual_leb p r ≡ true
manual_leb_trans p q r h k = ground arith

manual_leb-IsBefore :
    (sql : Collation) (p q : ContentPageDao) → manual_leb p q ≡ true → IsBefore sql ordered p q
manual_leb-IsBefore sql p q h = ground arith

module _ (sql : Collation) (dates : IsDateOrder sql) where
  newest_leb_total : (p q : ContentPageDao) → newest_leb sql p q ≡ false → newest_leb sql q p ≡ true
  newest_leb_total p q h = ground (arith, dates.total p.page_creation_date q.page_creation_date)

  newest_leb_trans :
      (p q r : ContentPageDao)
      → newest_leb sql p q ≡ true
      → newest_leb sql q r ≡ true
      → newest_leb sql p r ≡ true
  newest_leb_trans p q r h k =
      let a = p.page_creation_date in
      let b = q.page_creation_date in
      let c = r.page_creation_date in
      ground (
        arith,
        dates.total a b,
        dates.total b c,
        dates.total a c,
        dates.trans a b c,
        dates.trans c b a,
        dates.trans b a c,
        dates.trans b c a,
        dates.trans a c b,
        dates.trans c a b,
      )

newest_leb-IsBefore :
    (sql : Collation) (p q : ContentPageDao) → newest_leb sql p q ≡ true → IsBefore sql newest p q
newest_leb-IsBefore sql p q h = ground arith

pub children_in_order-IsInOrder :
    (sql : Collation) (rows : List ContentPageDao) (now : ℕ) (parent : Option ℕ) (search : Text)
    (viewer : Role) (order : ListOrder)
    → IsDateOrder sql
    → IsInOrder sql order (children_in_order sql rows now parent search viewer order)
unfolding children_in_order
children_in_order-IsInOrder sql rows now parent search viewer newest dates =
    ascending-IsInOrder sql newest (newest_leb sql) (newest_leb-IsBefore sql) _ (
      sort_by-IsAscending (newest_leb sql) (newest_leb_total sql dates) (newest_leb_trans sql dates)
        (filter (listed sql now parent search viewer) rows))
children_in_order-IsInOrder sql rows now parent search viewer ordered dates =
    ascending-IsInOrder sql ordered manual_leb (manual_leb-IsBefore sql) _ (
      sort_by-IsAscending manual_leb manual_leb_total manual_leb_trans
        (filter (listed sql now parent search viewer) rows))

pub children_in_order-perm :
    (sql : Collation) (rows : List ContentPageDao) (now : ℕ) (parent : Option ℕ) (search : Text)
    (viewer : Role) (order : ListOrder)
    → Perm
        (children_in_order sql rows now parent search viewer order)
        (filter (listed sql now parent search viewer) rows)
unfolding children_in_order
children_in_order-perm sql rows now parent search viewer newest = sort_by-perm (newest_leb sql) _
children_in_order-perm sql rows now parent search viewer ordered = sort_by-perm manual_leb _
