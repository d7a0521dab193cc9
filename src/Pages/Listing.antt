-- ===== src/Pages/Listing.antt =====
-- src/web/features/listing.rs, with the three queries of src/db/dao/content_pages.rs that it pages
-- through. SQLite's `LIKE '%…%'` and its order of the stored dates, which are text, are parameters.
pub mod Order
pub mod Windows
use Prim.Native.Nat.{max}
use hotchkiss_io.Base.{
  Bool, List, Option, [], any, false, filter, if◌then◌else◌, leb, length, ltb, none, not, some,
  sort_by, suc, take, zero, ℕ, ◌&&◌, ◌*◌, ◌++◌, ◌+◌, ◌-◌, ◌/◌, ◌||◌, ◌∷◌,
}
use hotchkiss_io.Text.{Text, codes, is_ascii_digit, is_empty, join, trim}
use hotchkiss_io.Pages.{ContentPageDao, sql_visible}
use hotchkiss_io.Urlencode
use hotchkiss_io.Urlencode.{urlencode}
use hotchkiss_io.Roles.{Role}
use hotchkiss_io.Int64.{i64_lt}
use hotchkiss_io.Text.Decimal.{print}
use hotchkiss_io.Pages.Rows.{is_child_of}

pub record Collation : Type 0 where
  pub like : Text → Text → Bool
  pub date_leb : ℕ → ℕ → Bool

unfoldable pub is_ascii_hexdigit : ℕ → Bool
unfolding is_ascii_digit
is_ascii_hexdigit c = is_ascii_digit c || ((leb b'a' c && leb c b'f') || (leb b'A' c && leb c b'F'))

abbrev like_title : Collation → Option Text → Text → Bool
like_title sql none search = false
like_title sql (some t) search = sql.like t search

-- The WHERE clause that the three queries share.
unfoldable pub listed : Collation → ℕ → Option ℕ → Text → Role → ContentPageDao → Bool
unfolding is_ascii_hexdigit sql_visible
listed sql now parent search viewer p =
    let search_body = any (λ c. not (is_ascii_hexdigit c)) search in
    is_child_of parent p
    && ((is_empty search
          || (like_title sql p.page_title search
              || ((search_body && sql.like p.page_markdown search) || sql.like p.page_name search)))
        && sql_visible now p viewer)

unfoldable pub count_children : Collation → List ContentPageDao → ℕ → Option ℕ → Text → Role → ℕ
unfolding listed
count_children sql rows now parent search viewer =
    length (filter (listed sql now parent search viewer) rows)

unfoldable pub drop : {A : Type 0} → ℕ → List A → List A
drop zero xs = xs
drop (suc n) [] = []
drop (suc n) (x ∷ xs) = drop n xs

-- LIMIT and OFFSET of the rows in an order.
abbrev pub window : {A : Type 0} → ℕ → ℕ → List A → List A
window limit offset xs = take limit (drop offset xs)

-- `page_creation_date DESC, page_id DESC`
abbrev pub newest_leb : Collation → ContentPageDao → ContentPageDao → Bool
newest_leb sql p q =
    not (sql.date_leb p.page_creation_date q.page_creation_date)
    || (sql.date_leb q.page_creation_date p.page_creation_date && leb q.page_id p.page_id)

unfoldable pub find_children_newest_paged :
    Collation → List ContentPageDao → ℕ → Option ℕ → Text → ℕ → ℕ → Role → List ContentPageDao
unfolding listed sort_by drop
find_children_newest_paged sql rows now parent search limit offset viewer =
    window limit offset
      (sort_by (newest_leb sql) (filter (listed sql now parent search viewer) rows))

-- `page_order, page_id`
abbrev pub manual_leb : ContentPageDao → ContentPageDao → Bool
manual_leb p q =
    i64_lt p.page_order q.page_order
    || (not (i64_lt q.page_order p.page_order) && leb p.page_id q.page_id)

unfoldable pub find_children_ordered_paged :
    Collation → List ContentPageDao → ℕ → Option ℕ → Text → ℕ → ℕ → Role → List ContentPageDao
unfolding listed sort_by drop
find_children_ordered_paged sql rows now parent search limit offset viewer =
    window limit offset (sort_by manual_leb (filter (listed sql now parent search viewer) rows))

abbrev pub page_size : ℕ
page_size = 10

pub data ListOrder : Type 0 where
  newest ordered : ListOrder

pub record ListingQuery : Type 0 where
  pub q : Option Text
  pub page : Option ℕ

pub record Pagination : Type 0 where
  pub current_page : ℕ
  pub total_pages : ℕ
  pub total_results : ℕ
  pub search : Text
  pub base_path : Text

unfoldable pub has_prev : Pagination → Bool
has_prev p = ltb 1 p.current_page

unfoldable pub has_next : Pagination → Bool
has_next p = ltb p.current_page p.total_pages

unfoldable pub page_url : Pagination → ℕ → Text
unfolding urlencode print join
page_url p page =
    let q_part = if is_empty p.search then [] else (codes "q=" ++ urlencode p.search) ∷ [] in
    let page_part = if ltb 1 page then (codes "page=" ++ print page) ∷ [] else [] in
    let parts = q_part ++ page_part in
    elim parts [
      | [] ↦ p.base_path
      | ◌∷◌ t ts ↦ p.base_path ++ (codes "?" ++ join (codes "&") (t ∷ ts))
    ]

-- `Ord::clamp` from 1, on `i64`.
abbrev pub clamp_page : ℕ → ℕ → ℕ
clamp_page page total = if i64_lt page 1 then 1 else if i64_lt total page then total else page

abbrev pub page_or_one : Option ℕ → ℕ
page_or_one none = 1
page_or_one (some page) = page

abbrev query_text : Option Text → Text
query_text none = []
query_text (some q) = q

unfoldable pub pages_of : ℕ → ℕ
pages_of total = max ((total + page_size - 1) / page_size) 1

unfoldable pub pagination :
    Collation → List ContentPageDao → ℕ → Option ℕ → ListingQuery → Text → Role → Pagination
unfolding trim count_children pages_of
pagination sql rows now parent query base_path viewer =
    let search = trim (query_text query.q) in
    let total = count_children sql rows now parent search viewer in
    record {
      current_page = clamp_page (page_or_one query.page) (pages_of total);
      total_pages = pages_of total;
      total_results = total;
      search = search;
      base_path = base_path;
    }

abbrev fetch :
    Collation
    → List ContentPageDao
    → ℕ
    → Option ℕ
    → ListOrder
    → Text
    → ℕ
    → ℕ
    → Role
    → List ContentPageDao
fetch sql rows now parent newest search limit offset viewer =
    find_children_newest_paged sql rows now parent search limit offset viewer
fetch sql rows now parent ordered search limit offset viewer =
    find_children_ordered_paged sql rows now parent search limit offset viewer

unfoldable pub paginate :
    Collation
    → List ContentPageDao
    → ℕ
    → Option ℕ
    → ListingQuery
    → ListOrder
    → Text
    → Role
    → List ContentPageDao × Pagination
unfolding find_children_newest_paged find_children_ordered_paged pagination
paginate sql rows now parent query order base_path viewer =
    let p = pagination sql rows now parent query base_path viewer in
    (
      fetch sql rows now parent order p.search page_size ((p.current_page - 1) * page_size) viewer,
      p,
    )
