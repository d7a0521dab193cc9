-- ===== src/Pages/Listing/Windows.antt =====
-- The windows of a listing.
use mathlib.Core.List.{Perm}
use hotchkiss_io.Base.{
  List, Option, [], ap, arith, filter, length, length-filter-le, refl, sort_by, suc, sym, take,
  zero, ℕ, ◌*◌, ◌++◌, ◌+◌, ◌-◌, ◌<◌, ◌^◌, ◌∙◌, ◌∷◌, ◌≡◌, ◌≤◌,
}
use hotchkiss_io.Pages.Listing.{
  Collation, ListOrder, ListingQuery, Pagination, clamp_page, count_children, drop,
  find_children_newest_paged, find_children_ordered_paged, listed, manual_leb, newest, newest_leb,
  ordered, page_or_one, page_size, pages_of, paginate, pagination, query_text, window,
}
use hotchkiss_io.Pages.{ContentPageDao}
use hotchkiss_io.Text.{Text, trim}
use hotchkiss_io.Roles.{Role}
use hotchkiss_io.Sorting.{length-sort_by}
use hotchkiss_io.Pages.Listing.Order.{
  IsDateOrder, IsInOrder, children_in_order, children_in_order-IsInOrder, children_in_order-perm,
}

-- The pages from 1 to `n` of a list, one behind the other.
unfoldable pub pages_up_to : {A : Type 0} → ℕ → List A → List A
unfolding drop
pages_up_to zero xs = []
pages_up_to (suc n) xs = pages_up_to n xs ++ window page_size (n * page_size) xs

take-drop_add :
    {A : Type 0} (a b : ℕ) (xs : List A) → take a xs ++ take b (drop a xs) ≡ take (a + b) xs
unfolding drop
take-drop_add zero b xs = let count : b ≡ 0 + b = omega arith in ap (λ n. take n xs) count
take-drop_add (suc a) b [] = take_nil b ∙ sym (take_nil (suc a + b))
  where
    take_nil : {A : Type 0} (n : ℕ) → take {A = A} n [] ≡ []
    take_nil zero = refl
    take_nil (suc n) = refl
take-drop_add (suc a) b (x ∷ xs) =
    let count : suc (a + b) ≡ suc a + b = omega arith in
    ap (◌∷◌ x) (take-drop_add a b xs) ∙ ap (λ n. take n (x ∷ xs)) count

pages_up_to-take : {A : Type 0} (n : ℕ) (xs : List A) → pages_up_to n xs ≡ take (n * page_size) xs
unfolding pages_up_to
pages_up_to-take zero xs =
    let none_yet : 0 ≡ 0 * page_size = omega arith in ap (λ n. take n xs) none_yet
pages_up_to-take (suc n) xs =
    let count : n * page_size + page_size ≡ suc n * page_size = omega arith in
    ap (λ z. z ++ window page_size (n * page_size) xs) (pages_up_to-take n xs)
    ∙ (take-drop_add (n * page_size) page_size xs ∙ ap (λ m. take m xs) count)

take_of_le : {A : Type 0} (n : ℕ) (xs : List A) → length xs ≤ n → take n xs ≡ xs
take_of_le zero [] h = refl
take_of_le zero (x ∷ xs) h = absurd (omega arith)
take_of_le (suc n) [] h = refl
take_of_le (suc n) (x ∷ xs) h = ap (◌∷◌ x) (take_of_le n xs (omega arith))

pages_of-enough : (n : ℕ) → (n ≤ pages_of n * page_size) × (1 ≤ pages_of n)
unfolding pages_of
pages_of-enough n = (omega arith, omega arith)

-- The window of a listing: the shown page is in range, its items are that page of the whole list,
-- the total counts the whole list, and the pages together are the whole list.
pub record IsWindow (whole : List ContentPageDao) (items : List ContentPageDao) (p : Pagination)
    : Type 0 where
  pub clamped : (1 ≤ p.current_page) × (p.current_page ≤ p.total_pages)
  pub items_are : items ≡ window page_size ((p.current_page - 1) * page_size) whole
  pub counted : p.total_results ≡ length whole
  pub covered : pages_up_to p.total_pages whole ≡ whole

clamp_page-bounds :
    (page total : ℕ)
    → page < 2 ^ 64
    → 1 ≤ total
    → total < 2 ^ 63
    → (1 ≤ clamp_page page total) × (clamp_page page total ≤ total)
clamp_page-bounds page total h one small = ground arith

window-IsWindow :
    (whole : List ContentPageDao) (page : Option ℕ) (needle base_path : Text) (total : ℕ)
    → length whole < 2 ^ 62
    → page_or_one page < 2 ^ 64
    → total ≡ length whole
    → IsWindow whole
        (window page_size ((clamp_page (page_or_one page) (pages_of total) - 1) * page_size) whole)
        (record {
          current_page = clamp_page (page_or_one page) (pages_of total);
          total_pages = pages_of total;
          total_results = total;
          search = needle;
          base_path = base_path;
        })
window-IsWindow whole page needle base_path total small page_small e = record {
  clamped =
      clamp_page-bounds (page_or_one page) (pages_of total) page_small (pages_of-enough total).1
        (unfold pages_of in omega arith);
  items_are = refl;
  counted = e;
  covered =
      pages_up_to-take (pages_of total) whole
      ∙ take_of_le (pages_of total * page_size) whole (omega (arith, pages_of-enough total));
}

-- An answer of `paginate` is one window of a list of all visible children in their order.
pub record IsListing (sql : Collation) (rows : List ContentPageDao) (now : ℕ) (parent : Option ℕ)
    (viewer : Role) (order : ListOrder) (search : Text) (answer : List ContentPageDao × Pagination)
    : Type 0 where
  pub visible :
      Perm
        (children_in_order sql rows now parent search viewer order)
        (filter (listed sql now parent search viewer) rows)
  pub in_order : IsInOrder sql order (children_in_order sql rows now parent search viewer order)
  pub windows :
      IsWindow (children_in_order sql rows now parent search viewer order) answer.0 answer.1

paginate-IsWindow :
    (sql : Collation) (rows : List ContentPageDao) (now : ℕ) (parent : Option ℕ)
    (query : ListingQuery) (order : ListOrder) (base_path : Text) (viewer : Role)
    → length rows < 2 ^ 62
    → page_or_one query.page < 2 ^ 64
    → IsWindow
        (children_in_order sql rows now parent (trim (query_text query.q)) viewer order)
        (paginate sql rows now parent query order base_path viewer).0
        (paginate sql rows now parent query order base_path viewer).1
unfolding paginate pagination count_children find_children_newest_paged find_children_ordered_paged
    children_in_order
paginate-IsWindow sql rows now parent query newest base_path viewer small page_small =
    let needle = trim (query_text query.q) in
    let kept = filter (listed sql now parent needle viewer) rows in
    window-IsWindow (sort_by (newest_leb sql) kept) query.page needle base_path (length kept)
      (omega (
        arith,
        length-filter-le (listed sql now parent needle viewer) rows,
        length-sort_by (newest_leb sql) kept,
      ))
      page_small (sym (length-sort_by (newest_leb sql) kept))
paginate-IsWindow sql rows now parent query ordered base_path viewer small page_small =
    let needle = trim (query_text query.q) in
    let kept = filter (listed sql now parent needle viewer) rows in
    window-IsWindow (sort_by manual_leb kept) query.page needle base_path (length kept)
      (omega (
        arith,
        length-filter-le (listed sql now parent needle viewer) rows,
        length-sort_by manual_leb kept,
      ))
      page_small (sym (length-sort_by manual_leb kept))

-- The items of a listing are one window of one list, the same for every page: all visible children,
-- the newest first, or by their manual order. The windows cover it, and the numbers under the items
-- describe it, whatever page was asked for.
pub paginate-IsListing :
    (sql : Collation) (rows : List ContentPageDao) (now : ℕ) (parent : Option ℕ)
    (query : ListingQuery) (order : ListOrder) (base_path : Text) (viewer : Role)
    → IsDateOrder sql
    → length rows < 2 ^ 62
    → page_or_one query.page < 2 ^ 64
    → IsListing sql rows now parent viewer order
        (trim (query_text query.q))
        (paginate sql rows now parent query order base_path viewer)
paginate-IsListing sql rows now parent query order base_path viewer dates small page_small =
    let needle = trim (query_text query.q) in
    record {
      visible = children_in_order-perm sql rows now parent needle viewer order;
      in_order = children_in_order-IsInOrder sql rows now parent needle viewer order dates;
      windows = paginate-IsWindow sql rows now parent query order base_path viewer small page_small;
    }
