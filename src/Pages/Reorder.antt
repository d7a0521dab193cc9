-- ===== src/Pages/Reorder.antt =====
-- src/web/features/admin/pages.rs: reordering, pinning, publishing and unpublishing pages.
pub mod Effects
use hotchkiss_io.Base.{
  Bool, List, Option, [], any, false, if◌then◌else◌, map, none, some, true, ℕ, ◌%◌, ◌+◌, ◌==◌,
  ◌>>=◌, ◌^◌, ◌∷◌,
}
use hotchkiss_io.Category
use hotchkiss_io.Pages.Rows.{
  ContentPages, find_by_id, find_by_parent, set_category, set_creation_date, set_order,
}
use hotchkiss_io.Pages.{ContentPageDao}
use hotchkiss_io.Category.{toggle_featured}

-- The loop of a reordering, in a transaction: `none` rolls it back.
unfoldable pub set_orders : List ℕ → ℕ → List ℕ → ContentPages → Option ContentPages
unfolding set_order
set_orders allowed order [] t = some t
set_orders allowed order (i ∷ ids) t =
    let rest = set_orders allowed ((order + 1) % 2 ^ 64) ids (set_order t i order) in
    if any (λ a. a == i) allowed then rest else none

abbrev page_ids : List ContentPageDao → List ℕ
page_ids rows = map (λ p. p.page_id) rows

-- The table after the handler, and whether it answered 200.
abbrev pub committed : ContentPages → Option ContentPages → ContentPages × Bool
committed t none = (t, false)
committed t (some u) = (u, true)

unfoldable pub reorder_pages : ContentPages → List ℕ → ContentPages × Bool
unfolding set_orders find_by_parent
reorder_pages t ids = committed t (set_orders (page_ids (find_by_parent t.rows none)) 0 ids t)

unfoldable pub reorder_children : ContentPages → ℕ → ℕ → List ℕ → ContentPages × Bool
unfolding set_orders find_by_parent
reorder_children t parent_id start ids =
    committed t (set_orders (page_ids (find_by_parent t.rows (some parent_id))) start ids t)

-- The table after the handler; `none` is its 404.
unfoldable pub toggle_feature : ContentPages → ℕ → Option ContentPages
unfolding find_by_id toggle_featured set_category
toggle_feature t i = do
  page ← find_by_id t.rows i
  some (set_category t i (toggle_featured page.page_category))

unfoldable pub publish_now : ContentPages → ℕ → ℕ → Option ContentPages
unfolding find_by_id set_creation_date
publish_now t now i = do page ← find_by_id t.rows i; some (set_creation_date t now i now)

-- `2999-01-01T00:00:00Z` is a parameter: instants are counted from a time of the reader's choice.
unfoldable pub unpublish : ℕ → ContentPages → ℕ → ℕ → Option ContentPages
unfolding find_by_id set_creation_date
unpublish draft_sentinel t now i = do
  page ← find_by_id t.rows i
  some (set_creation_date t now i draft_sentinel)
