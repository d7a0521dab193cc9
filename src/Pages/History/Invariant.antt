-- ===== src/Pages/History/Invariant.antt =====
-- Every history of the handlers leaves a forest.
use hotchkiss_io.Base.{
  All-of_pointwise, Bool-cases, List, Option, Option-cases, [], ap, arith, inl, inr, map, none,
  refl, some, subst, sym, ℕ, ◌==◌, ◌∙◌, ◌∷◌, ◌≡◌,
}
use hotchkiss_io.Text.{Text, same, split}
use hotchkiss_io.Pages.Rows.{
  ContentPages, delete, find_by_id, find_by_path, set_category, set_creation_date, update_rows,
}
use hotchkiss_io.Pages.Write.{last}
use hotchkiss_io.Pages.Reorder.{
  committed, publish_now, reorder_children, reorder_pages, set_orders, toggle_feature, unpublish,
}
use hotchkiss_io.Pages.Handlers.{delete_page_path, no_such_page, special_refused}
use hotchkiss_io.Pages.{ContentPageDao}
use hotchkiss_io.Pages.Rows.Effects.{IsTable, node_of, update_rows-nodes}
use hotchkiss_io.Pages.Write.Updated.{nodes-IsTable}
use hotchkiss_io.Pages.Rows.Deletion.{delete-IsTable}
use hotchkiss_io.Category.{toggle_featured}
use hotchkiss_io.Pages.Reorder.Effects.{set_orders-nodes}
use hotchkiss_io.Pages.History.{
  PageEvent, after_deletion, after_event, after_events, creates, deletes, or_same, publishes,
  reorders, reorders_below, saves, toggles, unpublishes,
}
use hotchkiss_io.Pages.History.Steps.{create_page-IsTable, update_page-IsTable}

delete_page_path-IsTable :
    (t : ContentPages) (path : Text)
    → IsTable t
    → IsTable (after_deletion t (delete_page_path t path))
delete_page_path-IsTable t path table =
    elim (Option-cases (last (find_by_path t.rows (split (λ c. c == b'/') path)))) [
      | inl e ↦
          let answer : delete_page_path t path ≡ no_such_page =
            unfold delete_page_path in ground (arith, e) in
          subst (λ z. IsTable (after_deletion t z)) (sym answer) table
      | inr (leaf, e) ↦ elim (Bool-cases leaf.special_page) [
        | inl y ↦
            let answer : delete_page_path t path ≡ special_refused =
              unfold delete_page_path in ground (arith, e, y) in
            subst (λ z. IsTable (after_deletion t z)) (sym answer) table
        | inr n ↦
            let answer : after_deletion t (delete_page_path t path) ≡ delete t leaf =
              unfold delete_page_path in ground (arith, e, n) in
            subst IsTable (sym answer) (delete-IsTable t leaf table)
      ]
    ]

committed-IsTable :
    (t : ContentPages) (allowed ids : List ℕ) (start : ℕ)
    → IsTable t
    → IsTable (committed t (set_orders allowed start ids t)).0
committed-IsTable t allowed ids start table = go (set_orders allowed start ids t) refl
  where
    go : (r : Option ContentPages) → set_orders allowed start ids t ≡ r → IsTable (committed t r).0
    go none e = table
    go (some u) e =
        let (same, last_same, _) = set_orders-nodes allowed ids start t u e in
        nodes-IsTable t u table same last_same

rows-IsTable :
    (t u : ContentPages) (i : ℕ) (f : ContentPageDao → ContentPageDao)
    → IsTable t
    → ((r : ContentPageDao) → node_of (f r) ≡ node_of r)
    → u.rows ≡ update_rows i f t.rows
    → u.last_id ≡ t.last_id
    → IsTable u
rows-IsTable t u i f table h e k =
    nodes-IsTable t u table
      (ap (map node_of) e ∙ update_rows-nodes i f t.rows (All-of_pointwise _ (λ r y. h r) t.rows)) k

set_category-IsTable :
    (t : ContentPages) (i : ℕ) (category : Option Text)
    → IsTable t
    → IsTable (set_category t i category)
unfolding set_category
set_category-IsTable t i category table =
    rows-IsTable t (set_category t i category) i _ table (λ r. refl) refl refl

set_creation_date-IsTable :
    (t : ContentPages) (now date i : ℕ) → IsTable t → IsTable (set_creation_date t now i date)
unfolding set_creation_date
set_creation_date-IsTable t now date i table =
    rows-IsTable t (set_creation_date t now i date) i _ table (λ r. refl) refl refl

after_event-IsTable : (t : ContentPages) (e : PageEvent) → IsTable t → IsTable (after_event t e)
unfolding after_event
after_event-IsTable t (creates lib io now path title) table =
    create_page-IsTable lib io now t path title table
after_event-IsTable t (saves lib io now path input) table =
    update_page-IsTable lib io now t path input table
after_event-IsTable t (deletes path) table = delete_page_path-IsTable t path table
after_event-IsTable t (reorders ids) table =
    unfold reorder_pages in committed-IsTable t _ ids 0 table
after_event-IsTable t (reorders_below parent start ids) table =
    unfold reorder_children in committed-IsTable t _ ids start table
after_event-IsTable t (toggles i now) table = elim (Option-cases (find_by_id t.rows i)) [
  | inl e ↦
      let answer : or_same t (toggle_feature t i) ≡ t =
        unfold toggle_feature in ground (arith, e) in
      subst IsTable (sym answer) table
  | inr (p, e) ↦
      let answer : or_same t (toggle_feature t i)
          ≡ set_category t i (toggle_featured p.page_category) =
        unfold toggle_feature in ground (arith, e) in
      subst IsTable (sym answer) (set_category-IsTable t i (toggle_featured p.page_category) table)
]
after_event-IsTable t (publishes i now) table = elim (Option-cases (find_by_id t.rows i)) [
  | inl e ↦
      let answer : or_same t (publish_now t now i) ≡ t = unfold publish_now in ground (arith, e) in
      subst IsTable (sym answer) table
  | inr (p, e) ↦
      let answer : or_same t (publish_now t now i) ≡ set_creation_date t now i now =
        unfold publish_now in ground (arith, e) in
      subst IsTable (sym answer) (set_creation_date-IsTable t now now i table)
]
after_event-IsTable t (unpublishes i now) table = elim (Option-cases (find_by_id t.rows i)) [
  | inl e ↦
      let answer : or_same t (unpublish now t now i) ≡ t = unfold unpublish in ground (arith, e) in
      subst IsTable (sym answer) table
  | inr (p, e) ↦
      let answer : or_same t (unpublish now t now i) ≡ set_creation_date t now i now =
        unfold unpublish in ground (arith, e) in
      subst IsTable (sym answer) (set_creation_date-IsTable t now now i table)
]

-- Whatever the handlers of pages do, in any order and with any of their queries failing, the pages
-- stay a forest: distinct ids, parents that exist and are older, and no two children of one page with
-- one name.
pub after_events-IsTable :
    (t : ContentPages) (es : List PageEvent) → IsTable t → IsTable (after_events t es)
unfolding after_events
after_events-IsTable t [] table = table
after_events-IsTable t (e ∷ es) table =
    after_events-IsTable (after_event t e) es (after_event-IsTable t e table)
