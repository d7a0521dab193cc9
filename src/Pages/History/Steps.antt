-- ===== src/Pages/History/Steps.antt =====
-- Creating and saving a page leave a forest, whatever fails.
use hotchkiss_io.Base.{
  All-map, Bool-cases, In, List, Option, Option-cases, [], ap, arith, inl, inr, none, refl, some,
  subst, suc, sym, true, ℕ, ◌++◌, ◌∙◌, ◌∷◌, ◌≡◌, ◌⊎◌,
}
use hotchkiss_io.Text.{Text, trim}
use hotchkiss_io.Pages.Rows.{
  ContentPages, Inserted, create, find_by_path, has_id, inserted, new_row, not_inserted, set_cover,
  unique_violation, update, written,
}
use hotchkiss_io.Pages.Write.{
  Faults, Library, Outcome, PageUpdate, cover_update, create_below, create_page, duplicate_slug,
  edited, finish_create, from_dao, internal, last, page_error, page_written, parent_name, parent_of,
  save, update_page, write_cover,
}
use hotchkiss_io.Pages.{ContentPageDao}
use hotchkiss_io.Pages.Rows.Effects.{
  IsInserted-IsTable, IsTable, create-IsInserted, node_of, nodes, update_rows-nodes,
}
use hotchkiss_io.Fallible.{Fallible, done, failed}
use hotchkiss_io.Pages.Write.Updated.{covered-nodes, find_by_path-In, nodes-IsTable, same_node}
use hotchkiss_io.Slug.{slug_new}
use hotchkiss_io.Pages.History.{table_of}
use hotchkiss_io.Pages.Write.Inserted.{update-rows}

In-append : {A : Type 0} (xs : List A) (x : A) → In x (xs ++ (x ∷ []))
In-append [] x = inl refl
In-append (y ∷ xs) x = inr (In-append xs x)

-- An update of a row that the table has, with its own place in the tree, leaves the forest.
update-IsTable :
    (t : ContentPages) (now : ℕ) (p q : ContentPageDao) (u : ContentPages) (saved : ContentPageDao)
    → IsTable t
    → In p t.rows
    → q.page_id ≡ p.page_id
    → q.parent_page_id ≡ p.parent_page_id
    → q.page_name ≡ p.page_name
    → update t now q ≡ done (u, saved)
    → IsTable u
update-IsTable t now p q u saved table there e_id e_parent e_name h =
    let (u_is, _) = update-rows t now q u saved h in
    nodes-IsTable t u table
      (ap nodes u_is
        ∙ update_rows-nodes q.page_id (written now q) t.rows (
            All-map _ _ (λ r alike y. stays r (alike (subst (λ z. has_id z r ≡ true) e_id y)))
              t.rows (same_node t.rows p table.distinct there)))
      (ap (λ z. z.last_id) u_is)
  where
    stays : (r : ContentPageDao) → node_of r ≡ node_of p → node_of (written now q r) ≡ node_of r
    stays r e = λ i. record (node_of r) {
      parent = (e_parent ∙ ap (λ n. n.parent) (sym e)) i;
      name = (e_name ∙ ap (λ n. n.name) (sym e)) i;
    }

finish_create-IsTable :
    (io : Faults) (now : ℕ) (segments : List Text) (title : Text) (gate : Option Text)
    (t : ContentPages) (p : ContentPageDao)
    → IsTable t
    → In p t.rows
    → IsTable (table_of (finish_create io now segments title gate t p))
unfolding finish_create
finish_create-IsTable io now segments title gate t p table there = elim (Bool-cases io.on_update) [
  | inl y ↦ rw y table
  | inr n ↦ rw n (go (update t now cp) refl)
]
  where
    cp : ContentPageDao
    cp = record p { page_title = some title; min_role = gate }

    go :
        (r : Fallible (ContentPages × ContentPageDao))
        → update t now cp ≡ r
        → IsTable (
            table_of (elim r as (λ x. Outcome) [
              | failed ↦ page_error t internal
              | done x ↦ page_written x.0 (from_dao now x.1 segments)
            ]))
    go failed e = table
    go (done (u, saved)) e = update-IsTable t now p cp u saved table there refl refl refl e

create_below-IsTable :
    (io : Faults) (now : ℕ) (path : List Text) (title slug : Text) (t : ContentPages)
    (parent : Option ℕ) (gate : Option Text)
    → IsTable t
    → IsTable (table_of (create_below io now path title slug t (parent, gate)))
unfolding create_below
create_below-IsTable io now path title slug t parent gate table = elim (Bool-cases io.on_create) [
  | inl y ↦ rw y table
  | inr n ↦ rw n (go (create t now parent slug none [] none) refl)
]
  where
    go :
        (r : Inserted)
        → create t now parent slug none [] none ≡ r
        → IsTable (
            table_of (elim r as (λ x. Outcome) [
              | unique_violation ↦ page_error t (duplicate_slug slug (parent_name path))
              | not_inserted ↦ page_error t internal
              | inserted u p ↦ finish_create io now (path ++ (slug ∷ [])) title gate u p
            ]))
    go unique_violation e = table
    go not_inserted e = table
    go (inserted u p) e =
        let i = create-IsInserted t now parent slug none [] none u p e in
        let row = new_row (suc t.last_id) now parent slug none [] none in
        finish_create-IsTable io now (path ++ (slug ∷ [])) title gate u p
          (IsInserted-IsTable t parent slug row u p table i refl refl refl)
          (subst (λ z. In p z.rows) (sym i.table_is)
            (subst (λ z. In z (t.rows ++ (row ∷ []))) (sym i.row_is) (In-append t.rows row)))

pub create_page-IsTable :
    (lib : Library) (io : Faults) (now : ℕ) (t : ContentPages) (path : List Text) (title : Text)
    → IsTable t
    → IsTable (table_of (create_page lib io now t path title))
create_page-IsTable lib io now t path title table =
    elim (Option-cases (slug_new lib.to_lowercase (trim title))) [
      | inl e ↦
          let answer : table_of (create_page lib io now t path title) ≡ t =
            unfold create_page in ground (arith, e) in
          subst IsTable (sym answer) table
      | inr (slug, e) ↦ elim (Option-cases (parent_of t.rows path)) [
        | inl k ↦
            let answer : table_of (create_page lib io now t path title) ≡ t =
              unfold create_page in ground (arith, e, k) in
            subst IsTable (sym answer) table
        | inr ((parent, gate), k) ↦
            let answer : (create_page lib io now t path title ≡ page_error t internal)
                ⊎ (create_page lib io now t path title
                    ≡ create_below io now path (trim title) slug t (parent, gate)) =
              unfold create_page in ground (arith, e, k) in
            elim answer [
              | inl a ↦ subst (λ z. IsTable (table_of z)) (sym a) table
              | inr a ↦
                  subst (λ z. IsTable (table_of z)) (sym a)
                    (create_below-IsTable io now path (trim title) slug t parent gate table)
            ]
      ]
    ]

write_cover-IsTable :
    (io : Faults) (now : ℕ) (path : List Text) (cover : Option (Option ℕ)) (t : ContentPages)
    (p : ContentPageDao)
    → IsTable t
    → IsTable (table_of (write_cover io now path cover t p))
unfolding write_cover
write_cover-IsTable io now path none t p table = table
write_cover-IsTable io now path (some media) t p table = elim (Bool-cases io.on_cover) [
  | inl y ↦ rw y table
  | inr n ↦
      let (e, k) = covered-nodes now p.page_id (some media) t in
      rw n (nodes-IsTable t (set_cover t now p.page_id media) table e k)
]

save-IsTable :
    (lib : Library) (io : Faults) (now : ℕ) (path : List Text) (input : PageUpdate)
    (t : ContentPages) (p : ContentPageDao)
    → IsTable t
    → In p t.rows
    → IsTable (table_of (save lib io now path input t p))
save-IsTable lib io now path input t p table there =
    rewritten (lib.rewrite_links input.markdown) refl
  where
    kept :
        save lib io now path input t p ≡ page_error t internal
        → IsTable (table_of (save lib io now path input t p))
    kept a = subst (λ z. IsTable (table_of z)) (sym a) table

    updated :
        (m : Text)
        → lib.rewrite_links input.markdown ≡ done m
        → (r : Fallible (ContentPages × ContentPageDao)) → update t now (edited lib input m p) ≡ r
        → IsTable (table_of (save lib io now path input t p))
    updated m k failed e = kept (unfold save in ground (arith, k, e))
    updated m k (done (u, saved)) e =
        let answer : (save lib io now path input t p ≡ page_error t internal)
            ⊎ (save lib io now path input t p
                ≡ write_cover io now path (cover_update lib input) u saved) =
          unfold save in ground (arith, k, e) in
        elim answer [
          | inl a ↦ kept a
          | inr a ↦
              subst (λ z. IsTable (table_of z)) (sym a)
                (write_cover-IsTable io now path (cover_update lib input) u saved (
                  update-IsTable t now p (edited lib input m p) u saved table there
                    (unfold edited in refl) (unfold edited in refl) (unfold edited in refl) e))
        ]

    rewritten :
        (r : Fallible Text)
        → lib.rewrite_links input.markdown ≡ r
        → IsTable (table_of (save lib io now path input t p))
    rewritten failed k = kept (unfold save in ground (arith, k))
    rewritten (done m) k = updated m k (update t now (edited lib input m p)) refl

pub update_page-IsTable :
    (lib : Library) (io : Faults) (now : ℕ) (t : ContentPages) (path : List Text)
    (input : PageUpdate)
    → IsTable t
    → IsTable (table_of (update_page lib io now t path input))
update_page-IsTable lib io now t path input table =
    elim (Option-cases (last (find_by_path t.rows path))) [
      | inl e ↦
          let answer : table_of (update_page lib io now t path input) ≡ t =
            unfold update_page in ground (arith, e) in
          subst IsTable (sym answer) table
      | inr (p, e) ↦
          let answer : (update_page lib io now t path input ≡ page_error t internal)
              ⊎ (update_page lib io now t path input ≡ save lib io now path input t p) =
            unfold update_page in ground (arith, e) in
          elim answer [
            | inl a ↦ subst (λ z. IsTable (table_of z)) (sym a) table
            | inr a ↦
                subst (λ z. IsTable (table_of z)) (sym a)
                  (save-IsTable lib io now path input t p table (find_by_path-In t.rows path p e))
          ]
    ]
