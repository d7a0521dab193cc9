-- ===== src/Pages/Write/Inserted.antt =====
-- What creating a page does.
use hotchkiss_io.Base.{
  All, List, Option, Option-cases, [], any, ap, arith, false, inl, inr, map, none, refl, some, suc,
  true, ℕ, ◌++◌, ◌∙◌, ◌∷◌, ◌≡◌, ◌≤◌,
}
use hotchkiss_io.Text.{Text, trim}
use hotchkiss_io.Pages.{ContentPageDao}
use hotchkiss_io.Pages.Rows.{
  ContentPages, Inserted, collides, create, has_id, inserted, new_row, not_inserted, parent_exists,
  stamp, unique_violation, update, update_rows, written,
}
use hotchkiss_io.Pages.Rows.Effects.{IsTable, create-IsInserted, node_of}
use hotchkiss_io.Pages.Write.{
  Faults, Library, WrittenPage, create_below, create_page, finish_create, from_dao, page_written,
  parent_of,
}
use hotchkiss_io.Fallible.{Fallible, done, failed}
use hotchkiss_io.Slug.{slug_new}

-- The row of a page that was created: empty, with its title, and with the gate of its parent.
abbrev pub created_row : ℕ → ℕ → Option ℕ → Text → Text → Option Text → ContentPageDao
created_row i now parent slug title gate = record (new_row i now parent slug none [] none) {
  page_title = some title;
  min_role = gate;
}

update_rows_of_new :
    (f : ContentPageDao → ContentPageDao) (last_id : ℕ) (rows : List ContentPageDao)
    (p : ContentPageDao)
    → All (λ n. n.id ≤ last_id) (map node_of rows)
    → p.page_id ≡ suc last_id
    → update_rows p.page_id f (rows ++ (p ∷ [])) ≡ rows ++ (f p ∷ [])
unfolding update_rows
update_rows_of_new f last_id [] p h e =
    let own : has_id p.page_id p ≡ true = ground arith in rw own refl
update_rows_of_new f last_id (r ∷ rows) p (hr, h) e =
    let other : has_id p.page_id r ≡ false = ground (arith, hr, e) in
    rw (other, update_rows_of_new f last_id rows p h e) refl

-- A creation that succeeds has added one row and nothing else.
pub record IsCreated (t : ContentPages) (now : ℕ) (parent : Option ℕ) (slug title : Text)
    (gate : Option Text) (u : ContentPages) : Type 0 where
  pub rows_are : u.rows ≡ t.rows ++ (created_row (suc t.last_id) now parent slug title gate ∷ [])
  pub last_is : u.last_id ≡ suc t.last_id
  pub no_collision : any (collides parent slug) t.rows ≡ false
  pub parent_there : parent_exists t.rows parent ≡ true

-- What an `update` that succeeds has done.
pub update-rows :
    (t : ContentPages) (now : ℕ) (p : ContentPageDao) (u : ContentPages) (saved : ContentPageDao)
    → update t now p ≡ done (u, saved)
    → (u ≡ record t { rows = update_rows p.page_id (written now p) t.rows })
      × (saved ≡ record p { page_modified_date = stamp now })
unfolding update
update-rows t now p u saved h = (ground arith, ground arith)

finish_create-rows :
    (io : Faults) (now : ℕ) (segments : List Text) (title : Text) (gate : Option Text)
    (t u : ContentPages) (p : ContentPageDao) (w : WrittenPage)
    → finish_create io now segments title gate t p ≡ page_written u w
    → (u ≡ record t {
      rows =
          update_rows p.page_id
            (written now (record p { page_title = some title; min_role = gate }))
            t.rows;
    })
      × (w.path_segments ≡ segments)
unfolding finish_create from_dao
finish_create-rows io now segments title gate t u p w h =
    go (update t now (record p { page_title = some title; min_role = gate })) refl
  where
    go :
        (r : Fallible (ContentPages × ContentPageDao))
        → update t now (record p { page_title = some title; min_role = gate }) ≡ r
        → (u ≡ record t {
          rows =
              update_rows p.page_id
                (written now (record p { page_title = some title; min_role = gate }))
                t.rows;
        })
          × (w.path_segments ≡ segments)
    go failed e = absurd (ground (arith, h, e))
    go (done (v, saved)) e = (
      ground (
        arith,
        h,
        e,
        update-rows t now (record p { page_title = some title; min_role = gate }) v saved,
      ),
      ground (arith, h, e),
    )

create_below-IsCreated :
    (io : Faults) (now : ℕ) (path : List Text) (title slug : Text) (t : ContentPages)
    (parent : Option ℕ) (gate : Option Text) (u : ContentPages) (w : WrittenPage)
    → IsTable t
    → create_below io now path title slug t (parent, gate) ≡ page_written u w
    → IsCreated t now parent slug title gate u × (w.path_segments ≡ path ++ (slug ∷ []))
unfolding create_below
create_below-IsCreated io now path title slug t parent gate u w table h =
    go (create t now parent slug none [] none) refl
  where
    go :
        (r : Inserted)
        → create t now parent slug none [] none ≡ r
        → IsCreated t now parent slug title gate u × (w.path_segments ≡ path ++ (slug ∷ []))
    go unique_violation e = absurd (ground (arith, h, e))
    go not_inserted e = absurd (ground (arith, h, e))
    go (inserted v p) e =
        let i = create-IsInserted t now parent slug none [] none v p e in
        let ended : finish_create io now (path ++ (slug ∷ [])) title gate v p ≡ page_written u w =
          ground (arith, h, e) in
        let (u_is, segs) =
          finish_create-rows io now (path ++ (slug ∷ [])) title gate v u p w ended in
        (
          record {
            rows_are =
                ap (λ z. z.rows) u_is
                ∙ rw (i.table_is, i.row_is)
                    (update_rows_of_new _ t.last_id t.rows
                      (new_row (suc t.last_id) now parent slug none [] none) table.bounded refl);
            last_is = ap (λ z. z.last_id) u_is ∙ ap (λ z. z.last_id) i.table_is;
            no_collision = i.no_collision;
            parent_there = i.parent_there;
          },
          segs,
        )

-- A creation that is written had a title with a slug and a parent that exists, and has added exactly
-- one row below it, with the slug, the trimmed title and the parent's gate; its path is the parent's
-- with the slug.
pub create_page-IsCreated :
    (lib : Library) (io : Faults) (now : ℕ) (t : ContentPages) (path : List Text) (title : Text)
    (u : ContentPages) (w : WrittenPage)
    → IsTable t
    → create_page lib io now t path title ≡ page_written u w
    → (slug : Text) × (parent : Option ℕ) × (gate : Option Text) × (slug_new lib.to_lowercase
          (trim title)
        ≡ some slug)
      × (parent_of t.rows path ≡ some (parent, gate))
      × IsCreated t now parent slug (trim title) gate u
      × (w.path_segments ≡ path ++ (slug ∷ []))
unfolding create_page
create_page-IsCreated lib io now t path title u w table h =
    elim (Option-cases (slug_new lib.to_lowercase (trim title))) [
      | inl e ↦ absurd (ground (arith, h, e))
      | inr (slug, e) ↦ elim (Option-cases (parent_of t.rows path)) [
        | inl k ↦ absurd (ground (arith, h, e, k))
        | inr ((parent, gate), k) ↦
            let below : create_below io now path (trim title) slug t (parent, gate)
                ≡ page_written u w =
              ground (arith, h, e, k) in
            let (made, segs) =
              create_below-IsCreated io now path (trim title) slug t parent gate u w table below in
            (slug, parent, gate, e, k, made, segs)
      ]
    ]
