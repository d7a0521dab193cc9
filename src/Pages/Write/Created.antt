-- ===== src/Pages/Write/Created.antt =====
-- Where a created page is found, and that no name is taken at the top level.
use hotchkiss_io.Base.{
  Bool, List, Option, Option-cases, [], any, ap, arith, false, filter, inl, inr, none, not, refl,
  some, subst, suc, sym, true, ℕ, ◌&&◌, ◌++◌, ◌∙◌, ◌∷◌, ◌≡◌,
}
use hotchkiss_io.Text.{Text, trim}
use hotchkiss_io.Pages.{ContentPageDao}
use hotchkiss_io.Pages.Rows.{
  ContentPages, collides, create, equal_id, find_by_name, find_by_path, has_id, inserted, named,
  new_row, or_empty, path_from, stamp, update, update_rows, written,
}
use hotchkiss_io.Pages.Rows.Effects.{IsTable}
use hotchkiss_io.Pages.Write.{
  Faults, Library, WrittenPage, create_below, create_page, finish_create, from_dao, last,
  page_written,
}
use hotchkiss_io.Fallible.{done}
use hotchkiss_io.Slug.{slug_new}
use hotchkiss_io.Pages.Rows.Path.{
  end_of, find_by_name-grown, no_collision-nil, path_from-snoc, path_from_kept,
}
use hotchkiss_io.Pages.Write.Inserted.{create_page-IsCreated, created_row}

end_of-last :
    (parent : Option ℕ) (ps : List ContentPageDao) (p : ContentPageDao)
    → last ps ≡ some p
    → end_of parent ps ≡ some p.page_id
end_of-last parent [] p h = absurd (cc h)
end_of-last parent (q ∷ []) p h = ground (arith, h)
end_of-last parent (q ∷ r ∷ ps) p h = end_of-last (some q.page_id) (r ∷ ps) p h

last-append : {A : Type 0} (xs : List A) (x : A) → last (xs ++ (x ∷ [])) ≡ some x
last-append [] x = refl
last-append (y ∷ []) x = refl
last-append (y ∷ z ∷ xs) x = last-append (z ∷ xs) x

-- What the last node of a path was found by.
pub find_by_path-last :
    (rows : List ContentPageDao) (names : List Text) (p : ContentPageDao)
    → last (find_by_path rows names) ≡ some p
    → (ps : List ContentPageDao) × (path_from rows none names ≡ some ps) × (last ps ≡ some p)
unfolding find_by_path
find_by_path-last rows names p h = elim (Option-cases (path_from rows none names)) [
  | inl e ↦ absurd (ground (arith, h, e))
  | inr (ps, e) ↦ (ps, e, ap (λ o. last (or_empty o)) (sym e) ∙ h)
]

found_at_end :
    {rows some_rows : List ContentPageDao} {names some_names : List Text}
    → some_rows ≡ rows
    → some_names ≡ names
    → (ps : List ContentPageDao) (row : ContentPageDao)
    → path_from rows none names ≡ some (ps ++ (row ∷ []))
    → last (find_by_path some_rows some_names) ≡ some row
unfolding find_by_path
found_at_end e k ps row walked = rw (e, k, walked) (last-append ps row)

not_equal_none : (a : Option ℕ) → equal_id a none ≡ false
not_equal_none none = refl
not_equal_none (some a) = refl

no_collision_at_root :
    (name : Text) (rows : List ContentPageDao) → any (collides none name) rows ≡ false
no_collision_at_root name [] = refl
no_collision_at_root name (r ∷ rows) =
    rw (not_equal_none r.parent_page_id) (no_collision_at_root name rows)

no_other_collision :
    (i : ℕ) (name : Text) (rows : List ContentPageDao)
    → any (λ r. not (has_id i r) && collides none name r) rows ≡ false
no_other_collision i name [] = refl
no_other_collision i name (r ∷ rows) =
    ground (arith, not_equal_none r.parent_page_id, no_other_collision i name rows)

any-append_last :
    (f : ContentPageDao → Bool) (rows : List ContentPageDao) (r : ContentPageDao)
    → f r ≡ true
    → any f (rows ++ (r ∷ [])) ≡ true
any-append_last f [] r h = rw h refl
any-append_last f (q ∷ rows) r h = ground (arith, any-append_last f rows r h)

has_own_id : (r : ContentPageDao) → has_id r.page_id r ≡ true
has_own_id r = ground arith

abbrev pub no_faults : Faults
no_faults = record { on_find = false; on_create = false; on_update = false; on_cover = false }

-- At the top level no name is taken: a title with a slug always makes a page, even with the name of
-- a page that is there.
pub create_page_top_level :
    (lib : Library) (now : ℕ) (t : ContentPages) (title slug : Text)
    → slug_new lib.to_lowercase (trim title) ≡ some slug
    → (u : ContentPages) × (w : WrittenPage) × (create_page lib no_faults now t [] title
        ≡ page_written u w)
create_page_top_level lib now t title slug h =
    let row = new_row (suc t.last_id) now none slug none [] none in
    let grown : ContentPages = record t { rows = t.rows ++ (row ∷ []); last_id = suc t.last_id } in
    let made : create t now none slug none [] none ≡ inserted grown row =
      unfold create in rw (no_collision_at_root slug t.rows) refl in
    let cp = record row { page_title = some (trim title); min_role = none } in
    let saved : update grown now cp
        ≡ done (
          record grown { rows = update_rows row.page_id (written now cp) grown.rows },
          record cp { page_modified_date = stamp now },
        ) =
      unfold update in
      rw
        (
          any-append_last (has_id row.page_id) t.rows row (has_own_id row),
          no_other_collision row.page_id slug grown.rows,
        )
        refl in
    let finished : finish_create no_faults now (slug ∷ []) (trim title) none grown row
        ≡ page_written (record grown { rows = update_rows row.page_id (written now cp) grown.rows })
            (from_dao now (record cp { page_modified_date = stamp now }) (slug ∷ [])) =
      unfold finish_create in rw saved refl in
    let below : create_below no_faults now [] (trim title) slug t (none, none)
        ≡ finish_create no_faults now (slug ∷ []) (trim title) none grown row =
      unfold create_below in rw made refl in
    let page : create_page lib no_faults now t [] title
        ≡ create_below no_faults now [] (trim title) slug t (none, none) =
      unfold create_page in ground (arith, h) in
    (
      record grown { rows = update_rows row.page_id (written now cp) grown.rows },
      from_dao now (record cp { page_modified_date = stamp now }) (slug ∷ []),
      page ∙ (below ∙ finished),
    )

-- A page created below another is found at its path, with the gate of the page above it.
pub create_page_found :
    (lib : Library) (io : Faults) (now : ℕ) (t : ContentPages) (s : Text) (path : List Text)
    (title : Text) (u : ContentPages) (w : WrittenPage)
    → IsTable t
    → create_page lib io now t (s ∷ path) title ≡ page_written u w
    → (above : ContentPageDao) × (p : ContentPageDao) × (last (find_by_path t.rows (s ∷ path))
        ≡ some above)
      × (last (find_by_path u.rows w.path_segments) ≡ some p)
      × (p.parent_page_id ≡ some above.page_id)
      × (p.min_role ≡ above.min_role)
create_page_found lib io now t s path title u w table h =
    let (slug, parent, gate, _, k, made, segs) =
      create_page-IsCreated lib io now t (s ∷ path) title u w table h in
    elim (Option-cases (last (find_by_path t.rows (s ∷ path)))) [
      | inl e ↦ absurd (ground (arith, e, k))
      | inr (above, e) ↦
          let (ps, from, ends) = find_by_path-last t.rows (s ∷ path) above e in
          let is_parent : parent ≡ some above.page_id = ground (arith, e, k) in
          let is_gate : gate ≡ above.min_role = ground (arith, e, k) in
          let row = created_row (suc t.last_id) now parent slug (trim title) gate in
          let new : filter (named parent slug) t.rows ≡ [] =
            subst (λ z. filter (named z slug) t.rows ≡ []) (sym is_parent)
              (no_collision-nil t.rows above.page_id slug
                (subst (λ z. any (collides z slug) t.rows ≡ false) is_parent made.no_collision)) in
          let at_end : find_by_name (t.rows ++ (row ∷ [])) (end_of none ps) slug ≡ some row =
            subst (λ z. find_by_name (t.rows ++ (row ∷ [])) z slug ≡ some row)
              (is_parent ∙ sym (end_of-last none ps above ends))
              (find_by_name-grown t.rows row new) in
          let walked : path_from (t.rows ++ (row ∷ [])) none ((s ∷ path) ++ (slug ∷ []))
              ≡ some (ps ++ (row ∷ [])) =
            path_from-snoc (t.rows ++ (row ∷ [])) none (s ∷ path) ps slug row
              (path_from_kept t.rows row new none (s ∷ path) ps from) at_end in
          (above, row, e, found_at_end made.rows_are segs ps row walked, is_parent, is_gate)
    ]
