-- ===== src/Pages/Write/Saved.antt =====
-- What a save has written, and the gate that it leaves.
use hotchkiss_io.Base.{
  All, Bool-cases, List, Option, Option-cases, [], arith, inl, inr, none, refl, some, subst, sym,
  true, ℕ, ◌∙◌, ◌∷◌, ◌≡◌,
}
use hotchkiss_io.Pages.Write.{
  Faults, Library, PageUpdate, WrittenPage, cover_update, edited, from_dao, last, page_written,
  save, update_page, write_cover,
}
use hotchkiss_io.Pages.Rows.{
  ContentPages, find_by_path, has_id, set_cover, update, update_rows, written,
}
use hotchkiss_io.Text.{Text}
use hotchkiss_io.Pages.{ContentPageDao}
use hotchkiss_io.Roles.{apply_write, from_stored, to_stored}
use hotchkiss_io.Fallible.{Fallible, done, failed}
use hotchkiss_io.Pages.Write.Inserted.{update-rows}

-- The cover's write of a save: none, or `set_cover`.
abbrev pub covered : ℕ → ℕ → Option (Option ℕ) → ContentPages → ContentPages
covered now i none t = t
covered now i (some media) t = set_cover t now i media

-- What a save that is written has done.
pub record IsSaved (lib : Library) (now : ℕ) (t : ContentPages) (path : List Text)
    (input : PageUpdate) (u : ContentPages) (w : WrittenPage) : Type 0 where
  pub page : ContentPageDao
  pub markdown : Text
  pub found : last (find_by_path t.rows path) ≡ some page
  pub rewritten : lib.rewrite_links input.markdown ≡ done markdown
  pub table_is :
      u
      ≡ covered now page.page_id (cover_update lib input) (record t {
        rows = update_rows page.page_id (written now (edited lib input markdown page)) t.rows;
      })
  pub gate_is : w.min_role ≡ to_stored (apply_write (from_stored page.min_role) input.min_role)

write_cover-covered :
    (io : Faults) (now : ℕ) (path : List Text) (cover : Option (Option ℕ)) (t u : ContentPages)
    (p : ContentPageDao) (w : WrittenPage)
    → write_cover io now path cover t p ≡ page_written u w
    → (u ≡ covered now p.page_id cover t) × (w.min_role ≡ p.min_role)
unfolding write_cover from_dao
write_cover-covered io now path none t u p w h = (ground (arith, h), ground (arith, h))
write_cover-covered io now path (some media) t u p w h = (ground (arith, h), ground (arith, h))

pub update_page-IsSaved :
    (lib : Library) (io : Faults) (now : ℕ) (t : ContentPages) (path : List Text)
    (input : PageUpdate) (u : ContentPages) (w : WrittenPage)
    → update_page lib io now t path input ≡ page_written u w
    → IsSaved lib now t path input u w
unfolding update_page save
update_page-IsSaved lib io now t path input u w h =
    elim (Option-cases (last (find_by_path t.rows path))) [
      | inl e ↦ absurd (ground (arith, h, e))
      | inr (p, e) ↦ from_save p e (lib.rewrite_links input.markdown) refl
    ]
  where
    from_update :
        (p : ContentPageDao)
        → last (find_by_path t.rows path) ≡ some p
        → (m : Text) → lib.rewrite_links input.markdown ≡ done m
        → (r : Fallible (ContentPages × ContentPageDao)) → update t now (edited lib input m p) ≡ r
        → IsSaved lib now t path input u w
    from_update p e m k failed l = absurd (ground (arith, h, e, k, l))
    from_update p e m k (done (v, saved)) l =
        let (v_is, saved_is) = update-rows t now (edited lib input m p) v saved l in
        let ended : write_cover io now path (cover_update lib input) v saved ≡ page_written u w =
          ground (arith, h, e, k, l) in
        let (u_is, gate) =
          write_cover-covered io now path (cover_update lib input) v u saved w ended in
        record {
          page = p;
          markdown = m;
          found = e;
          rewritten = k;
          table_is = u_is ∙ rw (v_is, saved_is) (unfold edited in refl);
          gate_is = gate ∙ rw saved_is (unfold edited in refl);
        }

    from_save :
        (p : ContentPageDao)
        → last (find_by_path t.rows path) ≡ some p
        → (r : Fallible Text) → lib.rewrite_links input.markdown ≡ r
        → IsSaved lib now t path input u w
    from_save p e failed k = absurd (ground (arith, h, e, k))
    from_save p e (done m) k = from_update p e m k (update t now (edited lib input m p)) refl

-- The rows with an id that a write has given a gate have that gate.
abbrev pub HasGate : ℕ → Option Text → ContentPageDao → Type 0
HasGate i gate r = has_id i r ≡ true → r.min_role ≡ gate

written-HasGate :
    (now i : ℕ) (cp : ContentPageDao) (rows : List ContentPageDao)
    → All (HasGate i cp.min_role) (update_rows i (written now cp) rows)
unfolding update_rows
written-HasGate now i cp [] = tt
written-HasGate now i cp (r ∷ rows) = elim (Bool-cases (has_id i r)) [
  | inl y ↦ rw y (λ h. refl, written-HasGate now i cp rows)
  | inr n ↦ rw n (λ h. absurd (ground (arith, h, n)), written-HasGate now i cp rows)
]

update_rows-HasGate :
    (i j : ℕ) (gate : Option Text) (f : ContentPageDao → ContentPageDao)
    → ((r : ContentPageDao) → HasGate j gate r → HasGate j gate (f r))
    → (rows : List ContentPageDao) → All (HasGate j gate) rows
    → All (HasGate j gate) (update_rows i f rows)
unfolding update_rows
update_rows-HasGate i j gate f keep [] h = tt
update_rows-HasGate i j gate f keep (r ∷ rows) (g, h) = elim (Bool-cases (has_id i r)) [
  | inl y ↦ rw y (keep r g, update_rows-HasGate i j gate f keep rows h)
  | inr n ↦ rw n (g, update_rows-HasGate i j gate f keep rows h)
]

covered-HasGate :
    (now i j : ℕ) (gate : Option Text) (cover : Option (Option ℕ)) (t : ContentPages)
    → All (HasGate j gate) t.rows
    → All (HasGate j gate) (covered now i cover t).rows
unfolding set_cover
covered-HasGate now i j gate none t h = h
covered-HasGate now i j gate (some media) t h = update_rows-HasGate i j gate _ (λ r g. g) t.rows h

-- The gate that a save leaves in the table.
pub IsSaved-HasGate :
    (lib : Library) (now : ℕ) (t : ContentPages) (path : List Text) (input : PageUpdate)
    (u : ContentPages) (w : WrittenPage) (s : IsSaved lib now t path input u w)
    → All
        (HasGate s.page.page_id
          (to_stored (apply_write (from_stored s.page.min_role) input.min_role)))
        u.rows
unfolding edited
IsSaved-HasGate lib now t path input u w s =
    subst (λ z. All (HasGate s.page.page_id (edited lib input s.markdown s.page).min_role) z.rows)
      (sym s.table_is)
      (covered-HasGate now s.page.page_id s.page.page_id _ (cover_update lib input)
        (record t {
          rows =
              update_rows s.page.page_id (written now (edited lib input s.markdown s.page)) t.rows;
        })
        (written-HasGate now s.page.page_id (edited lib input s.markdown s.page) t.rows))
