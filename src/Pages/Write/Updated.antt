-- ===== src/Pages/Write/Updated.antt =====
-- What saving a page does.
use hotchkiss_io.Base.{
  All, All-In, All-of_pointwise, In, List, Option, [], ap, arith, false, if◌then◌else◌, inl, inr,
  map, none, refl, some, subst, sym, true, ℕ, ◌==◌, ◌∙◌, ◌∷◌, ◌≡◌, ◌≢◌, ◌⊎◌,
}
use hotchkiss_io.Text.{Text, codes}
use hotchkiss_io.Pages.{ContentPageDao}
use hotchkiss_io.Pages.Rows.{ContentPages, find_by_path, has_id, set_cover}
use hotchkiss_io.Roles
use hotchkiss_io.Pages.Write.{
  Faults, Library, PageUpdate, WrittenPage, cover_update, last, page_written, update_page,
}
use hotchkiss_io.Fallible.{found}
use hotchkiss_io.Roles.{Role, anonymous, apply_write, family, from_stored, to_stored}
use hotchkiss_io.Pages.Write.Created.{find_by_path-last}
use hotchkiss_io.Pages.Rows.Effects.{
  DistinctIds, IsForest, IsTable, node_of, nodes, update_rows-nodes,
}
use hotchkiss_io.Pages.Rows.Path.{IsChain-last, path_from-IsChain}
use hotchkiss_io.Roles.Gate.{apply_write_loosens, from_stored-to_stored}
use hotchkiss_io.Pages.Write.Saved.{IsSaved-HasGate, covered, update_page-IsSaved}

pub same_node :
    (rows : List ContentPageDao) (p : ContentPageDao)
    → DistinctIds (map node_of rows)
    → In p rows
    → All (λ r. has_id p.page_id r ≡ true → node_of r ≡ node_of p) rows
same_node (r ∷ rows) p (dr, d) (inl e) = (
  λ h. ap node_of e,
  others rows (subst (λ z. All (λ m. m.id ≢ z.page_id) (map node_of rows)) e dr),
)
  where
    others :
        (rows : List ContentPageDao)
        → All (λ m. m.id ≢ p.page_id) (map node_of rows)
        → All (λ r. has_id p.page_id r ≡ true → node_of r ≡ node_of p) rows
    others [] h = tt
    others (q ∷ qs) (hq, h) = (λ y. absurd (hq (ground arith)), others qs h)
same_node (r ∷ rows) p (dr, d) (inr i) =
    (λ h. absurd (clash rows i dr (ground (arith, h))), same_node rows p d i)
  where
    clash :
        (rows : List ContentPageDao)
        → In p rows
        → All (λ m. m.id ≢ r.page_id) (map node_of rows)
        → r.page_id ≡ p.page_id
        → ⊥
    clash (q ∷ qs) (inl e) (hq, h) k = hq (ap (λ z. z.page_id) e ∙ sym k)
    clash (q ∷ qs) (inr i) (hq, h) k = clash qs i h k
    clash [] i h k = absurd i
same_node [] p d i = absurd i

-- The page at the end of a path is a row of the table.
pub find_by_path-In :
    (rows : List ContentPageDao) (names : List Text) (p : ContentPageDao)
    → last (find_by_path rows names) ≡ some p
    → In p rows
find_by_path-In rows names p h =
    let (ps, from, ends) = find_by_path-last rows names p h in
    IsChain-last rows none names ps p (path_from-IsChain rows none names ps from) ends

-- A write of one page that leaves the tree's columns leaves the forest.
pub nodes-IsTable :
    (t u : ContentPages) → IsTable t → nodes u ≡ nodes t → u.last_id ≡ t.last_id → IsTable u
nodes-IsTable t u table e k =
    subst (λ z. IsForest z (nodes u)) (sym k) (subst (IsForest t.last_id) (sym e) table)

-- The cover of a page after a write of one page's cover.
abbrev pub cover_after : ContentPages → ℕ → Option (Option ℕ) → ℕ → Option ℕ
cover_after t i none j = t.covers j
cover_after t i (some media) j = if j == i then media else t.covers j

covers-covered :
    (now i : ℕ) (cover : Option (Option ℕ)) (t : ContentPages) (j : ℕ)
    → (covered now i cover t).covers j ≡ cover_after t i cover j
covers-covered now i none t j = refl
covers-covered now i (some media) t j = unfold set_cover in refl

pub covered-nodes :
    (now i : ℕ) (cover : Option (Option ℕ)) (t : ContentPages)
    → (nodes (covered now i cover t) ≡ nodes t) × ((covered now i cover t).last_id ≡ t.last_id)
covered-nodes now i none t = (refl, refl)
covered-nodes now i (some media) t =
    unfold set_cover in
    (update_rows-nodes i _ t.rows (All-of_pointwise _ (λ r h. refl) t.rows), refl)

module _ (lib : Library) (io : Faults) (now : ℕ) (t : ContentPages) (path : List Text)
    (input : PageUpdate) (u : ContentPages) (w : WrittenPage)
    (wrote : update_page lib io now t path input ≡ page_written u w) where
  -- After a save, the row of the page has a gate that lets in a viewer below its old gate only if the form says "Public", or "Registered"
  -- to a viewer who is logged in, or "Family" to a viewer who is family.
  pub update_page_loosens :
      (p q : ContentPageDao) (viewer : Role)
      → last (find_by_path t.rows path) ≡ some p
      → Roles.is_visible_to (from_stored p.min_role) viewer ≡ false
      → In q u.rows
      → q.page_id ≡ p.page_id
      → Roles.is_visible_to (from_stored q.min_role) viewer ≡ true
      → (input.min_role ≡ some (codes "Public"))
        ⊎ ((input.min_role ≡ some (codes "Registered")) × (viewer ≢ anonymous))
        ⊎ ((input.min_role ≡ some (codes "Family")) × (viewer ≡ family))
  update_page_loosens p q viewer found hidden row own seen =
      let s = update_page-IsSaved lib io now t path input u w wrote in
      let same_page : s.page ≡ p = ground (arith, s.found, found) in
      let gate : q.min_role ≡ to_stored (apply_write (from_stored s.page.min_role) input.min_role) =
        All-In _ q u.rows (IsSaved-HasGate lib now t path input u w s) row
          (ground (arith, own, same_page)) in
      let after : Roles.is_visible_to (apply_write (from_stored p.min_role) input.min_role) viewer
          ≡ true =
        subst (λ m. Roles.is_visible_to m viewer ≡ true)
          (ap from_stored gate
            ∙ (from_stored-to_stored s.page.min_role input.min_role
                ∙ ap (λ z. apply_write (from_stored z.min_role) input.min_role) same_page))
          seen in
      apply_write_loosens (from_stored p.min_role) input.min_role viewer hidden after

  -- A save writes the cover of its own page only: it clears it without a reference, sets it to what
  -- a reference resolves to, and keeps it when the reference resolves to nothing.
  pub update_page_cover :
      (p : ContentPageDao)
      → last (find_by_path t.rows path) ≡ some p
      → (j : ℕ) → u.covers j ≡ cover_after t p.page_id (cover_update lib input) j
  update_page_cover p found j =
      let s = update_page-IsSaved lib io now t path input u w wrote in
      let same_page : s.page ≡ p = ground (arith, s.found, found) in
      let covers_are : u.covers j ≡ cover_after t p.page_id (cover_update lib input) j =
        ap (λ z. z.covers j) s.table_is
        ∙ (covers-covered now s.page.page_id (cover_update lib input) _ j
            ∙ ap (λ z. cover_after t z.page_id (cover_update lib input) j) same_page) in
      covers_are
