-- ===== src/Pages/Handlers/Gate.antt =====
-- Who is shown which page.
use hotchkiss_io.Base.{
  All, All-map, Bool, Bool-cases, List, Option-cases, [], all, all_sound, arith, false, inl, inr,
  none, refl, some, subst, sym, true, ℕ, ◌&&◌, ◌==◌, ◌∷◌, ◌≡◌, ◌⊎◌,
}
use hotchkiss_io.Text.{Text, split}
use hotchkiss_io.Pages.{ContentPageDao}
use hotchkiss_io.Pages.Rows.{find_by_path}
use hotchkiss_io.Pages.Visible.{MayReadPage, is_visible_to_iff}
use hotchkiss_io.Pages.Handlers.{
  PageView, breadcrumbs_from_path, cat_404, get_page_path, init, redirect, sees, shown, sibling_nav,
  view_leaf,
}
use hotchkiss_io.Roles.{Role}
use hotchkiss_io.Pages.Write.{last}

-- What each answer to a GET says of the nodes on the path: a page is shown, or a special page's
-- target given, only past nodes that the viewer may read; a special page's own gate is its target's
-- to check.
pub ViewMeans : ℕ → Role → List ContentPageDao → PageView → Type 0
ViewMeans now viewer path cat_404 = (path ≡ []) ⊎ (all (sees now viewer) path ≡ false)
ViewMeans now viewer path (redirect target) =
    (leaf : ContentPageDao) × (last path ≡ some leaf)
    × (leaf.special_page ≡ true)
    × (target ≡ leaf.page_markdown)
    × All (λ p. MayReadPage now p viewer) (init path)
ViewMeans now viewer path (shown leaf crumbs cards) =
    (last path ≡ some leaf) × (leaf.special_page ≡ false) × All (λ p. MayReadPage now p viewer) path

all-sees :
    (now : ℕ) (viewer : Role) (path : List ContentPageDao)
    → all (sees now viewer) path ≡ true
    → All (λ p. MayReadPage now p viewer) path
all-sees now viewer path h =
    All-map _ _ (λ p. (is_visible_to_iff now p viewer).0) path (all_sound (sees now viewer) path h)

all-init :
    (f : ContentPageDao → Bool) (path : List ContentPageDao)
    → all f path ≡ true
    → all f (init path) ≡ true
all-init f [] h = refl
all-init f (p ∷ []) h = refl
all-init f (p ∷ q ∷ path) h = ground (arith, all-init f (q ∷ path))

view_leaf-ViewMeans :
    (now : ℕ) (rows : List ContentPageDao) (names : List Text) (path : List ContentPageDao)
    (leaf : ContentPageDao) (viewer : Role)
    → last path ≡ some leaf
    → ViewMeans now viewer path (view_leaf now rows names path leaf viewer)
view_leaf-ViewMeans now rows names path leaf viewer e =
    elim (Bool-cases (all (sees now viewer) path)) [
      | inl y ↦ elim (Bool-cases leaf.special_page) [
        | inl k ↦
            let answer : view_leaf now rows names path leaf viewer ≡ redirect leaf.page_markdown =
              unfold view_leaf in ground (arith, y, k) in
            subst (ViewMeans now viewer path) (sym answer) (
              unfold ViewMeans in
              (leaf, e, k, refl, all-sees now viewer (init path) (all-init _ path y)))
        | inr k ↦
            let answer : view_leaf now rows names path leaf viewer
                ≡ shown leaf (breadcrumbs_from_path path) (sibling_nav now rows leaf names viewer) =
              unfold view_leaf in ground (arith, y, k) in
            subst (ViewMeans now viewer path) (sym answer)
              (unfold ViewMeans in (e, k, all-sees now viewer path y))
      ]
      | inr n ↦ elim (Bool-cases (leaf.special_page && all (sees now viewer) (init path))) [
        | inl k ↦
            let answer : view_leaf now rows names path leaf viewer ≡ redirect leaf.page_markdown =
              unfold view_leaf in ground (arith, n, k) in
            subst (ViewMeans now viewer path) (sym answer) (
              unfold ViewMeans in
              (
                leaf,
                e,
                ground (arith, k),
                refl,
                all-sees now viewer (init path) (ground (arith, k)),
              ))
        | inr k ↦
            let answer : view_leaf now rows names path leaf viewer ≡ cat_404 =
              unfold view_leaf in ground (arith, n, k) in
            subst (ViewMeans now viewer path) (sym answer) (unfold ViewMeans in inr n)
      ]
    ]

-- The answer to a GET of a page is what the gates of all nodes on its path allow: a page is shown
-- only if the viewer may read it and every page above it; a special page redirects only if the viewer
-- may read every page above it; and otherwise the answer is the 404 of a path that does not exist.
pub get_page_path-ViewMeans :
    (now : ℕ) (rows : List ContentPageDao) (page_path : Text) (viewer : Role)
    → ViewMeans now viewer
        (find_by_path rows (split (λ c. c == b'/') page_path))
        (get_page_path now rows page_path viewer)
get_page_path-ViewMeans now rows page_path viewer =
    let path = find_by_path rows (split (λ c. c == b'/') page_path) in
    elim (Option-cases (last path)) [
      | inl e ↦
          let answer : get_page_path now rows page_path viewer ≡ cat_404 =
            unfold get_page_path in ground (arith, e) in
          subst (ViewMeans now viewer path) (sym answer) (unfold ViewMeans in inl (no_last path e))
      | inr (leaf, e) ↦
          let answer : get_page_path now rows page_path viewer
              ≡ view_leaf now rows (split (λ c. c == b'/') page_path) path leaf viewer =
            unfold get_page_path in ground (arith, e) in
          subst (ViewMeans now viewer path) (sym answer)
            (view_leaf-ViewMeans now rows (split (λ c. c == b'/') page_path) path leaf viewer e)
    ]
  where
    no_last : (ps : List ContentPageDao) → last ps ≡ none → ps ≡ []
    no_last [] h = refl
    no_last (p ∷ []) h = absurd (cc h)
    no_last (p ∷ q ∷ ps) h = absurd (cc (no_last (q ∷ ps) h))
