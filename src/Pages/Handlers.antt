-- ===== src/Pages/Handlers.antt =====
-- src/web/features/pages/mod.rs: the handlers of /pages, up to the rendering of a page.
pub mod Gate
pub mod Trail
use mathlib.Core.Option
use hotchkiss_io.Base.{
  Bool, List, Option, [], all, filter, if◌then◌else◌, length, ltb, none, not, some, suc, zero, ℕ,
  ◌&&◌, ◌++◌, ◌==◌, ◌∷◌,
}
use hotchkiss_io.Text.{Text, codes, join, split}
use hotchkiss_io.Pages
use hotchkiss_io.Pages.{ContentPageDao, display_title}
use hotchkiss_io.Pages.Rows.{ContentPages, delete, find_by_parent, find_by_path, has_id}
use hotchkiss_io.Pages.Write.{
  Outcome, duplicate_slug, empty_title, internal, last, not_found, page_error, page_written,
  pages_url,
}
use hotchkiss_io.Roles.{Role, anonymous}

pub record Card : Type 0 where
  pub href : Text
  pub title : Text

abbrev pages_href : List Text → Text
pages_href segments = codes "/pages/" ++ join (codes "/") segments

-- `siblings.iter().position(|p| p.page_id == id)`
unfoldable pub position : ℕ → List ContentPageDao → Option ℕ
position i [] = none
position i (p ∷ ps) = let rest = position i ps in if has_id i p then some 0 else Option.map suc rest

unfoldable pub get_elem? : {A : Type 0} → List A → ℕ → Option A
get_elem? [] i = none
get_elem? (x ∷ xs) zero = some x
get_elem? (x ∷ xs) (suc i) = get_elem? xs i

-- `i.checked_sub(1).and_then(|j| siblings.get(j))`
abbrev pub before : List ContentPageDao → ℕ → Option ContentPageDao
before ps zero = none
before ps (suc i) = get_elem? ps i

abbrev pub init : {A : Type 0} → List A → List A
init [] = []
init (x ∷ []) = []
init (x ∷ y ∷ xs) = x ∷ init (y ∷ xs)

unfoldable pub visible_siblings :
    ℕ → List ContentPageDao → ContentPageDao → Role → List ContentPageDao
unfolding find_by_parent Pages.is_visible_to
visible_siblings now rows page viewer =
    filter (λ p. Pages.is_visible_to now p viewer) (find_by_parent rows page.parent_page_id)

abbrev sibling_card : List Text → ContentPageDao → Card
sibling_card parent_segs p = record {
  href = pages_href (parent_segs ++ (p.page_name ∷ []));
  title = display_title p;
}

-- The neighbours of a page among its siblings; a page of one segment has none.
unfoldable pub neighbours :
    ℕ
    → List ContentPageDao
    → ContentPageDao
    → List Text
    → Role
    → Option ContentPageDao × Option ContentPageDao
unfolding visible_siblings position get_elem?
neighbours now rows page names viewer =
    if ltb (length names) 2
    then (none, none)
    else elim (position page.page_id (visible_siblings now rows page viewer)) [
      | none ↦ (none, none)
      | some i ↦ (
        before (visible_siblings now rows page viewer) i,
        get_elem? (visible_siblings now rows page viewer) (suc i),
      )
    ]

unfoldable pub sibling_nav :
    ℕ → List ContentPageDao → ContentPageDao → List Text → Role → Option Card × Option Card
unfolding neighbours display_title join
sibling_nav now rows page names viewer =
    let (prev, next) = neighbours now rows page names viewer in
    (Option.map (sibling_card (init names)) prev, Option.map (sibling_card (init names)) next)

-- The crumbs of the nodes behind a trail of segments.
unfoldable pub crumbs_from : List Text → List ContentPageDao → List Card
unfolding display_title join
crumbs_from segs [] = []
crumbs_from segs (node ∷ nodes) =
    let span = segs ++ (node.page_name ∷ []) in
    record { href = pages_href span; title = display_title node } ∷ crumbs_from span nodes

unfoldable pub breadcrumbs_from_path : List ContentPageDao → List Card
unfolding crumbs_from
breadcrumbs_from_path [] = []
breadcrumbs_from_path (top ∷ nodes) =
    if ltb (length (top ∷ nodes)) 3 then [] else crumbs_from (top.page_name ∷ []) (init nodes)

-- What is behind a GET of a path, before the page is rendered.
pub data PageView : Type 0 where
  cat_404 : PageView
  redirect : Text → PageView
  shown : ContentPageDao → List Card → Option Card × Option Card → PageView

abbrev pub sees : ℕ → Role → ContentPageDao → Bool
sees now viewer p = Pages.is_visible_to now p viewer

unfoldable pub view_leaf :
    ℕ → List ContentPageDao → List Text → List ContentPageDao → ContentPageDao → Role → PageView
unfolding Pages.is_visible_to breadcrumbs_from_path sibling_nav
view_leaf now rows names path leaf viewer =
    if not (all (sees now viewer) path)
    then if leaf.special_page && all (sees now viewer) (init path)
      then redirect leaf.page_markdown
      else cat_404
    else if leaf.special_page
    then redirect leaf.page_markdown
    else shown leaf (breadcrumbs_from_path path) (sibling_nav now rows leaf names viewer)

unfoldable pub get_page_path : ℕ → List ContentPageDao → Text → Role → PageView
unfolding split find_by_path view_leaf
get_page_path now rows page_path viewer =
    let names = split (λ c. c == b'/') page_path in
    elim (last (find_by_path rows names)) [
      | none ↦ cat_404
      | some leaf ↦ view_leaf now rows names (find_by_path rows names) leaf viewer
    ]

-- `find(|p| p.is_visible_to(Role::Anonymous))`
abbrev first_visible : ℕ → List ContentPageDao → Option ContentPageDao
first_visible now [] = none
first_visible now (p ∷ ps) = if sees now anonymous p then some p else first_visible now ps

-- Where /pages leads, or `none` for its 404.
unfoldable pub redirect_to_first_page : ℕ → List ContentPageDao → Option Text
unfolding find_by_parent Pages.is_visible_to
redirect_to_first_page now rows =
    Option.map (λ p. codes "/pages/" ++ p.page_name) (first_visible now (find_by_parent rows none))

pub data Deletion : Type 0 where
  no_such_page special_refused : Deletion
  deleted : ContentPages → Text → Deletion

abbrev parent_target : List Text → Text
parent_target [] = codes "/pages"
parent_target (s ∷ segs) = pages_href (s ∷ segs)

unfoldable pub delete_page_path : ContentPages → Text → Deletion
unfolding split find_by_path delete join
delete_page_path t page_path =
    let names = split (λ c. c == b'/') page_path in
    elim (last (find_by_path t.rows names)) [
      | none ↦ no_such_page
      | some leaf ↦
          if leaf.special_page
          then special_refused
          else deleted (delete t leaf) (parent_target (init names))
    ]

-- The status and the target or the text of a creation's answer; an internal error is a 500.
unfoldable pub create_and_redirect : Outcome → ℕ × Text
unfolding pages_url
create_and_redirect (page_written t w) = (200, pages_url w ++ codes "?edit=1")
create_and_redirect (page_error t empty_title) =
    (400, codes "Title must contain letters or numbers")
create_and_redirect (page_error t not_found) = (404, codes "No such parent page")
create_and_redirect (page_error t (duplicate_slug slug parent)) =
    (409, codes "A page with slug '" ++ (slug ++ (codes "' already exists under " ++ parent)))
create_and_redirect (page_error t internal) = (500, [])
