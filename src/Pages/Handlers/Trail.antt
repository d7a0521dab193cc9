-- ===== src/Pages/Handlers/Trail.antt =====
-- The ways from a page to others.
use hotchkiss_io.Base.{
  List, [], any, ap, arith, false, length, ltb, refl, some, suc, true, ℕ, ◌++◌, ◌∙◌, ◌∷◌, ◌≡◌, ◌≤◌,
}
use hotchkiss_io.Text.{Text}
use hotchkiss_io.Pages.{ContentPageDao}
use hotchkiss_io.Pages.Write.{last}
use hotchkiss_io.Pages.Handlers.{before, get_elem?, neighbours, position, visible_siblings}
use hotchkiss_io.Roles.{Role}
use hotchkiss_io.Pages.Rows.{first, has_id}

position-append :
    (i : ℕ) (before_it after : List ContentPageDao) (p : ContentPageDao)
    → any (has_id i) before_it ≡ false
    → p.page_id ≡ i
    → position i (before_it ++ (p ∷ after)) ≡ some (length before_it)
unfolding position
position-append i [] after p h e = let own : has_id i p ≡ true = ground arith in rw own refl
position-append i (q ∷ ps) after p h e =
    let other : has_id i q ≡ false = ground (arith, h) in
    rw (other, position-append i ps after p (ground (arith, h)) e) refl

get_elem?-length : {A : Type 0} (xs ys : List A) → get_elem? (xs ++ ys) (length xs) ≡ first ys
unfolding get_elem?
get_elem?-length [] [] = refl
get_elem?-length [] (y ∷ ys) = refl
get_elem?-length (x ∷ xs) ys = get_elem?-length xs ys

get_elem?-suc :
    {A : Type 0} (xs ys : List A) (y : A) → get_elem? (xs ++ (y ∷ ys)) (suc (length xs)) ≡ first ys
unfolding get_elem?
get_elem?-suc [] [] y = refl
get_elem?-suc [] (z ∷ ys) y = refl
get_elem?-suc (x ∷ xs) ys y = get_elem?-suc xs ys y

before-length : (xs ys : List ContentPageDao) → before (xs ++ ys) (length xs) ≡ last xs
unfolding get_elem?
before-length [] ys = refl
before-length (x ∷ []) ys = refl
before-length (x ∷ y ∷ xs) ys = before-length (y ∷ xs) ys

-- A nested page's neighbours are the visible siblings just before and just behind it in the reading
-- order; at an end of the order there is none.
pub neighbours_split :
    (now : ℕ) (rows : List ContentPageDao) (page : ContentPageDao) (names : List Text)
    (viewer : Role) (before_it after : List ContentPageDao)
    → 2 ≤ length names
    → visible_siblings now rows page viewer ≡ before_it ++ (page ∷ after)
    → any (has_id page.page_id) before_it ≡ false
    → neighbours now rows page names viewer ≡ (last before_it, first after)
unfolding neighbours
neighbours_split now rows page names viewer before_it after nested e other =
    let deep : ltb (length names) 2 ≡ false = ground arith in
    let here : position page.page_id (visible_siblings now rows page viewer)
        ≡ some (length before_it) =
      ap (position page.page_id) e ∙ position-append page.page_id before_it after page other refl in
    rw (deep, here)
      (ap (λ z. (before z (length before_it), get_elem? z (suc (length before_it)))) e
        ∙ (λ i. (before-length before_it (page ∷ after) i, get_elem?-suc before_it after page i)))
