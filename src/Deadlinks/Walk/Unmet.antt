-- ===== src/Deadlinks/Walk/Unmet.antt =====
-- What the walk has still to meet.
use mathlib.Core.List.{Perm}
use hotchkiss_io.Base.{
  All, All-filter_keep, All-map, Bool-cases, List, Option, [], ap, arith, filter, filter-filter,
  if◌then◌else◌, inl, inr, leb, length, length-filter-sort_by, none, not, refl, some, sort_by,
  subst, suc, sym, true, zero, ℕ, ◌+◌, ◌<◌, ◌∙◌, ◌∷◌, ◌≡◌, ◌≢◌, ◌≤◌, ◌⊎◌,
}
use hotchkiss_io.Pages.{ContentPageDao}
use hotchkiss_io.Pages.Rows.{find_by_parent, is_child_of, order_leb, same_id}
use hotchkiss_io.Deadlinks.Walk.{push_ids}
use hotchkiss_io.Pages.Rows.Path.{same_id_iff}
use hotchkiss_io.Sorting.{length-sort_by, sort_by-perm}

-- How often an id is on the stack, and how many pages have it.
abbrev pub on_stack : Option ℕ → List (Option ℕ) → ℕ
on_stack q [] = 0
on_stack q (p ∷ stack) = (if same_id p q then 1 else 0) + on_stack q stack

abbrev pub with_id : Option ℕ → List ContentPageDao → ℕ
with_id q rows = length (filter (λ r. same_id (some r.page_id) q) rows)

on_stack-push_ids :
    (q : Option ℕ) (stack : List (Option ℕ)) (children : List ContentPageDao)
    → on_stack q (push_ids stack children) ≡ on_stack q stack + with_id q children
unfolding push_ids
on_stack-push_ids q stack [] = omega arith
on_stack-push_ids q stack (c ∷ children) =
    ground (arith, on_stack-push_ids q (some c.page_id ∷ stack) children)

length-push_ids :
    (stack : List (Option ℕ)) (children : List ContentPageDao)
    → length (push_ids stack children) ≡ length stack + length children
unfolding push_ids
length-push_ids stack [] = omega arith
length-push_ids stack (c ∷ children) =
    omega (arith, length-push_ids (some c.page_id ∷ stack) children)

abbrev pub rest_after : Option ℕ → List ContentPageDao → List ContentPageDao
rest_after p rest = filter (λ r. not (is_child_of p r)) rest

with_id-split :
    (q p : Option ℕ) (rest : List ContentPageDao)
    → with_id q rest ≡ with_id q (filter (is_child_of p) rest) + with_id q (rest_after p rest)
with_id-split q p [] = omega arith
with_id-split q p (r ∷ rest) = ground (arith, with_id-split q p rest)

length-split :
    (p : Option ℕ) (rest : List ContentPageDao)
    → length rest ≡ length (filter (is_child_of p) rest) + length (rest_after p rest)
length-split p [] = omega arith
length-split p (r ∷ rest) = ground (arith, length-split p rest)

-- Where a page that the walk has not met yet will be met from: its parent is on the stack, or is an
-- older page that is not met yet.
abbrev pub Waits : List (Option ℕ) → List ContentPageDao → ContentPageDao → Type 0
Waits stack rest r =
    (1 ≤ on_stack r.parent_page_id stack)
    ⊎ ((q : ℕ) × (r.parent_page_id ≡ some q) × (q < r.page_id) × (1 ≤ with_id (some q) rest))

-- The state of the walk: no id is twice on the stack or among the pages not met, the children of
-- each of these are still to be met, and every page waits.
pub record IsState (rows rest : List ContentPageDao) (stack : List (Option ℕ)) : Type 0 where
  pub once : (q : Option ℕ) → on_stack q stack + with_id q rest ≤ 1
  pub unmet :
      (q : Option ℕ)
      → 1 ≤ on_stack q stack + with_id q rest
      → filter (is_child_of q) rows ≡ filter (is_child_of q) rest
  pub waits : All (Waits stack rest) rest

module _ (rows rest : List ContentPageDao) (p : Option ℕ) (stack : List (Option ℕ)) where
  abbrev pushed : List (Option ℕ)
  pushed = push_ids stack (find_by_parent rows p)

  -- What a pop moves from the pages not met to the stack.
  on_stack-pushed :
      IsState rows rest (p ∷ stack)
      → (q : Option ℕ)
      → (on_stack q pushed ≡ on_stack q stack + with_id q (filter (is_child_of p) rest))
        × (on_stack q pushed + with_id q (rest_after p rest) ≡ on_stack q stack + with_id q rest)
  unfolding find_by_parent
  on_stack-pushed st q =
      let met : filter (is_child_of p) rows ≡ filter (is_child_of p) rest = st.unmet p (top p) in
      let sorted =
        length-filter-sort_by order_leb (λ r. same_id (some r.page_id) q)
          (filter (is_child_of p) rows) in
      let moved : with_id q (filter (is_child_of p) rows)
          ≡ with_id q (filter (is_child_of p) rest) =
        ap (with_id q) met in
      omega (
        arith,
        on_stack-push_ids q stack (find_by_parent rows p),
        sorted,
        moved,
        with_id-split q p rest,
      )
    where
      top : (p : Option ℕ) → 1 ≤ on_stack p (p ∷ stack) + with_id p rest
      top none = omega arith
      top (some a) = ground arith

  popped : IsState rows rest (p ∷ stack) → on_stack p stack + with_id p rest ≡ 0
  popped st = ground (arith, st.once p, (same_id_iff p p).1 refl)

  another :
      IsState rows rest (p ∷ stack) → (q : Option ℕ) → 1 ≤ on_stack q stack + with_id q rest → q ≢ p
  another st q h e =
      let one : 1 ≤ on_stack p stack + with_id p rest =
        subst (λ z. 1 ≤ on_stack z stack + with_id z rest) e h in
      omega (arith, popped st)

  not_children :
      (q : Option ℕ)
      → q ≢ p
      → (r : ContentPageDao) → is_child_of q r ≡ true
      → not (is_child_of p r) ≡ true
  not_children q other r h =
      ground (arith, same_id_iff r.parent_page_id q, same_id_iff r.parent_page_id p)

  still-Waits :
      IsState rows rest (p ∷ stack)
      → (r : ContentPageDao) → Waits (p ∷ stack) rest r × (not (is_child_of p r) ≡ true)
      → Waits pushed (rest_after p rest) r
  still-Waits st r (inl h, other) = inl (
      ground (
        arith,
        h,
        other,
        on_stack-pushed st r.parent_page_id,
        same_id_iff p r.parent_page_id,
        same_id_iff r.parent_page_id p,
      ))
  still-Waits st r (inr (q, e, below, h), other) =
      elim (Bool-cases (leb 1 (with_id (some q) (rest_after p rest)))) [
        | inl y ↦ inr (q, e, below, ground arith)
        | inr n ↦
            let here : 1 ≤ on_stack (some q) pushed =
              ground (arith, on_stack-pushed st (some q), with_id-split (some q) p rest) in
            inl (subst (λ z. 1 ≤ on_stack z pushed) (sym e) here)
      ]

  met_here :
      IsState rows rest (p ∷ stack) → filter (is_child_of p) rows ≡ filter (is_child_of p) rest
  met_here st = st.unmet p (ground (arith, (same_id_iff p p).1 refl))

  pub children-perm :
      IsState rows rest (p ∷ stack) → Perm (find_by_parent rows p) (filter (is_child_of p) rest)
  unfolding find_by_parent
  children-perm st =
      subst (λ z. Perm (sort_by order_leb (filter (is_child_of p) rows)) z) (met_here st)
        (sort_by-perm order_leb (filter (is_child_of p) rows))

  length-children :
      IsState rows rest (p ∷ stack)
      → length (find_by_parent rows p) ≡ length (filter (is_child_of p) rest)
  unfolding find_by_parent
  length-children st =
      length-sort_by order_leb (filter (is_child_of p) rows) ∙ ap length (met_here st)

  pub smaller :
      {n : ℕ}
      → IsState rows rest (p ∷ stack)
      → length (p ∷ stack) + length rest ≤ suc n
      → length pushed + length (rest_after p rest) ≤ n
  smaller st enough = omega (
    arith,
    length-push_ids stack (find_by_parent rows p),
    length-children st,
    length-split p rest,
  )

  -- A turn of the loop keeps the state.
  pub step-IsState : IsState rows rest (p ∷ stack) → IsState rows (rest_after p rest) pushed
  step-IsState st = record {
    once = λ q. ground (arith, st.once q, on_stack-pushed st q);
    unmet = λ q h.
        let open_before : 1 ≤ on_stack q stack + with_id q rest =
          ground (arith, h, on_stack-pushed st q) in
        st.unmet q (ground (arith, open_before))
        ∙ sym (
            filter-filter (is_child_of q) (λ r. not (is_child_of p r))
              (not_children q (another st q open_before)) rest);
    waits =
        All-map _ _ (still-Waits st) (rest_after p rest)
          (All-filter_keep (Waits (p ∷ stack) rest) (λ r. not (is_child_of p r)) rest st.waits);
  }

-- With the stack empty, a page that waits has an older one that waits.
none-Waits_above :
    (rest : List ContentPageDao) (q k : ℕ)
    → ((j : ℕ) → j < k → with_id (some j) rest ≡ 0)
    → q < suc k
    → (some_rest : List ContentPageDao) → All (Waits [] rest) some_rest
    → with_id (some q) some_rest ≡ 0
none-Waits_above rest q k ih below [] hs = refl
none-Waits_above rest q k ih below (r ∷ rs) (inl w, hs) = absurd (ground (arith, w))
none-Waits_above rest q k ih below (r ∷ rs) (inr (j, e, older, w), hs) =
    ground (arith, w, ih j, none-Waits_above rest q k ih below rs hs)

none-Waits :
    (rest : List ContentPageDao)
    → All (Waits [] rest) rest
    → (k q : ℕ) → q < k
    → with_id (some q) rest ≡ 0
none-Waits rest h zero q below = absurd (ground arith)
none-Waits rest h (suc k) q below = none-Waits_above rest q k (none-Waits rest h k) below rest h

pub rest_nil_of_Waits : (rest : List ContentPageDao) → All (Waits [] rest) rest → rest ≡ []
rest_nil_of_Waits [] h = refl
rest_nil_of_Waits (r ∷ rest) h =
    absurd (ground (arith, none-Waits (r ∷ rest) h (suc r.page_id) r.page_id))
