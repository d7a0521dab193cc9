-- ===== src/Deadlinks/Walk/Total.antt =====
-- The walk ends, and meets every page once.
use mathlib.Core.List.{Perm}
use mathlib.Core.List.Perm
use hotchkiss_io.Base.{
  All, Any, Bool-cases, List, Option, [], ap, append-nil, append_assoc, arith, inl, inr, length,
  map, none, refl, some, subst, suc, sym, zero, ℕ, ◌++◌, ◌+◌, ◌==◌, ◌∙◌, ◌∷◌, ◌≡◌, ◌≢◌, ◌≤◌,
}
use hotchkiss_io.Pages.{ContentPageDao}
use hotchkiss_io.Pages.Rows.{ContentPages, find_by_parent, is_child_of}
use hotchkiss_io.Deadlinks.Walk.{all_pages, push_ids, walk}
use hotchkiss_io.Pages.Rows.Effects.{DistinctIds, HasParent, IsTable, node_of}
use hotchkiss_io.Sorting.{partition-perm}
use hotchkiss_io.Deadlinks.Walk.Unmet.{
  IsState, Waits, children-perm, on_stack, rest_after, rest_nil_of_Waits, smaller, step-IsState,
  with_id,
}

-- With fuel for the stack and the pages not met, the walk ends and adds exactly these.
walk-total :
    (n : ℕ) (rows rest : List ContentPageDao) (stack : List (Option ℕ)) (out : List ContentPageDao)
    → IsState rows rest stack
    → length stack + length rest ≤ n
    → (met : List ContentPageDao) × (walk n rows stack out ≡ some (out ++ met)) × Perm met rest
unfolding walk
walk-total n rows rest [] out st enough =
    ([], done_walk n, subst (Perm []) (sym (rest_nil_of_Waits rest st.waits)) Perm.rfl)
  where
    done_walk : (n : ℕ) → walk n rows [] out ≡ some (out ++ [])
    done_walk zero = ap some (sym (append-nil out))
    done_walk (suc n) = ap some (sym (append-nil out))
walk-total zero rows rest (p ∷ stack) out st enough = absurd (omega arith)
walk-total (suc n) rows rest (p ∷ stack) out st enough =
    let children = find_by_parent rows p in
    let (met, e, perm) =
      walk-total n rows (rest_after p rest) (push_ids stack children) (out ++ children)
        (step-IsState rows rest p stack st) (smaller rows rest p stack st enough) in
    (
      children ++ met,
      e ∙ ap some (append_assoc out children met),
      Perm.trans (Perm.append (children-perm rows rest p stack st) perm)
          (partition-perm (is_child_of p) rest),
    )

parents_wait :
    (rows some_rows : List ContentPageDao)
    → All (HasParent (map node_of rows)) (map node_of some_rows)
    → All (Waits (none ∷ []) rows) some_rows
parents_wait rows [] h = tt
parents_wait rows (r ∷ rs) (hr, h) = (one hr, parents_wait rows rs h)
  where
    counted :
        (q : ℕ) (rows : List ContentPageDao)
        → Any (λ m. m.id ≡ q) (map node_of rows)
        → 1 ≤ with_id (some q) rows
    counted q (r ∷ rows) (inl e) = ground (arith, e)
    counted q (r ∷ rows) (inr m) = ground (arith, counted q rows m)
    counted q [] m = absurd m

    one : HasParent (map node_of rows) (node_of r) → Waits (none ∷ []) rows r
    one (inl e) = inl (rw e (omega arith))
    one (inr (q, e, below, m)) = inr (q, e, below, counted q rows m)

-- On a table of pages, the walk of the dead-link scan ends within one turn for each page and one more
-- and gives every page exactly once, in some order.
pub all_pages-total :
    (t : ContentPages)
    → IsTable t
    → (out : List ContentPageDao) × (all_pages t.rows ≡ some out) × Perm out t.rows
unfolding all_pages
all_pages-total t table =
    walk-total (suc (length t.rows)) t.rows t.rows (none ∷ []) []
      (record {
        once = once_at_start t.rows table.distinct;
        unmet = λ q h. refl;
        waits = parents_wait t.rows t.rows table.rooted;
      })
      (omega arith)
  where
    fresh :
        (q : ℕ) (rows : List ContentPageDao)
        → All (λ m. m.id ≢ q) (map node_of rows)
        → with_id (some q) rows ≡ 0
    fresh q [] h = refl
    fresh q (r ∷ rows) (hr, h) = ground (arith, hr, fresh q rows h)

    at_most_one :
        (q : ℕ) (rows : List ContentPageDao)
        → DistinctIds (map node_of rows)
        → with_id (some q) rows ≤ 1
    at_most_one q [] d = omega arith
    at_most_one q (r ∷ rows) (dr, d) = elim (Bool-cases (r.page_id == q)) [
      | inl y ↦ ground (
        arith,
        fresh q rows (subst (λ z. All (λ m. m.id ≢ z) (map node_of rows)) (ground arith) dr),
      )
      | inr n ↦ ground (arith, at_most_one q rows d)
    ]

    no_root_id : (rows : List ContentPageDao) → with_id none rows ≡ 0
    no_root_id [] = refl
    no_root_id (r ∷ rows) = no_root_id rows

    once_at_start :
        (rows : List ContentPageDao)
        → DistinctIds (map node_of rows)
        → (q : Option ℕ) → on_stack q (none ∷ []) + with_id q rows ≤ 1
    once_at_start rows d none = omega (arith, no_root_id rows)
    once_at_start rows d (some q) = omega (arith, at_most_one q rows d)
