-- ===== src/Deadlinks/Walk.antt =====
-- src/deadlinks/scan.rs, all_pages: every content page, from the roots. The stack's top is the head
-- of the list; the loop runs on fuel, one unit for each pop.
pub mod Total
pub mod Unmet
use hotchkiss_io.Base.{List, Option, [], length, none, some, suc, zero, ℕ, ◌++◌, ◌∷◌}
use hotchkiss_io.Pages.{ContentPageDao}
use hotchkiss_io.Pages.Rows.{find_by_parent}

-- `stack.push(Some(child.page_id))` for each child, in order.
unfoldable pub push_ids : List (Option ℕ) → List ContentPageDao → List (Option ℕ)
push_ids stack [] = stack
push_ids stack (child ∷ children) = push_ids (some child.page_id ∷ stack) children

-- `none` when the fuel ends before the stack is empty.
unfoldable pub walk :
    ℕ → List ContentPageDao → List (Option ℕ) → List ContentPageDao → Option (List ContentPageDao)
unfolding push_ids find_by_parent
walk fuel rows [] out = some out
walk zero rows (parent ∷ stack) out = none
walk (suc fuel) rows (parent ∷ stack) out =
    let children = find_by_parent rows parent in
    walk fuel rows (push_ids stack children) (out ++ children)

unfoldable pub all_pages : List ContentPageDao → Option (List ContentPageDao)
unfolding walk
all_pages rows = walk (suc (length rows)) rows (none ∷ []) []
