-- ===== src/Pages/Reorder/Effects.antt =====
-- What the page administration does.
use hotchkiss_io.Base.{
  All, All-of_pointwise, Bool-cases, List, [], any, arith, inl, inr, refl, some, true, ℕ, ◌%◌, ◌+◌,
  ◌==◌, ◌^◌, ◌∙◌, ◌∷◌, ◌≡◌,
}
use hotchkiss_io.Pages.Rows.{ContentPages, set_order}
use hotchkiss_io.Pages.Rows.Effects.{nodes, update_rows-nodes}
use hotchkiss_io.Pages.Reorder.{set_orders}

pub set_orders-nodes :
    (allowed ids : List ℕ) (order : ℕ) (t u : ContentPages)
    → set_orders allowed order ids t ≡ some u
    → (nodes u ≡ nodes t)
      × (u.last_id ≡ t.last_id)
      × All (λ i. any (λ a. a == i) allowed ≡ true) ids
unfolding set_orders set_order
set_orders-nodes allowed [] order t u h = (ground (arith, h), ground (arith, h), tt)
set_orders-nodes allowed (i ∷ ids) order t u h = elim (Bool-cases (any (λ a. a == i) allowed)) [
  | inr n ↦ absurd (ground (arith, h, n))
  | inl y ↦
      let (e, k, member) =
        set_orders-nodes allowed ids ((order + 1) % 2 ^ 64) (set_order t i order) u
          (unfold set_order in ground (arith, h, y)) in
      (e ∙ update_rows-nodes i _ t.rows (All-of_pointwise _ (λ r l. refl) t.rows), k, (y, member))
]
