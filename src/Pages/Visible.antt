-- ===== src/Pages/Visible.antt =====
-- The visibility of a page: what its gates decide, in Rust, in the navigation and in SQL.
use hotchkiss_io.Base.{Option, arith, none, refl, some, true, ℕ, ◌%◌, ◌+◌, ◌↔◌, ◌≡◌, ◌≤◌, ◌⊎◌}
use hotchkiss_io.Text.{Text}
use hotchkiss_io.Roles
use hotchkiss_io.Pages
use hotchkiss_io.Pages.{
  ContentPageDao, is_nav_visible_to, is_scheduled, min_role_rank, sql_gate_rank, sql_visible,
}
use hotchkiss_io.Roles.{Role, admin, from_stored, gate_rank, rank, same_role}

-- The CASE of the SQL ranks every stored gate as the decode does, the unknown ones included.
pub sql_gate_rank-gate_rank :
    (stored : Option Text) → sql_gate_rank stored ≡ gate_rank (from_stored stored)
unfolding sql_gate_rank from_stored gate_rank rank
sql_gate_rank-gate_rank none = refl
sql_gate_rank-gate_rank (some r) = ground arith

same_role_iff : (r s : Role) → (same_role r s ≡ true) ↔ (r ≡ s)
same_role_iff r s = ground arith

-- Who may read a page at an instant: it is out or special, or the viewer is an admin, and the
-- viewer's rank reaches the gate's.
pub record MayReadPage (now : ℕ) (p : ContentPageDao) (viewer : Role) : Type 0 where
  pub published : (p.special_page ≡ true) ⊎ ((viewer ≡ admin) ⊎ (p.page_creation_date ≤ now))
  pub trusted : min_role_rank p ≤ rank viewer

-- A page is visible to a viewer exactly if the viewer may read it.
pub is_visible_to_iff :
    (now : ℕ) (p : ContentPageDao) (viewer : Role)
    → (Pages.is_visible_to now p viewer ≡ true) ↔ MayReadPage now p viewer
unfolding Pages.is_visible_to Roles.is_visible_to min_role_rank is_scheduled
is_visible_to_iff now p viewer = (
  λ h. record { published = ground (arith, same_role_iff viewer admin); trusted = ground arith },
  λ h. ground (arith, same_role_iff viewer admin, h.published, h.trusted),
)

-- The SQL of the listings and the gate in Rust agree on a page whose date is a whole second, at
-- every instant and for every viewer.
pub sql_visible-is_visible_to :
    (now : ℕ) (p : ContentPageDao) (viewer : Role)
    → p.page_creation_date % 1000000000 ≡ 0
    → sql_visible now p viewer ≡ Pages.is_visible_to now p viewer
unfolding sql_visible Pages.is_visible_to Roles.is_visible_to is_scheduled
sql_visible-is_visible_to now p viewer h = ground (arith, sql_gate_rank-gate_rank p.min_role)

-- A page that Rust shows, SQL lists; and what SQL lists but Rust hides goes out within the second.
pub sql_visible_within_second :
    (now : ℕ) (p : ContentPageDao) (viewer : Role)
    → (Pages.is_visible_to now p viewer ≡ true → sql_visible now p viewer ≡ true)
      × (sql_visible now p viewer ≡ true → Pages.is_visible_to (now + 999999999) p viewer ≡ true)
unfolding sql_visible Pages.is_visible_to Roles.is_visible_to is_scheduled
sql_visible_within_second now p viewer = ground (arith, sql_gate_rank-gate_rank p.min_role)

-- A tab of the navigation is shown to the readers of its page, drafts to nobody.
pub is_nav_visible_to_iff :
    (now : ℕ) (p : ContentPageDao) (viewer : Role)
    → (is_nav_visible_to now p viewer ≡ true) ↔ (
        (Pages.is_visible_to now p viewer ≡ true)
        × ((p.special_page ≡ true) ⊎ (p.page_creation_date ≤ now)))
unfolding is_nav_visible_to Pages.is_visible_to is_scheduled
is_nav_visible_to_iff now p viewer = ground arith
