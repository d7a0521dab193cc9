-- ===== src/Pages.antt =====
-- src/db/dao/content_pages.rs: a row of content_pages, its title and the gates of its visibility.
-- Instants are nanoseconds counted from a time before every date; ids and orders are `i64`.
pub mod Visible
pub mod Rows
pub mod Write
pub mod Handlers
pub mod Listing
pub mod Reorder
pub mod History
use hotchkiss_io.Base.{
  Bool, List, Option, [], if◌then◌else◌, leb, ltb, none, not, some, ℕ, ◌&&◌, ◌/◌, ◌==◌, ◌||◌, ◌∷◌,
}
use hotchkiss_io.Category
use hotchkiss_io.Roles
use hotchkiss_io.Text.{Text, codes, is_empty, same, split, strip_prefix, trim}
use hotchkiss_io.Roles.{Role, admin, from_stored, gate_rank, label, rank, same_role}

pub record ContentPageDao : Type 0 where
  pub page_id : ℕ
  pub parent_page_id : Option ℕ
  pub page_name : Text
  pub page_title : Option Text
  pub page_category : Option Text
  pub page_markdown : Text
  pub page_cover_attachment_id : Option ℕ
  pub page_order : ℕ
  pub page_creation_date : ℕ
  pub page_modified_date : ℕ
  pub special_page : Bool
  pub min_role : Option Text

-- `str::lines`, with the carriage returns left at the ends, which the one caller trims.
unfoldable pub text_lines : Text → List Text
unfolding split
text_lines s = split (λ c. c == 10) s

abbrev non_blank : Option Text → Option Text
non_blank none = none
non_blank (some t) = if is_empty (trim t) then none else some t

unfoldable pub heading_of : List Text → Option Text
unfolding trim strip_prefix
heading_of [] = none
heading_of (l ∷ ls) = elim (strip_prefix (codes "# ") (trim l)) [
  | some t ↦ some (trim t)
  | none ↦ heading_of ls
]

abbrev non_empty : Option Text → Option Text
non_empty none = none
non_empty (some t) = if is_empty t then none else some t

unfoldable pub first_h1 : Text → Option Text
unfolding text_lines heading_of
first_h1 markdown = non_empty (heading_of (text_lines markdown))

abbrev title_or : Option Text → Option Text → Text → Text
title_or (some t) heading name = t
title_or none (some t) name = t
title_or none none name = name

unfoldable pub display_title : ContentPageDao → Text
unfolding first_h1 trim
display_title p = title_or (non_blank p.page_title) (first_h1 p.page_markdown) p.page_name

unfoldable pub is_featured : ContentPageDao → Bool
unfolding Category.is_featured
is_featured p = Category.is_featured p.page_category

unfoldable pub is_scheduled : ℕ → ContentPageDao → Bool
is_scheduled now p = ltb now p.page_creation_date

unfoldable pub is_visible_to : ℕ → ContentPageDao → Role → Bool
unfolding is_scheduled Roles.is_visible_to from_stored
is_visible_to now p viewer =
    (p.special_page || (same_role viewer admin || not (is_scheduled now p)))
    && Roles.is_visible_to (from_stored p.min_role) viewer

unfoldable pub min_role_rank : ContentPageDao → ℕ
unfolding from_stored gate_rank
min_role_rank p = gate_rank (from_stored p.min_role)

unfoldable pub is_nav_visible_to : ℕ → ContentPageDao → Role → Bool
unfolding is_scheduled Roles.is_visible_to from_stored
is_nav_visible_to now p viewer =
    (p.special_page || not (is_scheduled now p))
    && Roles.is_visible_to (from_stored p.min_role) viewer

unfoldable pub visibility_label : ContentPageDao → Option Text
unfolding from_stored label
visibility_label p = label (from_stored p.min_role)

-- The SQL of the listings: instants to the second, and the rank of the stored gate as a CASE.
unfoldable pub sql_gate_rank : Option Text → ℕ
unfolding same
sql_gate_rank none = 0
sql_gate_rank (some r) =
    if same r (codes "Registered") then 1 else if same r (codes "Family") then 2 else 3

abbrev pub seconds : ℕ → ℕ
seconds t = t / 1000000000

unfoldable pub sql_visible : ℕ → ContentPageDao → Role → Bool
unfolding rank sql_gate_rank
sql_visible now p viewer =
    (same_role viewer admin || (p.special_page || leb (seconds p.page_creation_date) (seconds now)))
    && leb (sql_gate_rank p.min_role) (rank viewer)
