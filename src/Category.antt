-- ===== src/Category.antt =====
-- src/web/util/category.rs: a page's category as a list of tags, and the tag that pins the page to
-- the landing page.
pub mod Toggle
use hotchkiss_io.Base.{
  Bool, List, Option, [], any, filter, if◌then◌else◌, map, none, not, some, ℕ, ◌++◌, ◌==◌, ◌∷◌,
}
use hotchkiss_io.Text.{Text, codes, is_empty, join, same, split, to_ascii_lowercase, trim}

unfoldable pub featured_tag : Text
featured_tag = codes "featured"

-- `eq_ignore_ascii_case`
unfoldable pub eq_ignore_ascii_case : Text → Text → Bool
unfolding to_ascii_lowercase same
eq_ignore_ascii_case s t = same (to_ascii_lowercase s) (to_ascii_lowercase t)

abbrev is_comma : ℕ → Bool
is_comma c = c == b','

unfoldable pub tags : Option Text → List Text
unfolding split trim
tags none = []
tags (some category) = filter (λ t. not (is_empty t)) (map trim (split is_comma category))

abbrev pub pins : Text → Bool
pins t = eq_ignore_ascii_case t featured_tag

unfoldable pub is_featured : Option Text → Bool
unfolding tags eq_ignore_ascii_case featured_tag
is_featured category = any pins (tags category)

unfoldable pub toggle_featured : Option Text → Option Text
unfolding tags eq_ignore_ascii_case featured_tag is_featured join
toggle_featured category =
    let kept = filter (λ t. not (pins t)) (tags category) in
    let shown = if is_featured category then kept else kept ++ (featured_tag ∷ []) in
    elim shown [ [] ↦ none | ◌∷◌ t ts ↦ some (join (codes ", ") (t ∷ ts)) ]
