-- ===== src/Slug.antt =====
-- src/web/util/slug.rs: the slug of a title. Unicode's table behind `char::to_lowercase` is a
-- parameter.
pub mod Canonical
use hotchkiss_io.Base.{Bool, Option, [], false, if◌then◌else◌, none, not, some, ℕ, ◌++◌, ◌||◌, ◌∷◌}
use hotchkiss_io.Text.{Text, is_ascii_alphanumeric, is_empty, trim}

-- `chars().flat_map(|c| c.to_lowercase())`
unfoldable pub lower_all : (ℕ → Text) → Text → Text
lower_all to_lowercase [] = []
lower_all to_lowercase (c ∷ s) = to_lowercase c ++ lower_all to_lowercase s

-- What one character does to the output and to the pending dash.
abbrev pub pushed : Text → Bool → ℕ → Text
pushed out pending_dash c =
    if is_ascii_alphanumeric c
    then out ++ ((if pending_dash then b'-' ∷ [] else []) ++ (c ∷ []))
    else out

abbrev pub dash_after : Text → Bool → ℕ → Bool
dash_after out pending_dash c =
    if is_ascii_alphanumeric c then false else pending_dash || not (is_empty out)

unfoldable pub slug_loop : Text → Bool → Text → Text
slug_loop out pending_dash [] = out
slug_loop out pending_dash (c ∷ s) =
    slug_loop (pushed out pending_dash c) (dash_after out pending_dash c) s

unfoldable pub slugify : (ℕ → Text) → Text → Text
unfolding lower_all slug_loop
slugify to_lowercase input = slug_loop [] false (lower_all to_lowercase (trim input))

-- `Slug::new`
unfoldable pub slug_new : (ℕ → Text) → Text → Option Text
unfolding slugify
slug_new to_lowercase title =
    let s = slugify to_lowercase title in if is_empty s then none else some s
