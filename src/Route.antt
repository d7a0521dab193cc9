-- ===== src/Route.antt =====
-- src/web/util/route.rs: the route that a path of the request log counts for.
pub mod Patterns
use hotchkiss_io.Base.{Bool, List, Option, [], false, if◌then◌else◌, none, not, some, ◌||◌, ◌∷◌}
use hotchkiss_io.Text.{Text, codes, is_empty, same, strip_prefix}

abbrev pub rules : List (Text × Text)
rules =
    (codes "/media/file/", codes "/media/file/:key")
    ∷ (codes "/media/embed/", codes "/media/embed/:ref")
    ∷ (codes "/media/", codes "/media/:ref")
    ∷ (codes "/diagram/", codes "/diagram/:hash")
    ∷ (codes "/pages/", codes "/pages/*")
    ∷ (codes "/admin/analytics/ip/", codes "/admin/analytics/ip/:ip")
    ∷ (codes "/admin/users/", codes "/admin/users/:id")
    ∷ (codes "/admin/api-keys/", codes "/admin/api-keys/:id")
    ∷ (codes "/admin/media/", codes "/admin/media/:id")
    ∷ []

abbrev some_text : Option Text → Bool
some_text none = false
some_text (some rest) = not (is_empty rest)

-- `path.strip_prefix(prefix).is_some_and(|rest| !rest.is_empty())`
abbrev pub goes_below : Text → Text → Bool
goes_below prefix path = some_text (strip_prefix prefix path)

unfoldable pub first_rule : List (Text × Text) → Text → Text
unfolding strip_prefix
first_rule [] path = path
first_rule ((prefix, shape) ∷ rest) path =
    let later = first_rule rest path in if goes_below prefix path then shape else later

unfoldable pub normalize_route : Text → Text
unfolding same strip_prefix first_rule
normalize_route path =
    if same path (codes "/blog") || same path (codes "/blog/feed.xml")
    then path
    else if goes_below (codes "/blog/") path
    then codes "/blog/:slug"
    else first_rule rules path
