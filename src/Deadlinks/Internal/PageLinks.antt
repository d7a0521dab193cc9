-- ===== src/Deadlinks/Internal/PageLinks.antt =====
-- Links into the content tree, with the lookup of src/db/dao/content_pages.rs behind the query.
use hotchkiss_io.Base.{
  All, Bool, List, [], false, length, not, true, ℕ, ◌&&◌, ◌++◌, ◌==◌, ◌||◌, ◌∷◌, ◌≡◌, ◌≢◌,
}
use hotchkiss_io.Text.{Text, codes, is_empty, join, trim_end_matches}
use hotchkiss_io.Pages.{ContentPageDao}
use hotchkiss_io.Pages.Rows.{find_by_path}
use hotchkiss_io.Fallible.{Fallible, done}

-- The query of a site whose content tree is a table of pages.
abbrev pub pages_in : List ContentPageDao → List Text → Fallible ℕ
pages_in rows names = done (length (find_by_path rows names))

-- A segment of a path: not empty, and without the characters that end one.
abbrev segment_char : ℕ → Bool
segment_char c = not (c == b'/') && not (c == b'?' || c == b'#')

abbrev pub IsSegment : Text → Type 0
IsSegment s = (s ≢ []) × All (λ c. segment_char c ≡ true) s

abbrev joined : List Text → Text
joined names = join (codes "/") names

-- A link into the content tree, with the names that it asks for: those below /pages/, or those below
-- /blog/ behind the name of the blog; the feed is no page.
pub data IsPageLink : Text → List Text → Type 0 where
  below_pages :
      (s : Text) (segs : List Text)
      → All IsSegment (s ∷ segs)
      → IsPageLink (codes "/pages/" ++ join (codes "/") (s ∷ segs)) (s ∷ segs)
  below_blog :
      (s : Text) (segs : List Text)
      → All IsSegment (s ∷ segs)
      → join (codes "/") (s ∷ segs) ≢ codes "feed.xml"
      → IsPageLink (codes "/blog/" ++ join (codes "/") (s ∷ segs)) (codes "blog" ∷ s ∷ segs)

-- A text that ends in something else than a slash.
abbrev is_slash : ℕ → Bool
is_slash c = c == b'/'

EndsClean : Text → Type 0
EndsClean s = (is_empty s ≡ false) × (trim_end_matches is_slash s ≡ s)
