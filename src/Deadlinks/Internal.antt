-- ===== src/Deadlinks/Internal.antt =====
-- src/deadlinks/internal.rs: a link into this site, resolved in the database. The queries are
-- parameters: whether a media variant or a media reference exists, and how many pages of a path the
-- content tree has (all or none).
pub mod Existence
pub mod PageLinks
use hotchkiss_io.Base.{
  Bool, List, Option, [], filter, if◌then◌else◌, is_some, length, ltb, none, not, some, ℕ, ◌==◌,
  ◌>>=◌, ◌||◌, ◌∷◌,
}
use hotchkiss_io.Text.{
  Text, codes, is_empty, is_one_of, split, strip_prefix, take_while, trim_end_matches,
}
use hotchkiss_io.Fallible.{Fallible, done, failed, found}
use hotchkiss_io.Deadlinks.Class.{InternalVerdict, link_dead, link_ok, link_unknown}

pub record Site : Type 0 where
  pub has_variant : Text → Fallible Bool
  pub has_ref : Text → Fallible Bool
  pub pages_found : List Text → Fallible ℕ

abbrev pub ok_exact : List Text
ok_exact =
    codes "/"
    ∷ codes "/blog"
    ∷ codes "/projects"
    ∷ codes "/3d"
    ∷ codes "/3d/editor"
    ∷ codes "/library"
    ∷ codes "/library/audiobooks"
    ∷ codes "/resume"
    ∷ codes "/resume.pdf"
    ∷ codes "/login"
    ∷ codes "/feed.xml"
    ∷ codes "/blog/feed.xml"
    ∷ codes "/sitemap.xml"
    ∷ codes "/robots.txt"
    ∷ []

unfoldable pub hit_or_dead : Bool → InternalVerdict
hit_or_dead hit = if hit then link_ok else link_dead

abbrev hit_of : Fallible Bool → Fallible InternalVerdict
hit_of failed = failed
hit_of (done hit) = done (hit_or_dead hit)

abbrev hit_of_length : ℕ → Fallible ℕ → Fallible InternalVerdict
hit_of_length n failed = failed
hit_of_length n (done found) = done (hit_or_dead (found == n))

unfoldable pub split_segments : Text → List Text
split_segments s = filter (λ seg. not (is_empty seg)) (split (λ c. c == b'/') s)

-- What is behind a prefix, if there is anything.
unfoldable pub rest_of : Text → Text → Option Text
rest_of prefix path = do rest ← strip_prefix prefix path; if is_empty rest then none else some rest

abbrev or_try : Option Text → Option Text → Option Text
or_try (some r) o = some r
or_try none o = o

abbrev non_empty : Option Text → Option Text
non_empty none = none
non_empty (some s) = if is_empty s then none else some s

-- The segments that the content tree is asked for: those under the blog, or from the root.
unfoldable pub tree_segments : Text → Option (List Text)
unfolding split_segments
tree_segments path = elim (strip_prefix (codes "/blog/") path) [
  | some rest ↦ some (codes "blog" ∷ split_segments rest)
  | none ↦ elim (strip_prefix (codes "/pages/") path) [
    | some rest ↦ some (split_segments rest)
    | none ↦ none
  ]
]

unfoldable pub resolve_tree : Site → Option (List Text) → Fallible InternalVerdict
unfolding hit_or_dead
resolve_tree site none = done link_unknown
resolve_tree site (some []) = done link_unknown
resolve_tree site (some (s ∷ segs)) =
    hit_of_length (length (s ∷ segs)) (site.pages_found (s ∷ segs))

unfoldable pub resolve_media : Site → Text → Fallible InternalVerdict
unfolding hit_or_dead tree_segments resolve_tree
resolve_media site path = elim (strip_prefix (codes "/media/file/") path) [
  | some url_key ↦ hit_of (site.has_variant url_key)
  | none ↦
      elim (non_empty (
        or_try (strip_prefix (codes "/media/embed/") path) (strip_prefix (codes "/media/") path))) [
          | some media_ref ↦ hit_of (site.has_ref media_ref)
          | none ↦ resolve_tree site (tree_segments path)
        ]
]

unfoldable pub resolve_path : Site → Text → Fallible InternalVerdict
unfolding rest_of resolve_media
resolve_path site path =
    if is_one_of path ok_exact
    then done link_ok
    else if is_some (rest_of (codes "/projects/") path) || is_some (rest_of (codes "/3d/") path)
    then done link_dead
    else resolve_media site path

-- Without the query and the fragment, and without slashes at the end.
unfoldable pub bare_path : Text → Text
unfolding take_while trim_end_matches
bare_path raw_path =
    let path : Text = take_while (λ c. not (c == b'?' || c == b'#')) raw_path in
    if ltb 1 (length path) then trim_end_matches (λ c. c == b'/') path else path

unfoldable pub resolve_internal : Site → Text → Fallible InternalVerdict
unfolding bare_path resolve_path
resolve_internal site raw_path = resolve_path site (bare_path raw_path)
