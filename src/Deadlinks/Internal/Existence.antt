-- ===== src/Deadlinks/Internal/Existence.antt =====
-- What an internal link's verdict depends on.
use hotchkiss_io.Base.{
  Bool, In, List, [], arith, false, inl, inr, length, not, refl, some, ℕ, ◌++◌, ◌==◌, ◌||◌, ◌∷◌,
  ◌≡◌, ◌≢◌, ◌⊎◌,
}
use hotchkiss_io.Text.{Text, codes, take_while}
use hotchkiss_io.Fallible.{Fallible, done}
use hotchkiss_io.Deadlinks.Internal.{Site, bare_path, resolve_internal, tree_segments}

take_while-append :
    (p : ℕ → Bool) (s t : Text) (c : ℕ) → p c ≡ false → take_while p (s ++ (c ∷ t)) ≡ take_while p s
unfolding take_while
take_while-append p [] t c n = rw n refl
take_while-append p (d ∷ s) t c n = ground (arith, take_while-append p s t c n)

-- A query or a fragment behind a link changes nothing about its verdict.
pub resolve_internal-suffix :
    (site : Site) (path rest : Text) (c : ℕ)
    → (c ≡ b'?') ⊎ (c ≡ b'#')
    → resolve_internal site (path ++ (c ∷ rest)) ≡ resolve_internal site path
unfolding resolve_internal bare_path
resolve_internal-suffix site path rest c d =
    let stops : not (c == b'?' || c == b'#') ≡ false = elim d [
      | inl e ↦ rw e refl
      | inr e ↦ rw e refl
    ] in
    rw (take_while-append (λ c. not (c == b'?' || c == b'#')) path rest c stops) refl

-- The routes of the site that are no pages of the content tree.
abbrev pub site_routes : List Text
site_routes =
    codes "/"
    ∷ codes "/login"
    ∷ codes "/resume"
    ∷ codes "/resume.pdf"
    ∷ codes "/blog"
    ∷ codes "/blog/feed.xml"
    ∷ codes "/feed.xml"
    ∷ codes "/sitemap.xml"
    ∷ codes "/robots.txt"
    ∷ codes "/projects"
    ∷ codes "/library"
    ∷ codes "/library/audiobooks"
    ∷ codes "/3d"
    ∷ codes "/3d/editor"
    ∷ []

-- The answers of the database that a verdict of dead can rest on.
pub data DeadGrounds (site : Site) (path : Text) : Type 0 where
  dead_shape :
      (prefix rest : Text)
      → In prefix (codes "/projects/" ∷ codes "/3d/" ∷ [])
      → path ≡ prefix ++ rest
      → rest ≢ []
      → DeadGrounds site path
  no_variant :
      (url_key : Text)
      → path ≡ codes "/media/file/" ++ url_key
      → site.has_variant url_key ≡ done false
      → DeadGrounds site path
  no_media :
      (prefix media_ref : Text)
      → In prefix (codes "/media/embed/" ∷ codes "/media/" ∷ [])
      → path ≡ prefix ++ media_ref
      → site.has_ref media_ref ≡ done false
      → DeadGrounds site path
  no_page :
      (segs : List Text) (count : ℕ)
      → tree_segments path ≡ some segs
      → site.pages_found segs ≡ done count
      → count ≢ length segs
      → DeadGrounds site path
