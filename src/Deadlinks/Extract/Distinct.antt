-- ===== src/Deadlinks/Extract/Distinct.antt =====
-- The list of a page's URLs.
use hotchkiss_io.Base.{
  All, All-append, Bool-cases, List, Option, [], arith, false, inl, inr, none, not, refl, some,
  ◌&&◌, ◌++◌, ◌||◌, ◌∙◌, ◌∷◌, ◌≡◌,
}
use hotchkiss_io.Text.{Text, is_empty, is_one_of, same, trim}
use hotchkiss_io.Text.Laws.{same_iff}
use hotchkiss_io.Deadlinks.Extract.{
  Node, Nodes, collect, collect_all, extract_links, more_nodes, no_nodes, node, push_url,
}
use hotchkiss_io.Text.Trim.{trim_idem}

-- Each URL is trimmed and not empty, and stands once.
abbrev pub IsUrl : Text → Type 0
IsUrl u = (trim u ≡ u) × (is_empty u ≡ false)

abbrev pub IsDistinct : List Text → Type 0
IsDistinct [] = Unit
IsDistinct (u ∷ us) = (is_one_of u us ≡ false) × IsDistinct us

is_one_of-snoc :
    (u v : Text) (us : List Text) → is_one_of u (us ++ v ∷ []) ≡ (is_one_of u us || same u v)
unfolding is_one_of
is_one_of-snoc u v [] = ground arith
is_one_of-snoc u v (w ∷ us) = ground (arith, is_one_of-snoc u v us)

IsDistinct-snoc :
    (us : List Text) (v : Text) → IsDistinct us → is_one_of v us ≡ false → IsDistinct (us ++ v ∷ [])
unfolding is_one_of
IsDistinct-snoc [] v d n = (refl, tt)
IsDistinct-snoc (u ∷ us) v (first, d) n = (
  is_one_of-snoc u v us ∙ rw first (ground (arith, n, same_iff u v, same_iff v u)),
  IsDistinct-snoc us v d (ground (arith, n)),
)

abbrev IsCollected : List Text → Type 0
IsCollected us = All IsUrl us × IsDistinct us

push_url-IsCollected :
    (url : Option Text) (us : List Text) → IsCollected us → IsCollected (push_url url us)
unfolding push_url
push_url-IsCollected none us h = h
push_url-IsCollected (some url) us (a, d) =
    elim (Bool-cases (not (is_empty (trim url)) && not (is_one_of (trim url) us))) [
      | inl y ↦ rw y (
        All-append IsUrl us (trim url ∷ []) a ((trim_idem url, ground (arith, y)), tt),
        IsDistinct-snoc us (trim url) d (ground (arith, y)),
      )
      | inr n ↦ rw n (a, d)
    ]

mutual
  unfolding collect collect_all

  collect-IsCollected : (n : Node) (us : List Text) → IsCollected us → IsCollected (collect n us)
  collect-IsCollected (node url children) us h =
      collect_all-IsCollected children (push_url url us) (push_url-IsCollected url us h)

  collect_all-IsCollected :
      (ns : Nodes) (us : List Text) → IsCollected us → IsCollected (collect_all ns us)
  collect_all-IsCollected no_nodes us h = h
  collect_all-IsCollected (more_nodes n ns) us h =
      collect_all-IsCollected ns (collect n us) (collect-IsCollected n us h)

-- The URLs extracted from a page are trimmed, not empty and pairwise distinct.
pub extract_links-IsDistinct :
    (to_mdast : Text → Option Node) (markdown : Text)
    → All IsUrl (extract_links to_mdast markdown) × IsDistinct (extract_links to_mdast markdown)
unfolding extract_links
extract_links-IsDistinct to_mdast markdown = of_parse (to_mdast markdown)
  where
    of_parse : (o : Option Node) → IsCollected (elim o [ none ↦ [] | some ast ↦ collect ast [] ])
    of_parse none = (tt, tt)
    of_parse (some ast) = collect-IsCollected ast [] (tt, tt)
