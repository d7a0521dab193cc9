-- ===== src/Deadlinks/Extract.antt =====
-- src/deadlinks/extract.rs: the URLs of a page. `to_mdast` is the markdown crate's parser, `none`
-- for its errors and its panics; of a node the code reads the URL of a link, an image or a
-- definition, and the children.
pub mod Distinct
use hotchkiss_io.Base.{List, Option, [], if◌then◌else◌, none, not, some, ◌&&◌, ◌++◌, ◌∷◌}
use hotchkiss_io.Text.{Text, is_empty, is_one_of, trim}

mutual
  pub data Node : Type 0 where
    node : Option Text → Nodes → Node

  pub data Nodes : Type 0 where
    no_nodes : Nodes
    more_nodes : Node → Nodes → Nodes

-- A URL trimmed, and pushed if it is not empty and not there.
unfoldable pub push_url : Option Text → List Text → List Text
unfolding trim
push_url none urls = urls
push_url (some url) urls =
    let u : Text = trim url in
    if not (is_empty u) && not (is_one_of u urls) then urls ++ u ∷ [] else urls

unfoldable mutual
  unfolding push_url

  pub collect : Node → List Text → List Text
  collect (node url children) urls = collect_all children (push_url url urls)

  pub collect_all : Nodes → List Text → List Text
  collect_all no_nodes urls = urls
  collect_all (more_nodes n ns) urls = collect_all ns (collect n urls)

unfoldable pub extract_links : (Text → Option Node) → Text → List Text
unfolding collect
extract_links to_mdast markdown = elim (to_mdast markdown) [ none ↦ [] | some ast ↦ collect ast [] ]
