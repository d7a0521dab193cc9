-- ===== src/Pages/Rows/Effects.antt =====
-- What the statements do to the table: the pages stay a forest.
use hotchkiss_io.Base.{
  All, All-append, All-map, Any, Bool, Bool-cases, List, Option, [], any, ap, arith, false, inl,
  inr, map, none, refl, some, subst, suc, sym, true, ℕ, ◌&&◌, ◌++◌, ◌<◌, ◌∷◌, ◌≡◌, ◌≢◌, ◌≤◌, ◌⊎◌,
}
use hotchkiss_io.Text.{Text, same}
use hotchkiss_io.Pages.Rows.{
  ContentPages, collides, create, equal_id, has_id, inserted, new_row, parent_exists, update_rows,
}
use hotchkiss_io.Text.Laws.{same_sym}
use hotchkiss_io.Pages.{ContentPageDao}

-- The columns that the tree of pages is made of.
pub record Node : Type 0 where
  pub id : ℕ
  pub parent : Option ℕ
  pub name : Text
  pub special : Bool

abbrev pub node_of : ContentPageDao → Node
node_of p = record {
  id = p.page_id;
  parent = p.parent_page_id;
  name = p.page_name;
  special = p.special_page;
}

abbrev pub nodes : ContentPages → List Node
nodes t = map node_of t.rows

abbrev pub DistinctIds : List Node → Type 0
DistinctIds [] = Unit
DistinctIds (n ∷ ns) = All (λ m. m.id ≢ n.id) ns × DistinctIds ns

abbrev pub twins : Node → Node → Bool
twins n m = equal_id m.parent n.parent && same m.name n.name

abbrev pub NoTwins : List Node → Type 0
NoTwins [] = Unit
NoTwins (n ∷ ns) = All (λ m. twins n m ≡ false) ns × NoTwins ns

-- At the root, or below a page of the table that is older.
abbrev pub HasParent : List Node → Node → Type 0
HasParent ns n =
    (n.parent ≡ none) ⊎ ((q : ℕ) × (n.parent ≡ some q) × (q < n.id) × Any (λ m. m.id ≡ q) ns)

-- Distinct ids up to the sequence's, parents that exist and are older, and no two pages of one name
-- below one parent.
pub record IsForest (last_id : ℕ) (ns : List Node) : Type 0 where
  pub bounded : All (λ n. n.id ≤ last_id) ns
  pub distinct : DistinctIds ns
  pub rooted : All (HasParent ns) ns
  pub no_twins : NoTwins ns

abbrev pub IsTable : ContentPages → Type 0
IsTable t = IsForest t.last_id (nodes t)

map-node_of-append :
    (rows : List ContentPageDao) (p : ContentPageDao)
    → map node_of (rows ++ (p ∷ [])) ≡ map node_of rows ++ (node_of p ∷ [])
map-node_of-append [] p = refl
map-node_of-append (r ∷ rows) p = ap (◌∷◌ (node_of r)) (map-node_of-append rows p)

Any-append_left : (P : Node → Type 0) (ns ms : List Node) → Any P ns → Any P (ns ++ ms)
Any-append_left P (n ∷ ns) ms (inl h) = inl h
Any-append_left P (n ∷ ns) ms (inr h) = inr (Any-append_left P ns ms h)
Any-append_left P [] ms h = absurd h

HasParent-append : (ns ms : List Node) (n : Node) → HasParent ns n → HasParent (ns ++ ms) n
HasParent-append ns ms n (inl h) = inl h
HasParent-append ns ms n (inr (q, e, below, h)) = inr (q, e, below, Any-append_left _ ns ms h)

DistinctIds-append :
    (ns : List Node) (n : Node)
    → DistinctIds ns
    → All (λ m. m.id < n.id) ns
    → DistinctIds (ns ++ (n ∷ []))
DistinctIds-append [] n d h = (tt, tt)
DistinctIds-append (m ∷ ns) n (dm, d) (hm, h) =
    (All-append _ ns (n ∷ []) dm (λ e. omega arith, tt), DistinctIds-append ns n d h)

NoTwins-append :
    (ns : List Node) (n : Node)
    → NoTwins ns
    → All (λ m. twins n m ≡ false) ns
    → NoTwins (ns ++ (n ∷ []))
NoTwins-append [] n d h = (tt, tt)
NoTwins-append (m ∷ ns) n (dm, d) (hm, h) =
    (All-append _ ns (n ∷ []) dm (twins_sym n m hm, tt), NoTwins-append ns n d h)
  where
    twins_sym : (n m : Node) → twins n m ≡ false → twins m n ≡ false
    twins_sym n m h = ground (arith, h, same_sym m.name n.name)

parent-HasParent :
    (rows : List ContentPageDao) (parent : Option ℕ) (n : Node) (last_id : ℕ)
    → parent_exists rows parent ≡ true
    → n.parent ≡ parent
    → last_id < n.id
    → All (λ m. m.id ≤ last_id) (map node_of rows)
    → HasParent (map node_of rows) n
parent-HasParent rows none n last_id h e above bounded = inl e
parent-HasParent rows (some q) n last_id h e above bounded =
    let found = find rows h in inr (q, e, below (map node_of rows) bounded found, found)
  where
    find :
        (rows : List ContentPageDao)
        → any (has_id q) rows ≡ true
        → Any (λ m. m.id ≡ q) (map node_of rows)
    find [] h = absurd (cc h)
    find (r ∷ rows) h = elim (Bool-cases (has_id q r)) [
      | inl y ↦ inl (ground arith)
      | inr k ↦ inr (find rows (ground (arith, h, k)))
    ]

    below : (ns : List Node) → All (λ m. m.id ≤ last_id) ns → Any (λ m. m.id ≡ q) ns → q < n.id
    below (m ∷ ns) (b, bs) (inl i) = omega (arith, above)
    below (m ∷ ns) (b, bs) (inr i) = below ns bs i
    below [] bs i = absurd i

no_collision-All :
    (rows : List ContentPageDao) (n : Node)
    → any (collides n.parent n.name) rows ≡ false
    → All (λ m. twins n m ≡ false) (map node_of rows)
no_collision-All [] n h = tt
no_collision-All (r ∷ rows) n h = (ground (arith, h), no_collision-All rows n (ground (arith, h)))

-- What an INSERT that succeeds has done.
pub record IsInserted (t : ContentPages) (parent : Option ℕ) (name : Text) (row : ContentPageDao)
    (u : ContentPages) (p : ContentPageDao) : Type 0 where
  pub row_is : p ≡ row
  pub table_is : u ≡ record t { rows = t.rows ++ (row ∷ []); last_id = suc t.last_id }
  pub no_collision : any (collides parent name) t.rows ≡ false
  pub parent_there : parent_exists t.rows parent ≡ true

pub create-IsInserted :
    (t : ContentPages) (now : ℕ) (parent : Option ℕ) (name : Text) (category : Option Text)
    (markdown : Text) (cover : Option ℕ) (u : ContentPages) (p : ContentPageDao)
    → create t now parent name category markdown cover ≡ inserted u p
    → IsInserted t parent name (new_row (suc t.last_id) now parent name category markdown cover) u p
unfolding create
create-IsInserted t now parent name category markdown cover u p h = record {
  row_is = ground arith;
  table_is = ground arith;
  no_collision = ground arith;
  parent_there = ground arith;
}

-- A page that the INSERT adds is a new leaf of the forest.
pub IsInserted-IsTable :
    (t : ContentPages) (parent : Option ℕ) (name : Text) (row : ContentPageDao) (u : ContentPages)
    (p : ContentPageDao)
    → IsTable t
    → IsInserted t parent name row u p
    → row.page_id ≡ suc t.last_id
    → row.parent_page_id ≡ parent
    → row.page_name ≡ name
    → IsTable u
IsInserted-IsTable t parent name row u p table i e_id e_parent e_name =
    subst IsTable (sym i.table_is)
      (subst (IsForest (suc t.last_id)) (sym (map-node_of-append t.rows row)) grown)
  where
    grown : IsForest (suc t.last_id) (nodes t ++ (node_of row ∷ []))
    grown = record {
      bounded =
          All-append _ (nodes t) (node_of row ∷ [])
            (All-map _ _ (λ n k. omega arith) (nodes t) table.bounded) (omega arith, tt);
      distinct =
          DistinctIds-append (nodes t) (node_of row) table.distinct
            (All-map _ _ (λ n k. omega arith) (nodes t) table.bounded);
      rooted =
          All-append _ (nodes t) (node_of row ∷ [])
            (All-map _ _ (λ n. HasParent-append (nodes t) _ n) (nodes t) table.rooted)
            (
              HasParent-append (nodes t) _ (node_of row) (
                  parent-HasParent t.rows parent (node_of row) t.last_id i.parent_there e_parent
                    (omega arith) table.bounded),
              tt,
            );
      no_twins =
          NoTwins-append (nodes t) (node_of row) table.no_twins
            (no_collision-All t.rows (node_of row) (rw (e_parent, e_name) i.no_collision));
    }

-- An UPDATE that leaves the tree's columns of the rows it meets leaves the forest.
pub update_rows-nodes :
    (i : ℕ) (f : ContentPageDao → ContentPageDao) (rows : List ContentPageDao)
    → All (λ r. has_id i r ≡ true → node_of (f r) ≡ node_of r) rows
    → map node_of (update_rows i f rows) ≡ map node_of rows
unfolding update_rows
update_rows-nodes i f [] h = refl
update_rows-nodes i f (r ∷ rows) (hr, h) = elim (Bool-cases (has_id i r)) [
  | inl y ↦ rw (y, hr y, update_rows-nodes i f rows h) refl
  | inr n ↦ rw (n, update_rows-nodes i f rows h) refl
]
