-- ===== src/Pages/Rows/Deletion.antt =====
-- What a deletion does to the table: the children of the deleted page become top-level pages.
use hotchkiss_io.Base.{
  All, All-In, Any, Bool, Bool-cases, In, List, [], any, ap, arith, false, filter, if◌then◌else◌,
  inl, inr, map, none, not, refl, some, subst, sym, true, ℕ, ◌&&◌, ◌==◌, ◌∙◌, ◌∷◌, ◌≡◌, ◌≢◌,
}
use hotchkiss_io.Pages.Rows.{ContentPages, deletable, delete, orphaned, same_id}
use hotchkiss_io.Pages.Rows.Effects.{
  DistinctIds, HasParent, IsForest, IsTable, NoTwins, Node, node_of, nodes, twins,
}
use hotchkiss_io.Pages.{ContentPageDao}

abbrev gone : ℕ → Node → Bool
gone i n = (n.id == i) && not n.special

abbrev lifted : ℕ → Node → Node
lifted i n = if same_id n.parent (some i) then record n { parent = none } else n

abbrev remaining : ℕ → List Node → List Node
remaining i ns = map (lifted i) (filter (λ n. not (gone i n)) ns)

delete-nodes :
    (i : ℕ) (rows : List ContentPageDao)
    → map node_of (map (orphaned i) (filter (λ r. not (deletable i r)) rows))
      ≡ remaining i (map node_of rows)
delete-nodes i [] = refl
delete-nodes i (r ∷ rows) = elim (Bool-cases (deletable i r)) [
  | inl y ↦ rw y (delete-nodes i rows)
  | inr n ↦ rw n (
      ap (◌∷◌ (node_of (orphaned i r))) (delete-nodes i rows)
      ∙ ap (λ m. m ∷ remaining i (map node_of rows))
          (sym (go (same_id r.parent_page_id (some i)) refl)))
]
  where
    go :
        (b : Bool)
        → same_id r.parent_page_id (some i) ≡ b
        → lifted i (node_of r) ≡ node_of (orphaned i r)
    go true e = rw e refl
    go false e = rw e refl

lifted-id : (i : ℕ) (n : Node) → (lifted i n).id ≡ n.id
lifted-id i n = go (same_id n.parent (some i)) refl
  where
    go : (b : Bool) → same_id n.parent (some i) ≡ b → (lifted i n).id ≡ n.id
    go true e = rw e refl
    go false e = rw e refl

All-remaining :
    (P Q : Node → Type 0) (i : ℕ)
    → ((n : Node) → gone i n ≡ false → P n → Q (lifted i n))
    → (ns : List Node) → All P ns
    → All Q (remaining i ns)
All-remaining P Q i step [] h = tt
All-remaining P Q i step (n ∷ ns) (hn, h) = elim (Bool-cases (gone i n)) [
  | inl y ↦ rw y (All-remaining P Q i step ns h)
  | inr k ↦ rw k (step n k hn, All-remaining P Q i step ns h)
]

Any-remaining :
    (i q : ℕ) (ns : List Node)
    → q ≢ i
    → Any (λ m. m.id ≡ q) ns
    → Any (λ m. m.id ≡ q) (remaining i ns)
Any-remaining i q (n ∷ ns) other (inl e) =
    let stays : gone i n ≡ false = ground (arith, e) in rw stays (inl (lifted-id i n ∙ e))
Any-remaining i q (n ∷ ns) other (inr m) = elim (Bool-cases (gone i n)) [
  | inl y ↦ rw y (Any-remaining i q ns other m)
  | inr k ↦ rw k (inr (Any-remaining i q ns other m))
]
Any-remaining i q [] other m = absurd m

DistinctIds-remaining : (i : ℕ) (ns : List Node) → DistinctIds ns → DistinctIds (remaining i ns)
DistinctIds-remaining i [] d = tt
DistinctIds-remaining i (n ∷ ns) (dn, d) = elim (Bool-cases (gone i n)) [
  | inl y ↦ rw y (DistinctIds-remaining i ns d)
  | inr k ↦ rw k (
    All-remaining _ _ i (λ m h ne. rw (lifted-id i m, lifted-id i n) ne) ns dn,
    DistinctIds-remaining i ns d,
  )
]

lifted-twins : (i : ℕ) (n m : Node) → twins n m ≡ false → twins (lifted i n) (lifted i m) ≡ false
lifted-twins i n m h = go (same_id n.parent (some i)) (same_id m.parent (some i)) refl refl
  where
    go :
        (a b : Bool)
        → same_id n.parent (some i) ≡ a
        → same_id m.parent (some i) ≡ b
        → twins (lifted i n) (lifted i m) ≡ false
    go true true e k = rw (e, k) refl
    go true false e k = rw (e, k) (ground arith)
    go false true e k = rw (e, k) refl
    go false false e k = rw (e, k) h

NoTwins-remaining : (i : ℕ) (ns : List Node) → NoTwins ns → NoTwins (remaining i ns)
NoTwins-remaining i [] d = tt
NoTwins-remaining i (n ∷ ns) (dn, d) = elim (Bool-cases (gone i n)) [
  | inl y ↦ rw y (NoTwins-remaining i ns d)
  | inr k ↦
      rw k (All-remaining _ _ i (λ m h ne. lifted-twins i n m ne) ns dn, NoTwins-remaining i ns d)
]

HasParent-remaining :
    (i : ℕ) (ns : List Node) (n : Node) → HasParent ns n → HasParent (remaining i ns) (lifted i n)
HasParent-remaining i ns n (inl e) =
    let stays : same_id n.parent (some i) ≡ false = rw e refl in rw stays (inl e)
HasParent-remaining i ns n (inr (q, e, below, there)) = elim (Bool-cases (q == i)) [
  | inl y ↦ let rises : same_id n.parent (some i) ≡ true = rw e y in rw rises (inl refl)
  | inr k ↦
      let stays : same_id n.parent (some i) ≡ false = rw e k in
      rw stays (inr (q, e, below, Any-remaining i q ns (ground (arith, k)) there))
]

-- A deletion leaves a forest: the children of the deleted page are at its root.
pub delete-IsTable : (t : ContentPages) (p : ContentPageDao) → IsTable t → IsTable (delete t p)
unfolding delete
delete-IsTable t p table = elim (Bool-cases (any (deletable p.page_id) t.rows)) [
  | inr n ↦ rw n table
  | inl y ↦ rw y (
      subst (IsForest t.last_id) (sym (delete-nodes p.page_id t.rows)) (record {
        bounded =
            All-remaining _ _ p.page_id (λ n k b. rw (lifted-id p.page_id n) b) (nodes t)
              table.bounded;
        distinct = DistinctIds-remaining p.page_id (nodes t) table.distinct;
        rooted =
            All-remaining _ _ p.page_id (λ n k. HasParent-remaining p.page_id (nodes t) n) (nodes t)
              table.rooted;
        no_twins = NoTwins-remaining p.page_id (nodes t) table.no_twins;
      }))
]

In-filter :
    {A : Type 0} (f : A → Bool) (x : A) (xs : List A) → f x ≡ true → In x xs → In x (filter f xs)
In-filter f x (y ∷ xs) h (inl e) = let passes : f y ≡ true = ap f e ∙ h in rw passes (inl e)
In-filter f x (y ∷ xs) h (inr i) = elim (Bool-cases (f y)) [
  | inl k ↦ rw k (inr (In-filter f x xs h i))
  | inr k ↦ rw k (In-filter f x xs h i)
]
In-filter f x [] h i = absurd i

In-map : {A B : Type 0} (f : A → B) (x : A) (xs : List A) → In x xs → In (f x) (map f xs)
In-map f x (y ∷ xs) (inl e) = inl (ap f e)
In-map f x (y ∷ xs) (inr i) = inr (In-map f x xs i)
In-map f x [] i = absurd i

any-In : {A : Type 0} (f : A → Bool) (x : A) (xs : List A) → f x ≡ true → In x xs → any f xs ≡ true
any-In f x (y ∷ xs) h (inl e) = let passes : f y ≡ true = ap f e ∙ h in rw passes refl
any-In f x (y ∷ xs) h (inr i) = ground (arith, any-In f x xs h i)
any-In f x [] h i = absurd i

own_parent :
    (t : ContentPages) (r p : ContentPageDao)
    → IsTable t
    → In r t.rows
    → r.parent_page_id ≡ some p.page_id
    → r.page_id ≢ p.page_id
own_parent t r p table there child e =
    elim (All-In (HasParent (nodes t)) (node_of r) (nodes t) table.rooted
      (In-map node_of r t.rows there)) [
        | inl root ↦ cc (root, child)
        | inr (q, parent, below, _) ↦ ground (arith, parent, child, below, e)
      ]

-- Deleting a page that is not special moves each of its children to the top level, with the gate
-- that the child itself has.
pub delete_lifts_children :
    (t : ContentPages) (p r : ContentPageDao)
    → IsTable t
    → In p t.rows
    → p.special_page ≡ false
    → In r t.rows
    → r.parent_page_id ≡ some p.page_id
    → In (record r { parent_page_id = none }) (delete t p).rows
delete_lifts_children t p r table p_there plain r_there child =
    let other : r.page_id ≢ p.page_id = own_parent t r p table r_there child in
    let found : any (deletable p.page_id) t.rows ≡ true =
      any-In (deletable p.page_id) p t.rows (ground (arith, plain)) p_there in
    let kept : not (deletable p.page_id r) ≡ true = ground (arith, other) in
    let lifted_here : same_id r.parent_page_id (some p.page_id) ≡ true = rw child (ground arith) in
    let moved : orphaned p.page_id r ≡ record r { parent_page_id = none } = go r lifted_here in
    unfold delete in
    rw found (
      subst
        (λ z. In z (map (orphaned p.page_id) (filter (λ q. not (deletable p.page_id q)) t.rows)))
        moved (In-map (orphaned p.page_id) r _ (In-filter _ r t.rows kept r_there)))
  where
    go :
        (r : ContentPageDao)
        → same_id r.parent_page_id (some p.page_id) ≡ true
        → orphaned p.page_id r ≡ record r { parent_page_id = none }
    go r e = ground (arith, e)
