-- ===== src/Pages/Rows/Path.antt =====
-- Looking a path up: what is found, and what a new leaf changes.
use hotchkiss_io.Base.{
  All, All-filter_keep, All-map, Bool, Bool-cases, In, List, Option, Option-cases, [], any, ap,
  arith, false, filter, inl, inr, insert_by, none, refl, some, sort_by, subst, sym, true, ℕ, ◌++◌,
  ◌↔◌, ◌∷◌, ◌≡◌,
}
use hotchkiss_io.Text.{Text}
use hotchkiss_io.Pages.{ContentPageDao}
use hotchkiss_io.Pages.Rows.{
  collides, equal_id, find_by_name, first, named, order_leb, path_from, same_id,
}
use hotchkiss_io.Text.Laws.{same_iff, same_refl}
use hotchkiss_io.Pages.Write.{last}
use hotchkiss_io.Sorting.{All-sort_by}

-- The nodes below a parent that the names of a path lead to.
abbrev pub IsChain : List ContentPageDao → Option ℕ → List Text → List ContentPageDao → Type 0
IsChain rows parent [] [] = Unit
IsChain rows parent (name ∷ names) (p ∷ ps) =
    In p rows
    × (p.parent_page_id ≡ parent)
    × (p.page_name ≡ name)
    × IsChain rows (some p.page_id) names ps
IsChain rows parent _ _ = ⊥

All-In_self : {A : Type 0} (xs : List A) → All (λ x. In x xs) xs
All-In_self [] = tt
All-In_self (x ∷ xs) = (inl refl, All-map _ _ (λ y i. inr i) xs (All-In_self xs))

pub same_id_iff : (a b : Option ℕ) → (same_id a b ≡ true) ↔ (a ≡ b)
same_id_iff none none = ground arith
same_id_iff none (some b) = ground arith
same_id_iff (some a) none = ground arith
same_id_iff (some a) (some b) = ground arith

same_id_sound : (a b : Option ℕ) → same_id a b ≡ true → a ≡ b
same_id_sound a b h = (same_id_iff a b).0 h

pub find_by_name_sound :
    (rows : List ContentPageDao) (parent : Option ℕ) (name : Text) (p : ContentPageDao)
    → find_by_name rows parent name ≡ some p
    → In p rows × (p.parent_page_id ≡ parent) × (p.page_name ≡ name)
unfolding find_by_name
find_by_name_sound rows parent name p h =
    let (i, n) =
      head (sort_by order_leb (filter (named parent name) rows))
        (All-sort_by _ order_leb (filter (named parent name) rows)
          (All-filter_keep (λ r. In r rows) (named parent name) rows (All-In_self rows)))
        h in
    (
      i,
      same_id_sound p.parent_page_id parent (ground (arith, n)),
      (same_iff p.page_name name).0 (ground (arith, n)),
    )
  where
    head :
        (ps : List ContentPageDao)
        → All (λ r. In r rows × (named parent name r ≡ true)) ps
        → first ps ≡ some p
        → In p rows × (named parent name p ≡ true)
    head [] hs e = absurd (cc e)
    head (q ∷ ps) (hq, hs) e =
        subst (λ r. In r rows × (named parent name r ≡ true)) (ground (arith, e)) hq

-- What the lookup of a path finds is a chain of rows from the parent down.
pub path_from-IsChain :
    (rows : List ContentPageDao) (parent : Option ℕ) (names : List Text) (ps : List ContentPageDao)
    → path_from rows parent names ≡ some ps
    → IsChain rows parent names ps
unfolding path_from
path_from-IsChain rows parent [] [] h = tt
path_from-IsChain rows parent [] (p ∷ ps) h = absurd (cc h)
path_from-IsChain rows parent (name ∷ names) ps h =
    elim (Option-cases (find_by_name rows parent name)) [
      | inl e ↦ absurd (cc (h, e))
      | inr (p, e) ↦ elim (Option-cases (path_from rows (some p.page_id) names)) [
        | inl k ↦ absurd (cc (h, e, k))
        | inr (qs, k) ↦
            let all_of : p ∷ qs ≡ ps = ground (arith, h, e, k) in
            subst (IsChain rows parent (name ∷ names)) all_of (
              (find_by_name_sound rows parent name p e).0,
              (find_by_name_sound rows parent name p e).1,
              (find_by_name_sound rows parent name p e).2,
              path_from-IsChain rows (some p.page_id) names qs k,
            )
      ]
    ]

-- The parent that the nodes of a path lead to.
abbrev pub end_of : Option ℕ → List ContentPageDao → Option ℕ
end_of parent [] = parent
end_of parent (p ∷ ps) = end_of (some p.page_id) ps

pub path_from-snoc :
    (rows : List ContentPageDao) (parent : Option ℕ) (names : List Text) (ps : List ContentPageDao)
    (name : Text) (p : ContentPageDao)
    → path_from rows parent names ≡ some ps
    → find_by_name rows (end_of parent ps) name ≡ some p
    → path_from rows parent (names ++ (name ∷ [])) ≡ some (ps ++ (p ∷ []))
unfolding path_from
path_from-snoc rows parent [] [] name p h e = rw e refl
path_from-snoc rows parent [] (q ∷ ps) name p h e = absurd (cc h)
path_from-snoc rows parent (n ∷ names) ps name p h e =
    elim (Option-cases (find_by_name rows parent n)) [
      | inl k ↦ absurd (cc (h, k))
      | inr (q, k) ↦ elim (Option-cases (path_from rows (some q.page_id) names)) [
        | inl l ↦ absurd (cc (h, k, l))
        | inr (qs, l) ↦
            let all_of : q ∷ qs ≡ ps = ground (arith, h, k, l) in
            let deeper =
              path_from-snoc rows (some q.page_id) names qs name p l
                (subst (λ z. find_by_name rows (end_of parent z) name ≡ some p) (sym all_of) e) in
            rw (k, deeper) (ap (λ z. some (z ++ (p ∷ []))) all_of)
      ]
    ]

filter-append_false :
    {A : Type 0} (f : A → Bool) (xs : List A) (x : A)
    → f x ≡ false
    → filter f (xs ++ (x ∷ [])) ≡ filter f xs
filter-append_false f [] x h = rw h refl
filter-append_false f (y ∷ xs) x h = ground (arith, filter-append_false f xs x h)

filter-append_true :
    {A : Type 0} (f : A → Bool) (xs : List A) (x : A)
    → filter f xs ≡ []
    → f x ≡ true
    → filter f (xs ++ (x ∷ [])) ≡ x ∷ []
filter-append_true f [] x e h = rw h refl
filter-append_true f (y ∷ xs) x e h = ground (arith, filter-append_true f xs x, e, h)

-- A new row answers to its own name, if no row did, and changes no other lookup.
module _ (rows : List ContentPageDao) (row : ContentPageDao) where
  abbrev grown : List ContentPageDao
  grown = rows ++ (row ∷ [])

  abbrev IsNew : Type 0
  IsNew = filter (named row.parent_page_id row.page_name) rows ≡ []

  pub find_by_name-grown : IsNew → find_by_name grown row.parent_page_id row.page_name ≡ some row
  unfolding find_by_name sort_by insert_by
  find_by_name-grown new =
      rw (filter-append_true (named row.parent_page_id row.page_name) rows row new own) refl
    where
      own : named row.parent_page_id row.page_name row ≡ true
      own = ground (
        arith,
        same_refl row.page_name,
        (same_id_iff row.parent_page_id row.parent_page_id).1 refl,
      )

  find_by_name_kept :
      (parent : Option ℕ) (name : Text) (p : ContentPageDao)
      → IsNew
      → find_by_name rows parent name ≡ some p
      → find_by_name grown parent name ≡ some p
  unfolding find_by_name sort_by
  find_by_name_kept parent name p new h = elim (Bool-cases (named parent name row)) [
    | inr n ↦ rw (filter-append_false (named parent name) rows row n) h
    | inl y ↦ absurd (
        missing (
          same_id_sound row.parent_page_id parent (ground (arith, y)),
          (same_iff row.page_name name).0 (ground (arith, y)),
        ))
  ]
    where
      missing : (row.parent_page_id ≡ parent) × (row.page_name ≡ name) → ⊥
      missing (e, k) =
          let none_there : filter (named parent name) rows ≡ [] =
            subst (λ z. filter (named z name) rows ≡ []) e
              (subst (λ z. filter (named row.parent_page_id z) rows ≡ []) k new) in
          cc (h, none_there)

  pub path_from_kept :
      IsNew
      → (parent : Option ℕ) (names : List Text) (ps : List ContentPageDao)
      → path_from rows parent names ≡ some ps
      → path_from grown parent names ≡ some ps
  unfolding path_from
  path_from_kept new parent [] ps h = h
  path_from_kept new parent (n ∷ names) ps h = elim (Option-cases (find_by_name rows parent n)) [
    | inl k ↦ absurd (cc (h, k))
    | inr (q, k) ↦ elim (Option-cases (path_from rows (some q.page_id) names)) [
      | inl l ↦ absurd (cc (h, k, l))
      | inr (qs, l) ↦
          let all_of : q ∷ qs ≡ ps = ground (arith, h, k, l) in
          rw (find_by_name_kept parent n q new k, path_from_kept new (some q.page_id) names qs l)
            (ap some all_of)
    ]
  ]

-- Below a page, a row that violates no UNIQUE is new.
equal_id-same_id : (a : Option ℕ) (q : ℕ) → equal_id a (some q) ≡ same_id a (some q)
equal_id-same_id none q = refl
equal_id-same_id (some a) q = refl

pub no_collision-nil :
    (rows : List ContentPageDao) (q : ℕ) (name : Text)
    → any (collides (some q) name) rows ≡ false
    → filter (named (some q) name) rows ≡ []
no_collision-nil [] q name h = refl
no_collision-nil (r ∷ rows) q name h = elim (Bool-cases (named (some q) name r)) [
  | inr n ↦ rw n (no_collision-nil rows q name (ground (arith, h)))
  | inl y ↦ absurd (ground (arith, h, y, equal_id-same_id r.parent_page_id q))
]

pub IsChain-last :
    (rows : List ContentPageDao) (parent : Option ℕ) (names : List Text) (ps : List ContentPageDao)
    (p : ContentPageDao)
    → IsChain rows parent names ps
    → last ps ≡ some p
    → In p rows
IsChain-last rows parent (n ∷ []) (q ∷ []) p (i, _, _, h) e =
    subst (λ z. In z rows) (ground (arith, e)) i
IsChain-last rows parent (n ∷ names) (q ∷ r ∷ ps) p (i, _, _, h) e =
    IsChain-last rows (some q.page_id) names (r ∷ ps) p h e
IsChain-last rows parent [] [] p h e = absurd (cc e)
IsChain-last rows parent [] (q ∷ ps) p h e = absurd h
IsChain-last rows parent (n ∷ names) [] p h e = absurd h
IsChain-last rows parent (n ∷ m ∷ names) (q ∷ []) p h e = absurd h.3
