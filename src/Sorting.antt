-- ===== src/Sorting.antt =====
-- What `ORDER BY` and filters rearrange: lemmas on permutations that the components share.
use mathlib.Core.List.{Perm, perm_middle}
use mathlib.Core.List.Perm
use hotchkiss_io.Base.{
  All, All-map, Bool, Bool-cases, List, [], arith, false, filter, inl, inr, insert_by, length, not,
  refl, sort_by, suc, true, ◌++◌, ◌∷◌, ◌≡◌,
}

insert_by-perm :
    {A : Type 0} (le : A → A → Bool) (x : A) (xs : List A) → Perm (insert_by le x xs) (x ∷ xs)
unfolding insert_by
insert_by-perm le x [] = Perm.rfl
insert_by-perm le x (y ∷ xs) = elim (Bool-cases (le x y)) [
  | inl h ↦ rw h Perm.rfl
  | inr n ↦ rw n (Perm.trans (Perm.cons y (insert_by-perm le x xs)) (Perm.swap x y xs))
]

pub sort_by-perm : {A : Type 0} (le : A → A → Bool) (xs : List A) → Perm (sort_by le xs) xs
unfolding sort_by
sort_by-perm le [] = Perm.rfl
sort_by-perm le (x ∷ xs) =
    Perm.trans (insert_by-perm le x (sort_by le xs)) (Perm.cons x (sort_by-perm le xs))

length-insert_by :
    {A : Type 0} (le : A → A → Bool) (x : A) (xs : List A)
    → length (insert_by le x xs) ≡ suc (length xs)
unfolding insert_by
length-insert_by le x [] = refl
length-insert_by le x (y ∷ xs) = ground (arith, length-insert_by le x xs)

pub length-sort_by :
    {A : Type 0} (le : A → A → Bool) (xs : List A) → length (sort_by le xs) ≡ length xs
unfolding sort_by
length-sort_by le [] = refl
length-sort_by le (x ∷ xs) =
    omega (arith, length-insert_by le x (sort_by le xs), length-sort_by le xs)

pub partition-perm :
    {A : Type 0} (p : A → Bool) (xs : List A) → Perm (filter p xs ++ filter (λ x. not (p x)) xs) xs
partition-perm p [] = Perm.rfl
partition-perm p (x ∷ xs) = elim (Bool-cases (p x)) [
  | inl y ↦ rw y (Perm.cons x (partition-perm p xs))
  | inr n ↦ rw n (
      Perm.trans (perm_middle (filter p xs) (filter (λ z. not (p z)) xs))
        (Perm.cons x (partition-perm p xs)))
]

-- Every element is below those behind it.
All-insert_by :
    {A : Type 0} (P : A → Type 0) (le : A → A → Bool) (x : A) (xs : List A)
    → P x
    → All P xs
    → All P (insert_by le x xs)
unfolding insert_by
All-insert_by P le x [] px h = (px, tt)
All-insert_by P le x (y ∷ xs) px (py, h) = elim (Bool-cases (le x y)) [
  | inl k ↦ rw k (px, (py, h))
  | inr k ↦ rw k (py, All-insert_by P le x xs px h)
]

pub All-sort_by :
    {A : Type 0} (P : A → Type 0) (le : A → A → Bool) (xs : List A)
    → All P xs
    → All P (sort_by le xs)
unfolding sort_by
All-sort_by P le [] h = tt
All-sort_by P le (x ∷ xs) (px, h) = All-insert_by P le x (sort_by le xs) px (All-sort_by P le xs h)

module _ {A : Type 0} (le : A → A → Bool) where
  abbrev pub IsAscending : List A → Type 0
  IsAscending [] = Unit
  IsAscending (x ∷ xs) = All (λ y. le x y ≡ true) xs × IsAscending xs

  pub IsAscending-append :
      (xs ys : List A) → IsAscending (xs ++ ys) → All (λ x. All (λ y. le x y ≡ true) ys) xs
  IsAscending-append [] ys h = tt
  IsAscending-append (x ∷ xs) ys (below, h) = (right xs below, IsAscending-append xs ys h)
    where
      right : (zs : List A) → All (λ y. le x y ≡ true) (zs ++ ys) → All (λ y. le x y ≡ true) ys
      right [] k = k
      right (z ∷ zs) (_, k) = right zs k

  module _ (total : (x y : A) → le x y ≡ false → le y x ≡ true)
      (trans : (x y z : A) → le x y ≡ true → le y z ≡ true → le x z ≡ true) where
    All-insert_by_below :
        (b x : A) (xs : List A)
        → le b x ≡ true
        → All (λ y. le b y ≡ true) xs
        → All (λ y. le b y ≡ true) (insert_by le x xs)
    unfolding insert_by
    All-insert_by_below b x [] h k = (h, tt)
    All-insert_by_below b x (y ∷ xs) h (hy, k) = elim (Bool-cases (le x y)) [
      | inl e ↦ rw e (h, (hy, k))
      | inr e ↦ rw e (hy, All-insert_by_below b x xs h k)
    ]

    insert_by-IsAscending : (x : A) (xs : List A) → IsAscending xs → IsAscending (insert_by le x xs)
    unfolding insert_by
    insert_by-IsAscending x [] h = (tt, tt)
    insert_by-IsAscending x (y ∷ xs) (below, h) = elim (Bool-cases (le x y)) [
      | inl e ↦ rw e ((e, All-map _ _ (λ z k. trans x y z e k) xs below), (below, h))
      | inr e ↦ rw e (All-insert_by_below y x xs (total x y e) below, insert_by-IsAscending x xs h)
    ]

    pub sort_by-IsAscending : (xs : List A) → IsAscending (sort_by le xs)
    unfolding sort_by
    sort_by-IsAscending [] = tt
    sort_by-IsAscending (x ∷ xs) = insert_by-IsAscending x (sort_by le xs) (sort_by-IsAscending xs)
