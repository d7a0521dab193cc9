-- ===== src/Base/Lists.antt =====
-- Lists counted by native numbers, and the predicates and tests over lists.
use Prim.Native.Nat.{ℕ, zero, suc, ◌+◌, ◌≤◌}
use mathlib.Core.Path.{◌≡◌, refl, ap, subst}
use mathlib.Core.Logic.{◌↔◌, ◌⊎◌, inl, inr}
use mathlib.Core.Bool.{Bool, true, false, ◌&&◌, ◌||◌}
use mathlib.Core.List.{List, [], ◌∷◌, ◌++◌}
use native.Mathlib.Omega.{arith}
use hotchkiss_io.Base.Tests.{if◌then◌else◌, Bool-cases}

module _ {ℓ} {A : Type ℓ} where
  abbrev pub length : List A → ℕ
  length [] = 0
  length (x ∷ xs) = suc (length xs)

  pub length-append : (xs ys : List A) → length (xs ++ ys) ≡ length xs + length ys
  length-append [] ys = omega arith
  length-append (x ∷ xs) ys = omega (arith, length-append xs ys)

  abbrev pub all : (A → Bool) → List A → Bool
  all p [] = true
  all p (x ∷ xs) = p x && all p xs

  abbrev pub any : (A → Bool) → List A → Bool
  any p [] = false
  any p (x ∷ xs) = p x || any p xs

  abbrev pub filter : (A → Bool) → List A → List A
  filter p [] = []
  filter p (x ∷ xs) = if p x then x ∷ filter p xs else filter p xs

  -- `Iterator::take(n)` and `Vec::truncate(n)`
  abbrev pub take : ℕ → List A → List A
  take zero xs = []
  take (suc n) [] = []
  take (suc n) (x ∷ xs) = x ∷ take n xs

  pub length-filter-le : (p : A → Bool) (xs : List A) → length (filter p xs) ≤ length xs
  length-filter-le p [] = omega arith
  length-filter-le p (x ∷ xs) = ground (arith, length-filter-le p xs)

  pub filter_idem : (p : A → Bool) (xs : List A) → filter p (filter p xs) ≡ filter p xs
  filter_idem p [] = refl
  filter_idem p (x ∷ xs) = elim (Bool-cases (p x)) [
    | inl y ↦ rw y (rw y (ap (◌∷◌ x) (filter_idem p xs)))
    | inr n ↦ rw n (filter_idem p xs)
  ]

  -- Filtering by a weaker test first changes nothing.
  pub filter-filter :
      (p q : A → Bool)
      → ((x : A) → p x ≡ true → q x ≡ true)
      → (xs : List A) → filter p (filter q xs) ≡ filter p xs
  filter-filter p q h [] = refl
  filter-filter p q h (x ∷ xs) = elim (Bool-cases (q x)) [
    | inl y ↦ rw y (ground (arith, filter-filter p q h xs))
    | inr n ↦ rw n (ground (arith, filter-filter p q h xs, h x))
  ]

module _ {ℓ κ} {A : Type ℓ} (P : A → Type κ) where
  abbrev pub All : List A → Type κ
  All [] = Unit
  All (x ∷ xs) = P x × All xs

  pub All-append : (xs ys : List A) → All xs → All ys → All (xs ++ ys)
  All-append [] ys _ hy = hy
  All-append (x ∷ xs) ys (px, hx) hy = (px, All-append xs ys hx hy)

  pub All-of_pointwise : ((x : A) → P x) → (xs : List A) → All xs
  All-of_pointwise h [] = tt
  All-of_pointwise h (x ∷ xs) = (h x, All-of_pointwise h xs)

  pub All-filter : (p : A → Bool) → ((x : A) → p x ≡ true → P x) → (xs : List A) → All (filter p xs)
  All-filter p h [] = tt
  All-filter p h (x ∷ xs) = elim (Bool-cases (p x)) [
    | inl y ↦ rw y (h x y, All-filter p h xs)
    | inr n ↦ rw n (All-filter p h xs)
  ]

-- Some element satisfies `P`, with the place kept.
abbrev pub Any : {A : Type 0} → (A → Type 0) → List A → Type 0
Any P [] = ⊥
Any P (x ∷ xs) = P x ⊎ Any P xs

-- `a` stands in the list.
abbrev pub In : {A : Type 0} → A → List A → Type 0
In a = Any (λ x. x ≡ a)

pub All-In : {A : Type 0} (P : A → Type 0) (a : A) (xs : List A) → All P xs → In a xs → P a
All-In P a (x ∷ xs) (p, h) (inl e) = subst P e p
All-In P a (x ∷ xs) (p, h) (inr m) = All-In P a xs h m
All-In P a [] h m = absurd m

pub any_iff :
    {A : Type 0} (p : A → Bool) (xs : List A) → (any p xs ≡ true) ↔ Any (λ x. p x ≡ true) xs
any_iff p [] = (λ h. ground arith, λ h. absurd h)
any_iff p (x ∷ xs) = elim (Bool-cases (p x)) [
  | inl y ↦ rw y (λ h. inl refl, λ h. refl)
  | inr n ↦
      rw n (λ h. inr ((any_iff p xs).0 h), λ h. elim h [ inl e ↦ cc | inr m ↦ (any_iff p xs).1 m ])
]

module _ {ℓ} {A : Type ℓ} where
  pub all_sound : (p : A → Bool) (xs : List A) → all p xs ≡ true → All (λ x. p x ≡ true) xs
  all_sound p [] h = tt
  all_sound p (x ∷ xs) h = (ground arith, all_sound p xs (ground arith))

  pub any-filter :
      (p q : A → Bool)
      → ((x : A) → p x ≡ true → q x ≡ true)
      → (xs : List A) → any p (filter q xs) ≡ any p xs
  any-filter p q h [] = refl
  any-filter p q h (x ∷ xs) = elim (Bool-cases (q x)) [
    | inl y ↦ rw y (ground (arith, any-filter p q h xs))
    | inr n ↦ rw n (ground (arith, any-filter p q h xs, h x))
  ]

  -- Nothing that the filter keeps passes the test.
  pub any-filter_none :
      (p q : A → Bool)
      → ((x : A) → p x ≡ true → q x ≡ false)
      → (xs : List A) → any p (filter q xs) ≡ false
  any-filter_none p q h [] = refl
  any-filter_none p q h (x ∷ xs) = elim (Bool-cases (q x)) [
    | inl y ↦ rw y (ground (arith, any-filter_none p q h xs, h x))
    | inr n ↦ rw n (any-filter_none p q h xs)
  ]

  pub any-filter_le :
      (p q : A → Bool) (xs : List A) → any p xs ≡ false → any p (filter q xs) ≡ false
  any-filter_le p q [] h = refl
  any-filter_le p q (x ∷ xs) h = ground (arith, any-filter_le p q xs)

pub All-map :
    {A : Type 0} (P Q : A → Type 0) → ((x : A) → P x → Q x) → (xs : List A) → All P xs → All Q xs
All-map P Q h [] p = tt
All-map P Q h (x ∷ xs) (p, ps) = (h x p, All-map P Q h xs ps)

-- `ORDER BY`: a stable insertion sort.
module _ {ℓ} {A : Type ℓ} (le : A → A → Bool) where
  unfoldable pub insert_by : A → List A → List A
  insert_by x [] = x ∷ []
  insert_by x (y ∷ ys) = if le x y then x ∷ y ∷ ys else y ∷ insert_by x ys

  unfoldable pub sort_by : List A → List A
  unfolding insert_by
  sort_by [] = []
  sort_by (x ∷ xs) = insert_by x (sort_by xs)

  length-filter-insert_by :
      (p : A → Bool) (x : A) (xs : List A)
      → length (filter p (insert_by x xs)) ≡ length (filter p (x ∷ xs))
  unfolding insert_by
  length-filter-insert_by p x [] = refl
  length-filter-insert_by p x (y ∷ xs) = ground (arith, length-filter-insert_by p x xs)

  -- Sorting changes no count.
  pub length-filter-sort_by :
      (p : A → Bool) (xs : List A) → length (filter p (sort_by xs)) ≡ length (filter p xs)
  unfolding sort_by
  length-filter-sort_by p [] = refl
  length-filter-sort_by p (x ∷ xs) =
      ground (arith, length-filter-insert_by p x (sort_by xs), length-filter-sort_by p xs)

-- What is kept satisfies what everything did, and the test.
pub All-filter_keep :
    {A : Type 0} (P : A → Type 0) (p : A → Bool) (xs : List A)
    → All P xs
    → All (λ x. P x × (p x ≡ true)) (filter p xs)
All-filter_keep P p [] h = tt
All-filter_keep P p (x ∷ xs) (px, h) = elim (Bool-cases (p x)) [
  | inl y ↦ rw y ((px, y), All-filter_keep P p xs h)
  | inr n ↦ rw n (All-filter_keep P p xs h)
]

pub All-filter_sub :
    {A : Type 0} (P : A → Type 0) (p : A → Bool) (xs : List A) → All P xs → All P (filter p xs)
All-filter_sub P p xs h =
    All-map (λ x. P x × (p x ≡ true)) P (λ x k. k.0) _ (All-filter_keep P p xs h)
