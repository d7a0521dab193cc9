-- ===== src/Text/Laws.antt =====
-- What the text functions decide.
use hotchkiss_io.Base.{
  All, Bool, Bool-cases, In, List, Option-cases, [], ap, arith, false, inl, inr, refl, some, true,
  ℕ, ◌++◌, ◌↔◌, ◌∷◌, ◌≡◌,
}
use hotchkiss_io.Text.{
  Text, contains, ends_with, is_one_of, same, split, starts_with, strip_prefix, take_while,
  text_leb,
}

pub same_iff : (s t : Text) → (same s t ≡ true) ↔ (s ≡ t)
unfolding same
same_iff (a ∷ s) (b ∷ t) = ground (arith, same_iff s t)
same_iff _ _ = ground arith

pub same_refl : (s : Text) → same s s ≡ true
same_refl s = (same_iff s s).1 refl

pub same_sym : (s t : Text) → same s t ≡ same t s
unfolding same
same_sym (a ∷ s) (b ∷ t) = ground (arith, same_sym s t)
same_sym [] [] = refl
same_sym _ _ = refl

pub is_one_of_iff : (s : Text) (ts : List Text) → (is_one_of s ts ≡ true) ↔ In s ts
unfolding is_one_of
is_one_of_iff s [] = (λ h. ground arith, λ h. absurd h)
is_one_of_iff s (t ∷ ts) = ground (arith, same_iff s t, is_one_of_iff s ts)

-- `strip_prefix` succeeds exactly on the texts that the prefix begins, with the rest.
pub strip_prefix_iff : (p s r : Text) → (strip_prefix p s ≡ some r) ↔ (s ≡ p ++ r)
unfolding strip_prefix
strip_prefix_iff [] s r = ground arith
strip_prefix_iff (p ∷ ps) [] r = ground arith
strip_prefix_iff (p ∷ ps) (c ∷ s) r = ground (arith, strip_prefix_iff ps s r)

pub strip_prefix-append : (p r : Text) → strip_prefix p (p ++ r) ≡ some r
strip_prefix-append p r = (strip_prefix_iff p (p ++ r) r).1 refl

pub starts_with_iff : (p s : Text) → (starts_with p s ≡ true) ↔ ((r : Text) × (s ≡ p ++ r))
starts_with_iff p s = elim (Option-cases (strip_prefix p s)) [
  | inl e ↦ rw e (λ h. absurd (cc h), λ (r, q). cc (e, (strip_prefix_iff p s r).1 q))
  | inr (r, e) ↦ rw e (λ h. (r, (strip_prefix_iff p s r).0 e), λ h. refl)
]

-- `contains` finds an occurrence: the text splits around the pattern.
pub contains_sound : (p s : Text) → contains p s ≡ true → (a b : Text) × (s ≡ a ++ (p ++ b))
unfolding contains
contains_sound p [] h = let (b, e) = (starts_with_iff p []).0 h in ([], b, e)
contains_sound p (c ∷ s) h = elim (Bool-cases (starts_with p (c ∷ s))) [
  | inl y ↦ let (b, e) = (starts_with_iff p (c ∷ s)).0 y in ([], b, e)
  | inr n ↦ let (a, b, e) = contains_sound p s (ground arith) in (c ∷ a, b, ap (◌∷◌ c) e)
]

pub contains_complete : (p a b : Text) → contains p (a ++ (p ++ b)) ≡ true
unfolding contains
contains_complete [] [] [] = refl
contains_complete [] [] (c ∷ b) = refl
contains_complete (x ∷ p) [] b = ground (arith, strip_prefix-append (x ∷ p) b)
contains_complete p (c ∷ a) b = ground (arith, contains_complete p a b)

pub ends_with-append : (a p : Text) → ends_with p (a ++ p) ≡ true
unfolding ends_with
ends_with-append [] [] = refl
ends_with-append [] (c ∷ p) = ground (arith, same_refl (c ∷ p))
ends_with-append (c ∷ a) p = ground (arith, ends_with-append a p)

-- `ends_with` finds the suffix at the end.
pub ends_with_sound : (p s : Text) → ends_with p s ≡ true → (a : Text) × (s ≡ a ++ p)
unfolding ends_with
ends_with_sound p [] h = ([], ground (arith, same_iff p []))
ends_with_sound p (c ∷ s) h = elim (Bool-cases (same p (c ∷ s))) [
  | inl y ↦ ([], ground (arith, same_iff p (c ∷ s)))
  | inr n ↦ let (a, e) = ends_with_sound p s (ground arith) in (c ∷ a, ap (◌∷◌ c) e)
]

-- What `take_while` keeps passes the test, all of it.
pub take_while-All : (p : ℕ → Bool) (s : Text) → All (λ c. p c ≡ true) (take_while p s)
unfolding take_while
take_while-All p [] = tt
take_while-All p (c ∷ s) = elim (Bool-cases (p c)) [
  | inl y ↦ rw y (y, take_while-All p s)
  | inr n ↦ rw n tt
]

pub text_leb_total : (s t : Text) → text_leb s t ≡ false → text_leb t s ≡ true
unfolding text_leb
text_leb_total [] t h = absurd (cc h)
text_leb_total (a ∷ s) [] h = refl
text_leb_total (a ∷ s) (b ∷ t) h = ground (arith, h, text_leb_total s t)

pub text_leb_trans :
    (s t u : Text) → text_leb s t ≡ true → text_leb t u ≡ true → text_leb s u ≡ true
unfolding text_leb
text_leb_trans [] t u h k = refl
text_leb_trans (a ∷ s) [] u h k = absurd (cc h)
text_leb_trans (a ∷ s) (b ∷ t) [] h k = absurd (cc k)
text_leb_trans (a ∷ s) (b ∷ t) (c ∷ u) h k = ground (arith, h, k, text_leb_trans s t u)

-- A text without a separator is one part, and with one behind it, the first part.
pub split_whole : (d : ℕ → Bool) (s : Text) → All (λ c. d c ≡ false) s → split d s ≡ s ∷ []
unfolding split
split_whole d [] a = refl
split_whole d (c ∷ s) (n, a) = rw n (rw (split_whole d s a) refl)

pub split-append :
    (d : ℕ → Bool) (s rest : Text) (c : ℕ)
    → All (λ x. d x ≡ false) s
    → d c ≡ true
    → split d (s ++ (c ∷ rest)) ≡ s ∷ split d rest
unfolding split
split-append d [] rest c a y = rw y refl
split-append d (x ∷ s) rest c (n, a) y = rw n (rw (split-append d s rest c a y) refl)
