-- ===== src/Slug/Canonical.antt =====
-- Slugs are the texts that `slugify` leaves alone.
use hotchkiss_io.Base.{
  All, All-append, Bool, Bool-cases, Option, [], ap, append-nil, append_assoc, arith, false, filter,
  if◌then◌else◌, inl, inr, none, not, refl, some, sym, true, ℕ, ◌&&◌, ◌++◌, ◌<◌, ◌==◌, ◌||◌, ◌∙◌,
  ◌∷◌, ◌≡◌, ◌≢◌, ◌⊎◌,
}
use hotchkiss_io.Text.{
  Text, is_ascii_alphanumeric, is_ascii_digit, is_ascii_lowercase, is_ascii_uppercase, is_empty,
  is_whitespace, lower_char, trim, trim_end_matches, trim_start_matches,
}
use hotchkiss_io.Slug.{lower_all, slug_loop, slug_new, slugify}
use hotchkiss_io.Text.Trim.{trim_of_black}

-- Lowercase ASCII letters and digits, with single dashes between them; `inside` says that a letter
-- or a digit is just before.
abbrev pub slug_char : ℕ → Bool
slug_char c = is_ascii_alphanumeric c && not (is_ascii_uppercase c)

unfoldable pub well_formed : Bool → Text → Bool
well_formed inside [] = inside
well_formed inside (c ∷ s) =
    let rest = well_formed (slug_char c) s in
    if slug_char c then rest else (c == b'-') && (inside && rest)

abbrev pub IsSlug : Text → Type 0
IsSlug s = well_formed false s ≡ true

-- What Unicode says of the lowercase of a character: on ASCII it is ASCII's, and it has no ASCII
-- capital.
pub record IsLowercase (to_lowercase : ℕ → Text) : Type 0 where
  pub on_ascii : (c : ℕ) → c < 128 → to_lowercase c ≡ lower_char c ∷ []
  pub no_capital : (c : ℕ) → All (λ d. is_ascii_uppercase d ≡ false) (to_lowercase c)

-- The loop, as what it adds to the output.
added : Bool → Bool → Text → Text
added started pending [] = []
added started pending (c ∷ s) =
    let kept = added true false s in
    let skipped = added started (pending || started) s in
    if is_ascii_alphanumeric c then (if pending then b'-' ∷ c ∷ kept else c ∷ kept) else skipped

slug_loop-added :
    (s out : Text) (pending : Bool)
    → slug_loop out pending s ≡ out ++ added (not (is_empty out)) pending s
unfolding slug_loop added
slug_loop-added [] out pending = sym (append-nil out)
slug_loop-added (c ∷ s) out pending = elim (Bool-cases (is_ascii_alphanumeric c)) [
  | inl y ↦ rw y (
      slug_loop-added s (out ++ ((if pending then b'-' ∷ [] else []) ++ (c ∷ []))) false
      ∙ grown out pending)
  | inr n ↦ rw n (slug_loop-added s out (pending || not (is_empty out)))
]
  where
    grown :
        (out : Text) (pending : Bool)
        → (out ++ ((if pending then b'-' ∷ [] else []) ++ (c ∷ [])))
            ++ added
                (not (is_empty (out ++ ((if pending then b'-' ∷ [] else []) ++ (c ∷ [])))))
                false
                s
          ≡ out ++ (if pending then b'-' ∷ c ∷ added true false s else c ∷ added true false s)
    grown [] true = refl
    grown [] false = refl
    grown (d ∷ out) true = ap (◌∷◌ d) (append_assoc out _ _)
    grown (d ∷ out) false = ap (◌∷◌ d) (append_assoc out _ _)

-- What the loop adds behind a letter or a digit is well formed there; at the start it is empty or a
-- slug.
added-well_formed :
    (s : Text)
    → All (λ c. is_ascii_uppercase c ≡ false) s
    → (pending : Bool) → well_formed true (added true pending s) ≡ true
unfolding added well_formed
added-well_formed [] h pending = refl
added-well_formed (c ∷ s) (h, hs) pending =
    ground (arith, added-well_formed s hs false, added-well_formed s hs true)

added-IsSlug :
    (s : Text)
    → All (λ c. is_ascii_uppercase c ≡ false) s
    → is_empty (added false false s) || well_formed false (added false false s) ≡ true
unfolding added well_formed
added-IsSlug [] h = refl
added-IsSlug (c ∷ s) (h, hs) = ground (arith, added-IsSlug s hs, added-well_formed s hs false)

lower_all-no_capital :
    (to_lowercase : ℕ → Text)
    → ((c : ℕ) → All (λ d. is_ascii_uppercase d ≡ false) (to_lowercase c))
    → (s : Text) → All (λ d. is_ascii_uppercase d ≡ false) (lower_all to_lowercase s)
unfolding lower_all
lower_all-no_capital to_lowercase h [] = tt
lower_all-no_capital to_lowercase h (c ∷ s) =
    All-append _ (to_lowercase c) (lower_all to_lowercase s) (h c)
      (lower_all-no_capital to_lowercase h s)

dash_separates : is_ascii_alphanumeric b'-' ≡ false
unfolding is_ascii_alphanumeric is_ascii_digit is_ascii_lowercase is_ascii_uppercase
dash_separates = refl

-- A slug is its own lowercase, has no whitespace, and the loop adds it as it is.
added_of_well_formed :
    (s : Text) (inside : Bool)
    → well_formed inside s ≡ true
    → (inside ≡ true → added true false s ≡ s)
      × (inside ≡ false → (added false false s ≡ s) × (added true true s ≡ b'-' ∷ s))
unfolding added well_formed
added_of_well_formed [] inside h = ground arith
added_of_well_formed (c ∷ s) inside h =
    ground (arith, dash_separates, added_of_well_formed s true, added_of_well_formed s false)

slug_char-small : (c : ℕ) → slug_char c ≡ true → (c < 128) × (is_whitespace c ≡ false)
unfolding is_ascii_alphanumeric is_ascii_digit is_ascii_lowercase is_ascii_uppercase is_whitespace
slug_char-small c h = ground arith

slug_or_dash-small :
    (c : ℕ) → slug_char c || (c == b'-') ≡ true → (c < 128) × (is_whitespace c ≡ false)
unfolding is_whitespace
slug_or_dash-small c h = ground (arith, slug_char-small c)

lower_all_of_well_formed :
    (to_lowercase : ℕ → Text)
    → IsLowercase to_lowercase
    → (s : Text) (inside : Bool) → well_formed inside s ≡ true
    → (lower_all to_lowercase s ≡ s) × All (λ c. is_whitespace c ≡ false) s
unfolding lower_all well_formed lower_char
lower_all_of_well_formed to_lowercase low [] inside h = (refl, tt)
lower_all_of_well_formed to_lowercase low (c ∷ s) inside h =
    let (rest, black) = lower_all_of_well_formed to_lowercase low s (slug_char c) (ground arith) in
    let (small, visible) = slug_or_dash-small c (ground arith) in
    (rw (low.on_ascii c small, rest) (ap (λ d. d ∷ s) (ground arith)), (visible, black))

slugify_nil : (to_lowercase : ℕ → Text) → slugify to_lowercase [] ≡ []
unfolding slugify trim trim_start_matches trim_end_matches lower_all slug_loop
slugify_nil to_lowercase = refl

-- The letters and digits of a text.
abbrev pub letters : Text → Text
letters s = filter is_ascii_alphanumeric s

added-letters : (s : Text) (started pending : Bool) → letters (added started pending s) ≡ letters s
unfolding added
added-letters [] started pending = refl
added-letters (c ∷ s) started pending = elim (Bool-cases (is_ascii_alphanumeric c)) [
  | inl y ↦ rw y (kept pending y (added-letters s true false))
  | inr n ↦ rw n (added-letters s started (pending || started))
]
  where
    kept :
        (pending : Bool)
        → is_ascii_alphanumeric c ≡ true
        → letters (added true false s) ≡ letters s
        → letters (if pending then b'-' ∷ c ∷ added true false s else c ∷ added true false s)
          ≡ c ∷ letters s
    kept true y rest = rw dash_separates (rw y (ap (◌∷◌ c) rest))
    kept false y rest = rw y (ap (◌∷◌ c) rest)

slugify-letters :
    (to_lowercase : ℕ → Text) (title : Text)
    → letters (slugify to_lowercase title) ≡ letters (lower_all to_lowercase (trim title))
unfolding slugify
slugify-letters to_lowercase title =
    ap letters (slug_loop-added (lower_all to_lowercase (trim title)) [] false)
    ∙ added-letters (lower_all to_lowercase (trim title)) false false

-- A text that is well formed from its start has a letter or a digit.
has_letter : (s : Text) → well_formed false s ≡ true → letters s ≢ []
unfolding well_formed
has_letter [] h e = absurd (cc h)
has_letter (c ∷ s) h e = elim (Bool-cases (is_ascii_alphanumeric c)) [
  | inl y ↦ absurd (ground (arith, e, y))
  | inr n ↦ absurd (ground (arith, h, n))
]

-- What `Slug::new` may give for a title.
abbrev pub IsSlugOf : (ℕ → Text) → Text → Option Text → Type 0
IsSlugOf to_lowercase title none = letters (lower_all to_lowercase (trim title)) ≡ []
IsSlugOf to_lowercase title (some s) =
    IsSlug s
    × ((letters s ≡ letters (lower_all to_lowercase (trim title)))
        × (letters (lower_all to_lowercase (trim title)) ≢ []))

module _ (to_lowercase : ℕ → Text) (low : IsLowercase to_lowercase) where
  -- What `slugify` returns is empty or a slug: lowercase ASCII letters and digits, with single dashes
  -- between them only.
  pub slugify-IsSlug :
      (input : Text) → (slugify to_lowercase input ≡ []) ⊎ IsSlug (slugify to_lowercase input)
  unfolding slugify
  slugify-IsSlug input = rw (slug_loop-added (lower_all to_lowercase (trim input)) [] false) (
      cases _ (
        added-IsSlug (lower_all to_lowercase (trim input))
          (lower_all-no_capital to_lowercase low.no_capital (trim input))))
    where
      cases : (s : Text) → is_empty s || well_formed false s ≡ true → (s ≡ []) ⊎ IsSlug s
      cases [] h = inl refl
      cases (c ∷ s) h = inr h

  -- A slug is its own slug.
  pub slugify_of_IsSlug : (s : Text) → IsSlug s → slugify to_lowercase s ≡ s
  unfolding slugify
  slugify_of_IsSlug s h =
      let (lowered, black) = lower_all_of_well_formed to_lowercase low s false h in
      rw (trim_of_black s black, lowered)
        (slug_loop-added s [] false ∙ ((added_of_well_formed s false h).1 refl).0)

  -- `slugify` returns only texts that it leaves alone: making a slug twice is making it once.
  pub slugify_idem :
      (input : Text)
      → slugify to_lowercase (slugify to_lowercase input) ≡ slugify to_lowercase input
  slugify_idem input = elim (slugify-IsSlug input) [
    | inl e ↦ rw e (slugify_nil to_lowercase)
    | inr h ↦ slugify_of_IsSlug _ h
  ]

  -- `Slug::new` refuses exactly a title whose lowercase has no ASCII letter or digit; of any other it
  -- gives a slug with the same letters and digits in the same order.
  pub slug_new-IsSlugOf : (title : Text) → IsSlugOf to_lowercase title (slug_new to_lowercase title)
  unfolding slug_new
  slug_new-IsSlugOf title =
      made (slugify to_lowercase title) (slugify-IsSlug title) (slugify-letters to_lowercase title)
    where
      made :
          (s : Text)
          → (s ≡ []) ⊎ IsSlug s
          → letters s ≡ letters (lower_all to_lowercase (trim title))
          → IsSlugOf to_lowercase title (if is_empty s then none else some s)
      made [] h e = sym e
      made (c ∷ s) (inl n) e = absurd (cc n)
      made (c ∷ s) (inr h) e = (h, (e, λ n. has_letter (c ∷ s) h (e ∙ n)))
