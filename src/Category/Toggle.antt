-- ===== src/Category/Toggle.antt =====
-- What toggling the pin does to the tags.
use hotchkiss_io.Base.{
  All, All-append, All-filter_sub, Bool, Bool-cases, List, Option, [], any, any-filter_none, ap,
  arith, false, filter, if◌then◌else◌, inl, inr, map, none, not, refl, some, sym, true, ℕ, ◌&&◌,
  ◌++◌, ◌∙◌, ◌∷◌, ◌≡◌,
}
use hotchkiss_io.Text.{
  Text, codes, is_empty, is_whitespace, join, push_head, split, to_ascii_lowercase, trim,
  trim_end_matches, trim_start_matches,
}
use hotchkiss_io.Category.{
  eq_ignore_ascii_case, featured_tag, is_comma, is_featured, pins, tags, toggle_featured,
}
use hotchkiss_io.Text.Trim.{trim_idem}
use hotchkiss_io.Text.Laws.{same_refl}

-- A tag of a category: some text without a comma or whitespace around it.
pub record IsTag (t : Text) : Type 0 where
  pub no_comma : All (λ c. is_comma c ≡ false) t
  pub trimmed : trim t ≡ t
  pub some_text : is_empty t ≡ false

-- The pieces of a split have no separator, and trimming adds none.
split-All : (d : ℕ → Bool) (s : Text) → All (λ t. All (λ c. d c ≡ false) t) (split d s)
unfolding split
split-All d [] = (tt, tt)
split-All d (c ∷ s) = elim (Bool-cases (d c)) [
  | inl y ↦ rw y (tt, split-All d s)
  | inr n ↦ rw n (pushed (split d s) n (split-All d s))
]
  where
    pushed :
        (ps : List Text)
        → d c ≡ false
        → All (λ t. All (λ b. d b ≡ false) t) ps
        → All (λ t. All (λ b. d b ≡ false) t) (push_head c ps)
    pushed [] n h = ((n, tt), tt)
    pushed (p ∷ ps) n (hp, h) = ((n, hp), h)

module _ (P : ℕ → Type 0) where
  trim_start-All : (p : ℕ → Bool) (s : Text) → All P s → All P (trim_start_matches p s)
  unfolding trim_start_matches
  trim_start-All p [] h = tt
  trim_start-All p (c ∷ s) (hc, h) = elim (Bool-cases (p c)) [
    | inl y ↦ rw y (trim_start-All p s h)
    | inr n ↦ rw n (hc, h)
  ]

  trim_end-All : (p : ℕ → Bool) (s : Text) → All P s → All P (trim_end_matches p s)
  unfolding trim_end_matches
  trim_end-All p [] h = tt
  trim_end-All p (c ∷ s) (hc, h) = elim (Bool-cases (p c && is_empty (trim_end_matches p s))) [
    | inl y ↦ rw y tt
    | inr n ↦ rw n (hc, trim_end-All p s h)
  ]

  trim-All : (s : Text) → All P s → All P (trim s)
  unfolding trim
  trim-All s h = trim_end-All is_whitespace _ (trim_start-All is_whitespace s h)

tags-All : (category : Option Text) → All IsTag (tags category)
unfolding tags
tags-All none = tt
tags-All (some category) = go (split is_comma category) (split-All is_comma category)
  where
    go :
        (ps : List Text)
        → All (λ t. All (λ c. is_comma c ≡ false) t) ps
        → All IsTag (filter (λ t. not (is_empty t)) (map trim ps))
    go [] h = tt
    go (p ∷ ps) (hp, h) = elim (Bool-cases (is_empty (trim p))) [
      | inl y ↦ rw y (go ps h)
      | inr n ↦
          rw n
            (record { no_comma = trim-All _ p hp; trimmed = trim_idem p; some_text = n }, go ps h)
    ]

split_of_no_comma : (t : Text) → All (λ c. is_comma c ≡ false) t → split is_comma t ≡ t ∷ []
unfolding split
split_of_no_comma [] h = refl
split_of_no_comma (c ∷ t) (hc, h) = rw (hc, split_of_no_comma t h) refl

split-append :
    (t s : Text)
    → All (λ c. is_comma c ≡ false) t
    → split is_comma (t ++ (b',' ∷ s)) ≡ t ∷ split is_comma s
unfolding split
split-append [] s h = refl
split-append (c ∷ t) s (hc, h) = rw (hc, split-append t s h) refl

split-nonempty : (d : ℕ → Bool) (s : Text) → (p : Text) × (ps : List Text) × (split d s ≡ p ∷ ps)
unfolding split
split-nonempty d [] = ([], [], refl)
split-nonempty d (c ∷ s) = elim (Bool-cases (d c)) [
  | inl y ↦ ([], split d s, rw y refl)
  | inr n ↦ let (p, ps, e) = split-nonempty d s in (c ∷ p, ps, rw (n, e) refl)
]

trim-space : (p : Text) → trim (b' ' ∷ p) ≡ trim p
unfolding trim trim_start_matches is_whitespace
trim-space p = refl

-- A space in front of the first piece is trimmed off.
map-trim-split_space :
    (s : Text) → map trim (split is_comma (b' ' ∷ s)) ≡ map trim (split is_comma s)
unfolding split
map-trim-split_space s =
    let (p, ps, e) = split-nonempty is_comma s in rw e (ap (λ t. t ∷ map trim ps) (trim-space p))

tags-join :
    (t : Text) (ts : List Text)
    → All IsTag (t ∷ ts)
    → tags (some (join (codes ", ") (t ∷ ts))) ≡ t ∷ ts
unfolding tags join
tags-join t [] (h, _) = rw (split_of_no_comma t h.no_comma, h.trimmed, h.some_text) refl
tags-join t (q ∷ ts) (h, hs) =
    rw
      (
        split-append t (b' ' ∷ join (codes ", ") (q ∷ ts)) h.no_comma,
        map-trim-split_space (join (codes ", ") (q ∷ ts)),
        h.trimmed,
        h.some_text,
      )
      (ap (◌∷◌ t) (tags-join q ts hs))

-- The tags of a joined list of tags, which is no column at all when the list is empty.
abbrev column : List Text → Option Text
column [] = none
column (t ∷ ts) = some (join (codes ", ") (t ∷ ts))

tags-column : (ts : List Text) → All IsTag ts → tags (column ts) ≡ ts
tags-column [] h = unfold tags in refl
tags-column (t ∷ ts) h = tags-join t ts h

abbrev without_pin : List Text → List Text
without_pin = filter (λ t. not (pins t))

abbrev pin_toggled : Option Text → List Text
pin_toggled category =
    if is_featured category
    then without_pin (tags category)
    else without_pin (tags category) ++ (featured_tag ∷ [])

toggle_featured-column :
    (category : Option Text) → toggle_featured category ≡ column (pin_toggled category)
unfolding toggle_featured
toggle_featured-column category = go (pin_toggled category)
  where
    go :
        (ts : List Text)
        → elim ts as (λ x. Option Text) [ [] ↦ none | ◌∷◌ t us ↦ some (join (codes ", ") (t ∷ us)) ]
          ≡ column ts
    go [] = refl
    go (t ∷ ts) = refl

featured_tag-IsTag : IsTag featured_tag
unfolding featured_tag trim trim_start_matches trim_end_matches is_whitespace
featured_tag-IsTag = record { no_comma = ground arith; trimmed = refl; some_text = refl }

pin_toggled-All : (category : Option Text) → All IsTag (pin_toggled category)
pin_toggled-All category =
    let kept = All-filter_sub IsTag (λ t. not (pins t)) (tags category) (tags-All category) in
    elim (Bool-cases (is_featured category)) [
      | inl y ↦ rw y kept
      | inr n ↦ rw n (All-append IsTag _ (featured_tag ∷ []) kept (featured_tag-IsTag, tt))
    ]

without_pin_of_unpinned : (ts : List Text) → any pins ts ≡ false → without_pin ts ≡ ts
without_pin_of_unpinned [] h = refl
without_pin_of_unpinned (t ∷ ts) h = ground (arith, without_pin_of_unpinned ts)

-- The tags after a toggle: without every spelling of the pin if the page was pinned, and otherwise
-- with the pin behind the tags that were there, in their order.
pub toggle_featured-tags :
    (category : Option Text)
    → tags (toggle_featured category) ≡ (
        if is_featured category
        then filter (λ t. not (pins t)) (tags category)
        else tags category ++ (featured_tag ∷ []))
toggle_featured-tags category =
    rw
      (
        toggle_featured-column category,
        tags-column (pin_toggled category) (pin_toggled-All category),
      )
      (elim (Bool-cases (is_featured category)) [
        | inl y ↦ rw y refl
        | inr n ↦ rw (n, without_pin_of_unpinned (tags category) (unfold is_featured in n)) refl
      ])

is_featured_of_tags : (category : Option Text) → is_featured category ≡ any pins (tags category)
unfolding is_featured
is_featured_of_tags category = refl

featured_tag-pins : pins featured_tag ≡ true
unfolding eq_ignore_ascii_case
featured_tag-pins = same_refl (to_ascii_lowercase featured_tag)

any_append_self : (ts : List Text) → any pins (ts ++ (featured_tag ∷ [])) ≡ true
any_append_self [] = rw featured_tag-pins refl
any_append_self (t ∷ ts) = ground (arith, any_append_self ts)

-- A toggle changes whether the page is pinned, always.
pub is_featured-toggle_featured :
    (category : Option Text) → is_featured (toggle_featured category) ≡ not (is_featured category)
is_featured-toggle_featured category =
    is_featured_of_tags (toggle_featured category)
    ∙ (ap (any pins) (toggle_featured-tags category) ∙ pinned (is_featured category) refl)
  where
    pinned :
        (b : Bool)
        → is_featured category ≡ b
        → any pins (
            if b
            then filter (λ t. not (pins t)) (tags category)
            else tags category ++ (featured_tag ∷ []))
          ≡ not b
    pinned true e = any-filter_none pins (λ t. not (pins t)) (λ t h. ap not h) (tags category)
    pinned false e = any_append_self (tags category)

-- Toggling an unpinned page's category twice gives the tags that it had.
pub toggle_featured_twice :
    (category : Option Text)
    → is_featured category ≡ false
    → tags (toggle_featured (toggle_featured category)) ≡ tags category
toggle_featured_twice category h =
    toggle_featured-tags (toggle_featured category)
    ∙ rw (is_featured-toggle_featured category, h, toggle_featured-tags category, h)
        (kept (tags category) (sym (is_featured_of_tags category) ∙ h))
  where
    kept : (ts : List Text) → any pins ts ≡ false → without_pin (ts ++ (featured_tag ∷ [])) ≡ ts
    kept [] u = ground (arith, featured_tag-pins)
    kept (t ∷ ts) u = ground (arith, kept ts)
