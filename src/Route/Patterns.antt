-- ===== src/Route/Patterns.antt =====
-- A route's pattern is a route of its own.
use hotchkiss_io.Base.{
  All, All-In, Bool-cases, In, List, [], ap, false, inl, inr, map, refl, subst, sym, true, ◌||◌,
  ◌∙◌, ◌∷◌, ◌≡◌, ◌⊎◌,
}
use hotchkiss_io.Text.{Text, codes, same, strip_prefix}
use hotchkiss_io.Route.{first_rule, goes_below, normalize_route, rules}

first_rule-hit :
    (prefix shape path : Text) (rs : List (Text × Text))
    → goes_below prefix path ≡ true
    → first_rule ((prefix, shape) ∷ rs) path ≡ shape
unfolding first_rule
first_rule-hit prefix shape path rs y = rw y refl

first_rule-miss :
    (prefix shape path : Text) (rs : List (Text × Text))
    → goes_below prefix path ≡ false
    → first_rule ((prefix, shape) ∷ rs) path ≡ first_rule rs path
unfolding first_rule
first_rule-miss prefix shape path rs n = rw n refl

IsOneOf : List (Text × Text) → Text → Text → Type 0
IsOneOf rs path r = (r ≡ path) ⊎ In r (map (λ r. r.1) rs)

first_rule-IsOneOf : (rs : List (Text × Text)) (path : Text) → IsOneOf rs path (first_rule rs path)
unfolding first_rule IsOneOf
first_rule-IsOneOf [] path = inl refl
first_rule-IsOneOf ((prefix, shape) ∷ rs) path = elim (Bool-cases (goes_below prefix path)) [
  | inl y ↦
      subst (IsOneOf ((prefix, shape) ∷ rs) path) (sym (first_rule-hit prefix shape path rs y))
        (inr (inl refl))
  | inr n ↦
      subst (IsOneOf ((prefix, shape) ∷ rs) path) (sym (first_rule-miss prefix shape path rs n))
        (elim (first_rule-IsOneOf rs path) [ inl e ↦ inl e | inr m ↦ inr (inr m) ])
]

IsPattern : Text → Text → Type 0
IsPattern path r = (r ≡ path) ⊎ ((r ≡ codes "/blog/:slug") ⊎ In r (map (λ r. r.1) rules))

normalize_route-IsPattern : (path : Text) → IsPattern path (normalize_route path)
unfolding IsPattern IsOneOf
normalize_route-IsPattern path =
    elim (Bool-cases (same path (codes "/blog") || same path (codes "/blog/feed.xml"))) [
      | inl y ↦ inl (unfold normalize_route in rw y refl)
      | inr n ↦ elim (Bool-cases (goes_below (codes "/blog/") path)) [
        | inl y ↦ inr (inl (unfold normalize_route in rw n (rw y refl)))
        | inr m ↦
            let lands : normalize_route path ≡ first_rule rules path =
              unfold normalize_route in rw n (rw m refl) in
            subst (IsPattern path) (sym lands)
              (elim (first_rule-IsOneOf rules path) [ inl e ↦ inl e | inr i ↦ inr (inr i) ])
      ]
    ]

patterns_fixed : All (λ r. normalize_route r ≡ r) (map (λ r. r.1) rules)
unfolding normalize_route same strip_prefix first_rule
patterns_fixed = (refl, (refl, (refl, (refl, (refl, (refl, (refl, (refl, (refl, tt)))))))))

slug_fixed : normalize_route (codes "/blog/:slug") ≡ codes "/blog/:slug"
unfolding normalize_route same strip_prefix first_rule
slug_fixed = refl

-- Normalizing a pattern gives the pattern: a bucket's own name counts for that bucket.
pub normalize_route_idem :
    (path : Text) → normalize_route (normalize_route path) ≡ normalize_route path
unfolding IsPattern
normalize_route_idem path = elim (normalize_route-IsPattern path) [
  | inl e ↦ ap normalize_route e
  | inr m ↦ elim m [
    | inl e ↦ ap normalize_route e ∙ (slug_fixed ∙ sym e)
    | inr i ↦
        All-In (λ r. normalize_route r ≡ r) (normalize_route path) (map (λ r. r.1) rules)
          patterns_fixed i
  ]
]
