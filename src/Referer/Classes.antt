-- ===== src/Referer/Classes.antt =====
-- What each class of referers says of the URL.
use hotchkiss_io.Base.{
  All, Bool-cases, In, List, Option, Option-cases, [], ap, arith, false, inl, inr, none, refl, some,
  subst, sym, true, ◌++◌, ◌∙◌, ◌∷◌, ◌≡◌, ◌≢◌, ◌⊎◌,
}
use hotchkiss_io.Referer.{
  Host, RefererCategory, RefererClass, UrlParser, categorize, category_by, category_rules,
  class_of_host, direct, domain, external, host_key, internal, ip_literal, ipv4, ipv6, is_internal,
  malformed, normalize_referer, referral, strip_first,
}
use hotchkiss_io.Text.{
  Text, codes, contains, is_empty, same, strip_prefix, to_ascii_lowercase, trim,
}
use hotchkiss_io.Text.Laws.{contains_complete, contains_sound, same_iff, strip_prefix_iff}

-- The site, or its beta.
abbrev pub IsOwn : Text → Text → Type 0
IsOwn site key = (key ≡ to_ascii_lowercase site) ⊎ (key ≡ codes "beta." ++ to_ascii_lowercase site)

abbrev host_prefixes : List Text
host_prefixes = codes "www." ∷ codes "m." ∷ codes "amp." ∷ []

-- The name that a host is grouped by: in lowercase, without one of the prefixes.
abbrev pub IsKey : Text → Text → Type 0
IsKey host key =
    ((p : Text) × In p host_prefixes × (to_ascii_lowercase host ≡ p ++ key))
    ⊎ ((to_ascii_lowercase host ≡ key) × All (λ p. strip_prefix p key ≡ none) host_prefixes)

-- The category of the first rule whose pattern is in the name, or a plain referral without one.
pub data IsCategory (key : Text) : List (Text × RefererCategory) → RefererCategory → Type 0 where
  no_rule : IsCategory key [] referral
  this_rule :
      (pat : Text) (cat : RefererCategory) (rules : List (Text × RefererCategory)) (a b : Text)
      → key ≡ a ++ (pat ++ b)
      → IsCategory key ((pat, cat) ∷ rules) cat
  later_rule :
      (pat : Text) (first cat : RefererCategory) (rules : List (Text × RefererCategory))
      → ((a b : Text) → key ≢ a ++ (pat ++ b))
      → IsCategory key rules cat
      → IsCategory key ((pat, first) ∷ rules) cat

pub data IsClass (parse : UrlParser) (site raw : Text) : RefererClass → Type 0 where
  blank : trim raw ≡ [] → IsClass parse site raw direct
  unparsed : trim raw ≢ [] → parse (trim raw) ≡ none → IsClass parse site raw malformed
  hostless : trim raw ≢ [] → parse (trim raw) ≡ some none → IsClass parse site raw malformed
  numeric :
      (h : Host)
      → trim raw ≢ []
      → parse (trim raw) ≡ some (some h)
      → (h ≡ ipv4) ⊎ (h ≡ ipv6)
      → IsClass parse site raw ip_literal
  own :
      (d key : Text)
      → trim raw ≢ []
      → parse (trim raw) ≡ some (some (domain d))
      → IsKey d key
      → IsOwn site key
      → IsClass parse site raw internal
  foreign :
      (d key : Text) (cat : RefererCategory)
      → trim raw ≢ []
      → parse (trim raw) ≡ some (some (domain d))
      → IsKey d key
      → ¬ IsOwn site key
      → IsCategory key category_rules cat
      → IsClass parse site raw (external key cat)

strip_first-hit :
    (p : Text) (ps : List Text) (h rest : Text)
    → strip_prefix p h ≡ some rest
    → rest ≡ strip_first (p ∷ ps) h
unfolding strip_first
strip_first-hit p ps h rest e = rw (e, strip_first) refl

strip_first-miss :
    (p : Text) (ps : List Text) (h : Text)
    → strip_prefix p h ≡ none
    → strip_first (p ∷ ps) h ≡ strip_first ps h
unfolding strip_first
strip_first-miss p ps h e = rw (e, strip_first) refl

strip_first-IsStripped :
    (ps : List Text) (h : Text)
    → ((p : Text) × In p ps × (h ≡ p ++ strip_first ps h))
      ⊎ ((strip_first ps h ≡ h) × All (λ p. strip_prefix p h ≡ none) ps)
unfolding strip_first
strip_first-IsStripped [] h = inr (refl, tt)
strip_first-IsStripped (p ∷ ps) h = elim (Option-cases (strip_prefix p h)) [
  | inr (rest, e) ↦ inl (
    p,
    inl refl,
    (strip_prefix_iff p h rest).0 e ∙ ap (λ r. p ++ r) (strip_first-hit p ps h rest e),
  )
  | inl n ↦ elim (strip_first-IsStripped ps h) [
    | inl (q, i, e) ↦ inl (q, inr i, e ∙ ap (λ r. q ++ r) (sym (strip_first-miss p ps h n)))
    | inr (e, all_miss) ↦ inr (strip_first-miss p ps h n ∙ e, (n, all_miss))
  ]
]

host_key-IsKey : (host : Text) → IsKey host (host_key host)
unfolding host_key strip_first
host_key-IsKey host = elim (strip_first-IsStripped host_prefixes (to_ascii_lowercase host)) [
  | inl found ↦ inl found
  | inr (bare, none_fits) ↦
      inr (
        sym bare,
        subst (λ k. All (λ p. strip_prefix p k ≡ none) host_prefixes) (sym bare) none_fits,
      )
]

is_internal-true : (key site : Text) → is_internal key site ≡ true → IsOwn site key
unfolding is_internal
is_internal-true key site h = elim (Bool-cases (same key (to_ascii_lowercase site))) [
  | inl y ↦ inl ((same_iff key (to_ascii_lowercase site)).0 y)
  | inr n ↦ inr ((same_iff key (codes "beta." ++ to_ascii_lowercase site)).0 (ground (arith, h, n)))
]

pub is_internal-false : (key site : Text) → is_internal key site ≡ false → ¬ IsOwn site key
unfolding is_internal
is_internal-false key site h (inl e) =
    absurd (ground (arith, h, (same_iff key (to_ascii_lowercase site)).1 e))
is_internal-false key site h (inr e) =
    absurd (ground (arith, h, (same_iff key (codes "beta." ++ to_ascii_lowercase site)).1 e))

category_by-IsCategory :
    (rules : List (Text × RefererCategory)) (key : Text)
    → IsCategory key rules (category_by rules key)
unfolding category_by
category_by-IsCategory [] key = no_rule
category_by-IsCategory ((pat, cat) ∷ rules) key = elim (Bool-cases (contains pat key)) [
  | inl y ↦ let (a, b, e) = contains_sound pat key y in rw y (this_rule pat cat rules a b e)
  | inr n ↦ rw n (
      later_rule pat cat (category_by rules key) rules
        (λ a b e. absurd (cc (n, contains_complete pat a b, ap (contains pat) e)))
        (category_by-IsCategory rules key))
]

pub categorize-IsCategory : (key : Text) → IsCategory key category_rules (categorize key)
unfolding categorize
categorize-IsCategory key = category_by-IsCategory category_rules key

module _ (parse : UrlParser) (site raw : Text) (full : trim raw ≢ []) where
  class_of_host-IsClass :
      (h : Option Host) → parse (trim raw) ≡ some h → IsClass parse site raw (class_of_host site h)
  unfolding class_of_host
  class_of_host-IsClass none e = hostless full e
  class_of_host-IsClass (some ipv4) e = numeric ipv4 full e (inl refl)
  class_of_host-IsClass (some ipv6) e = numeric ipv6 full e (inr refl)
  class_of_host-IsClass (some (domain d)) e = elim (Bool-cases (is_internal (host_key d) site)) [
    | inl y ↦
        rw y (own d (host_key d) full e (host_key-IsKey d) (is_internal-true (host_key d) site y))
    | inr n ↦ rw n (
        foreign d (host_key d) (categorize (host_key d)) full e (host_key-IsKey d)
          (is_internal-false (host_key d) site n) (categorize-IsCategory (host_key d)))
  ]

  parsed-IsClass :
      (o : Option (Option Host))
      → parse (trim raw) ≡ o
      → IsClass parse site raw (elim o [ none ↦ malformed | some host ↦ class_of_host site host ])
  parsed-IsClass none e = unparsed full e
  parsed-IsClass (some h) e = class_of_host-IsClass h e

pub normalize_referer-IsClass :
    (parse : UrlParser) (raw site : Text)
    → IsClass parse site raw (normalize_referer parse raw site)
unfolding normalize_referer
normalize_referer-IsClass parse raw site = elim (Bool-cases (is_empty (trim raw))) [
  | inl y ↦ rw y (blank (nil (trim raw) y))
  | inr n ↦
      rw n (
        parsed-IsClass parse site raw (λ e. absurd (cc (n, ap is_empty e))) (parse (trim raw)) refl)
]
  where
    nil : (s : Text) → is_empty s ≡ true → s ≡ []
    nil [] h = refl
    nil (c ∷ s) h = absurd (cc h)
