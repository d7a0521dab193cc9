-- ===== src/Referer/Folded.antt =====
-- What the rows fold into: one entry for each host.
use hotchkiss_io.Base.{
  All, Bool-cases, List, Option, [], ap, arith, false, if◌then◌else◌, inl, inr, none, refl, some, ℕ,
  ◌+◌, ◌∙◌, ◌∷◌, ◌≡◌,
}
use hotchkiss_io.Referer.{
  ExternalReferer, Host, RefererCategory, RefererClass, RefererCount, UrlParser, add_external,
  categorize, class_of_host, count_row, count_rows, direct, domain, external, host_key, internal,
  ip_literal, ipv4, ipv6, is_internal, malformed, normalize_referer,
}
use hotchkiss_io.Text.{Text, is_empty, same, trim}
use hotchkiss_io.Text.Laws.{same_iff, same_refl, same_sym}

-- The requests that the rows bring from a host.
abbrev pub requests_of_host : Text → RefererClass → ℕ → ℕ
requests_of_host h (external k cat) n = if same k h then n else 0
requests_of_host h _ n = 0

unfoldable pub host_requests : UrlParser → Text → Text → List RefererCount → ℕ
unfolding normalize_referer same
host_requests parse site_host h [] = 0
host_requests parse site_host h (r ∷ rows) =
    requests_of_host h (normalize_referer parse r.referer site_host) r.count
    + host_requests parse site_host h rows

abbrev pub host_total : Text → List ExternalReferer → ℕ
host_total h [] = 0
host_total h (e ∷ es) = (if same e.host h then e.count else 0) + host_total h es

host_total-add_external :
    (h k : Text) (cat : RefererCategory) (n : ℕ) (es : List ExternalReferer)
    → host_total h (add_external k cat n es) ≡ host_total h es + (if same k h then n else 0)
unfolding add_external
host_total-add_external h k cat n [] = ground arith
host_total-add_external h k cat n (e ∷ es) = elim (Bool-cases (same e.host k)) [
  | inl y ↦ rw y (ground (arith, ap (λ z. same z h) ((same_iff e.host k).0 y)))
  | inr m ↦ rw m (omega (arith, host_total-add_external h k cat n es))
]

host_total-count_row :
    (h : Text) (c : RefererClass) (n : ℕ) (s : List ExternalReferer × ℕ)
    → host_total h (count_row c n s).0 ≡ host_total h s.0 + requests_of_host h c n
unfolding count_row
host_total-count_row h direct n s = omega arith
host_total-count_row h malformed n s = omega arith
host_total-count_row h ip_literal n s = omega arith
host_total-count_row h internal n s = omega arith
host_total-count_row h (external k cat) n s = host_total-add_external h k cat n s.0

pub host_total-count_rows :
    (parse : UrlParser) (site h : Text) (rows : List RefererCount) (s : List ExternalReferer × ℕ)
    → host_total h (count_rows parse site rows s).0
      ≡ host_total h s.0 + host_requests parse site h rows
unfolding count_rows host_requests
host_total-count_rows parse site h [] s = omega arith
host_total-count_rows parse site h (r ∷ rows) s = omega (
  arith,
  host_total-count_row h (normalize_referer parse r.referer site) r.count s,
  host_total-count_rows parse site h rows
      (count_row (normalize_referer parse r.referer site) r.count s),
)

abbrev DistinctHosts : List ExternalReferer → Type 0
DistinctHosts [] = Unit
DistinctHosts (e ∷ es) = All (λ f. same f.host e.host ≡ false) es × DistinctHosts es

-- What holds of the entries of a host and of a new entry holds after an addition.
All-add_external :
    (P : ExternalReferer → Type 0)
    → ((e : ExternalReferer) (n : ℕ) → P e → P (record e { count = e.count + n }))
    → (k : Text) (cat : RefererCategory) (n : ℕ)
    → P (record { host = k; category = cat; count = 0 + n })
    → (es : List ExternalReferer) → All P es
    → All P (add_external k cat n es)
unfolding add_external
All-add_external P keep k cat n new [] h = (new, tt)
All-add_external P keep k cat n new (e ∷ es) (pe, h) = elim (Bool-cases (same e.host k)) [
  | inl y ↦ rw y (keep e n pe, h)
  | inr m ↦ rw m (pe, All-add_external P keep k cat n new es h)
]

add_external-DistinctHosts :
    (k : Text) (cat : RefererCategory) (n : ℕ) (es : List ExternalReferer)
    → DistinctHosts es
    → DistinctHosts (add_external k cat n es)
unfolding add_external
add_external-DistinctHosts k cat n [] h = (tt, tt)
add_external-DistinctHosts k cat n (e ∷ es) (apart, h) = elim (Bool-cases (same e.host k)) [
  | inl y ↦ rw y (apart, h)
  | inr m ↦ rw m (
    All-add_external (λ f. same f.host e.host ≡ false) (λ f i x. x) k cat n (same_sym k e.host ∙ m)
        es apart,
    add_external-DistinctHosts k cat n es h,
  )
]

abbrev pub IsExternal : Text → ExternalReferer → Type 0
IsExternal site e = (is_internal e.host site ≡ false) × (e.category ≡ categorize e.host)

-- The entries that the rows fold into: one for each host, none of the site.
abbrev pub IsFolded : Text → List ExternalReferer → Type 0
IsFolded site es = DistinctHosts es × All (IsExternal site) es

-- What `normalize_referer` guarantees of an external referer.
abbrev ClassMeans : Text → RefererClass → Type 0
ClassMeans site (external k cat) = (is_internal k site ≡ false) × (cat ≡ categorize k)
ClassMeans site _ = Unit

class_of_host-ClassMeans : (site : Text) (h : Option Host) → ClassMeans site (class_of_host site h)
unfolding class_of_host
class_of_host-ClassMeans site none = tt
class_of_host-ClassMeans site (some ipv4) = tt
class_of_host-ClassMeans site (some ipv6) = tt
class_of_host-ClassMeans site (some (domain d)) =
    elim (Bool-cases (is_internal (host_key d) site)) [ inl y ↦ rw y tt | inr n ↦ rw n (n, refl) ]

parsed-ClassMeans :
    (site : Text) (parsed : Option (Option Host))
    → ClassMeans site (elim parsed [ none ↦ malformed | some host ↦ class_of_host site host ])
parsed-ClassMeans site none = tt
parsed-ClassMeans site (some h) = class_of_host-ClassMeans site h

normalize_referer-ClassMeans :
    (parse : UrlParser) (raw site : Text) → ClassMeans site (normalize_referer parse raw site)
unfolding normalize_referer
normalize_referer-ClassMeans parse raw site = elim (Bool-cases (is_empty (trim raw))) [
  | inl y ↦ rw y tt
  | inr n ↦ rw n (parsed-ClassMeans site (parse (trim raw)))
]

count_row-IsFolded :
    (site : Text) (c : RefererClass) (n : ℕ) (s : List ExternalReferer × ℕ)
    → ClassMeans site c
    → IsFolded site s.0
    → IsFolded site (count_row c n s).0
unfolding count_row
count_row-IsFolded site direct n s m h = h
count_row-IsFolded site malformed n s m h = h
count_row-IsFolded site ip_literal n s m h = h
count_row-IsFolded site internal n s m h = h
count_row-IsFolded site (external k cat) n s m (distinct, h) = (
  add_external-DistinctHosts k cat n s.0 distinct,
  All-add_external (IsExternal site) (λ e i x. x) k cat n m s.0 h,
)

pub count_rows-IsFolded :
    (parse : UrlParser) (site : Text) (rows : List RefererCount) (s : List ExternalReferer × ℕ)
    → IsFolded site s.0
    → IsFolded site (count_rows parse site rows s).0
unfolding count_rows
count_rows-IsFolded parse site [] s h = h
count_rows-IsFolded parse site (r ∷ rows) s h =
    count_rows-IsFolded parse site rows
      (count_row (normalize_referer parse r.referer site) r.count s)
      (count_row-IsFolded site (normalize_referer parse r.referer site) r.count s
        (normalize_referer-ClassMeans parse r.referer site) h)

host_total-apart :
    (h : Text) (es : List ExternalReferer)
    → All (λ f. same f.host h ≡ false) es
    → host_total h es ≡ 0
host_total-apart h [] apart = refl
host_total-apart h (e ∷ es) (m, apart) = rw m (omega (arith, host_total-apart h es apart))

pub All-both :
    {A : Type 0} (P Q R : A → Type 0)
    → ((x : A) → P x → Q x → R x)
    → (xs : List A) → All P xs
    → All Q xs
    → All R xs
All-both P Q R k [] p q = tt
All-both P Q R k (x ∷ xs) (p, ps) (q, qs) = (k x p q, All-both P Q R k xs ps qs)

-- With distinct hosts, an entry's count is the total of its host.
pub counts_of-DistinctHosts :
    (es : List ExternalReferer) → DistinctHosts es → All (λ e. e.count ≡ host_total e.host es) es
counts_of-DistinctHosts [] h = tt
counts_of-DistinctHosts (e ∷ es) (apart, h) = (
  rw (same_refl e.host) (omega (arith, host_total-apart e.host es apart)),
  All-both {A = ExternalReferer} (λ f. same f.host e.host ≡ false)
      (λ f. f.count ≡ host_total f.host es) (λ f. f.count ≡ host_total f.host (e ∷ es))
      (λ f m q. rw (same_sym e.host f.host ∙ m) (omega (arith, q))) es apart
      (counts_of-DistinctHosts es h),
)
