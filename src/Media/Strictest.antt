-- ===== src/Media/Strictest.antt =====
-- Whose bytes a key serves.
use hotchkiss_io.Base.{
  All, All-map, Bool, Bool-cases, List, Option, Option-cases, [], ap, arith, false, filter,
  if◌then◌else◌, inl, inr, none, refl, some, subst, sym, true, ℕ, ◌++◌, ◌==◌, ◌∷◌, ◌≡◌, ◌≤◌,
}
use hotchkiss_io.Roles
use hotchkiss_io.Media.{
  DiskAnswer, MediaDao, MediaTables, MediaVariantDao, find_by_url_key_with_required_rank, has_key,
  is_media_visible_to, owner_ranks, serve_media_file, served, sharing_ranks, sql_max,
}
use hotchkiss_io.Pages.{sql_gate_rank}
use hotchkiss_io.Text.{Text}
use hotchkiss_io.Roles.{Role, rank}
use hotchkiss_io.Fallible.{Fallible, done, failed}
use hotchkiss_io.Pages.Visible.{sql_gate_rank-gate_rank}

sql_max-All : (ns : List ℕ) (top : ℕ) → sql_max ns ≡ some top → All (λ n. n ≤ top) ns
unfolding sql_max
sql_max-All [] top h = tt
sql_max-All (n ∷ ns) top h = elim (Option-cases (sql_max ns)) [
  | inl e ↦ (ground (arith, h, e), subst (All (λ z. z ≤ top)) (sym (no_max ns e)) tt)
  | inr (m, e) ↦
      (ground (arith, h, e), All-map _ _ (λ z below. below_top m z e below) ns (sql_max-All ns m e))
]
  where
    no_max : (ns : List ℕ) → sql_max ns ≡ none → ns ≡ []
    no_max [] e = refl
    no_max (k ∷ ks) e = elim (Option-cases (sql_max ks)) [
      | inl f ↦ absurd (cc (e, f))
      | inr (j, f) ↦ absurd (cc (e, f))
    ]

    below_top : (m z : ℕ) → sql_max ns ≡ some m → z ≤ m → z ≤ top
    below_top m z e below = ground (arith, h, e)

All-split : {A : Type 0} (P : A → Type 0) (xs ys : List A) → All P (xs ++ ys) → All P xs × All P ys
All-split P [] ys h = (tt, h)
All-split P (x ∷ xs) ys (px, h) = let (hx, hy) = All-split P xs ys h in ((px, hx), hy)

-- The items that an encoding belongs to may all be read by a rank.
abbrev Below : ℕ → List MediaDao → MediaVariantDao → Type 0
Below top media v = All (λ m. m.media_id ≡ v.media_id → sql_gate_rank m.min_role ≤ top) media

owner_ranks_yes :
    (m : MediaDao) (media : List MediaDao) (v : MediaVariantDao)
    → (m.media_id == v.media_id) ≡ true
    → owner_ranks (m ∷ media) v ≡ sql_gate_rank m.min_role ∷ owner_ranks media v
unfolding owner_ranks
owner_ranks_yes m media v y = rw y refl

owner_ranks_no :
    (m : MediaDao) (media : List MediaDao) (v : MediaVariantDao)
    → (m.media_id == v.media_id) ≡ false
    → owner_ranks (m ∷ media) v ≡ owner_ranks media v
unfolding owner_ranks
owner_ranks_no m media v n = rw n refl

owner_ranks-Below :
    (top : ℕ) (media : List MediaDao) (v : MediaVariantDao)
    → All (λ n. n ≤ top) (owner_ranks media v)
    → Below top media v
owner_ranks-Below top [] v h = tt
owner_ranks-Below top (m ∷ media) v h = elim (Bool-cases (m.media_id == v.media_id)) [
  | inl y ↦
      let (own, rest) = subst (All (λ n. n ≤ top)) (owner_ranks_yes m media v y) h in
      (λ e. own, owner_ranks-Below top media v rest)
  | inr n ↦ (
    λ e. absurd (ground (arith, e, n)),
    owner_ranks-Below top media v (subst (All (λ z. z ≤ top)) (owner_ranks_no m media v n) h),
  )
]

sharing_ranks-Below :
    (top : ℕ) (media : List MediaDao) (vs : List MediaVariantDao)
    → All (λ n. n ≤ top) (sharing_ranks media vs)
    → All (Below top media) vs
unfolding sharing_ranks
sharing_ranks-Below top media [] h = tt
sharing_ranks-Below top media (v ∷ vs) h =
    let (own, rest) = All-split _ (owner_ranks media v) (sharing_ranks media vs) h in
    (owner_ranks-Below top media v own, sharing_ranks-Below top media vs rest)

All-filter_if :
    {A : Type 0} (P : A → Type 0) (f : A → Bool) (xs : List A)
    → All P (filter f xs)
    → All (λ x. f x ≡ true → P x) xs
All-filter_if P f [] h = tt
All-filter_if P f (x ∷ xs) h = elim (Bool-cases (f x)) [
  | inl y ↦ let (px, rest) = subst (All P) (one true y) h in (λ e. px, All-filter_if P f xs rest)
  | inr n ↦ (λ e. absurd (cc (e, n)), All-filter_if P f xs (subst (All P) (one false n) h))
]
  where
    one : (b : Bool) → f x ≡ b → filter f (x ∷ xs) ≡ (if b then x ∷ filter f xs else filter f xs)
    one b e = ap (λ z. if z then x ∷ filter f xs else filter f xs) e

-- What the lookup of a key finds: the rank that it requires is reached only by those who reach the
-- rank of every item that shares the key.
find_by_url_key-Below :
    (t : MediaTables) (url_key : Text) (v : MediaVariantDao) (required : ℕ) (title : Option Text)
    → find_by_url_key_with_required_rank t url_key ≡ done (some (v, required, title))
    → All (λ w. has_key url_key w ≡ true → Below required t.media w) t.variants
unfolding find_by_url_key_with_required_rank
find_by_url_key-Below t url_key v required title h =
    All-filter_if (Below required t.media) (has_key url_key) t.variants
      (go (filter (has_key url_key) t.variants) refl)
  where
    go :
        (vs : List MediaVariantDao)
        → filter (has_key url_key) t.variants ≡ vs
        → All (Below required t.media) (filter (has_key url_key) t.variants)
    go [] e = subst (All (Below required t.media)) (sym e) tt
    go (w ∷ ws) e = subst (All (Below required t.media)) (sym e) (
        sharing_ranks-Below required t.media (w ∷ ws)
          (elim (Option-cases (sql_max (sharing_ranks t.media (w ∷ ws)))) [
            | inl k ↦ absurd (ground (arith, h, e, k))
            | inr (top, k) ↦
                sql_max-All (sharing_ranks t.media (w ∷ ws)) required (ground (arith, h, e, k))
          ]))

media_rank-visible :
    {required : ℕ} (m : MediaDao) (viewer : Role)
    → required ≤ rank viewer
    → sql_gate_rank m.min_role ≤ required
    → is_media_visible_to m viewer ≡ true
unfolding is_media_visible_to Roles.is_visible_to
media_rank-visible m viewer reached b =
    ground (arith, sql_gate_rank-gate_rank m.min_role, reached, b)

-- The bytes behind a key are served only to a viewer who may read every item that shares them, also
-- when the encoding that the lookup finds belongs to a public one.
pub serve_media_file_strictest :
    (disk : Text → Option Text → DiskAnswer) (t : MediaTables) (viewer : Role) (url_key : Text)
    (v : MediaVariantDao) (path : Text)
    → serve_media_file disk t viewer url_key ≡ served v path
    → All
        (λ w.
          has_key url_key w ≡ true
          → All (λ m. m.media_id ≡ w.media_id → is_media_visible_to m viewer ≡ true) t.media)
        t.variants
unfolding serve_media_file
serve_media_file_strictest disk t viewer url_key v path h =
    looked_up (find_by_url_key_with_required_rank t url_key) refl
  where
    looked_up :
        (r : Fallible (Option (MediaVariantDao × ℕ × Option Text)))
        → find_by_url_key_with_required_rank t url_key ≡ r
        → All
            (λ w.
              has_key url_key w ≡ true
              → All (λ m. m.media_id ≡ w.media_id → is_media_visible_to m viewer ≡ true) t.media)
            t.variants
    looked_up failed e = absurd (ground (arith, h, e))
    looked_up (done none) e = absurd (ground (arith, h, e))
    looked_up (done (some (w, required, title))) e =
        let reached : required ≤ rank viewer = ground (arith, h, e) in
        All-map _ _
          (λ z below k.
            All-map _ _ (λ m b same_item. media_rank-visible m viewer reached (b same_item)) t.media
              (below k))
          t.variants (find_by_url_key-Below t url_key w required title e)
