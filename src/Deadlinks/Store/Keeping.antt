-- ===== src/Deadlinks/Store/Keeping.antt =====
-- What the statements on the two tables keep.
use hotchkiss_io.Base.{
  Bool, Bool-cases, List, Option, [], any, arith, filter, if◌then◌else◌, inl, inr, ltb, not, refl,
  some, true, ℕ, ◌&&◌, ◌*◌, ◌++◌, ◌+◌, ◌==◌, ◌||◌, ◌∙◌, ◌∷◌, ◌≡◌,
}
use hotchkiss_io.Text.{Text, is_one_of, same}
use hotchkiss_io.Text.Laws.{same_iff}
use hotchkiss_io.Deadlinks.Store.{
  LinkCheckRow, LinkRef, get_row, insert_ref, insert_refs, is_referenced, min_streak_interval_secs,
  next_state, prune_orphans, record_check, replace_for_page, set_ignored, upsert_row,
}
use hotchkiss_io.Deadlinks.Class.{CheckClass, LinkKind}

pub get_row-upsert_row :
    (t : List LinkCheckRow) (row : LinkCheckRow) (url : Text)
    → get_row (upsert_row t row) url ≡ (if same row.url url then some row else get_row t url)
unfolding get_row upsert_row
get_row-upsert_row [] row url = refl
get_row-upsert_row (r ∷ t) row url = ground (
  arith,
  same_iff r.url row.url,
  same_iff r.url url,
  same_iff row.url url,
  get_row-upsert_row t row url,
)

get_row-set_ignored :
    (t : List LinkCheckRow) (url : Text) (flag : Bool) (r : LinkCheckRow)
    → get_row t url ≡ some r
    → get_row (set_ignored t url flag) url ≡ some (record r { ignored = flag })
unfolding get_row set_ignored
get_row-set_ignored [] url flag r h = absurd (cc h)
get_row-set_ignored (q ∷ t) url flag r h = elim (Bool-cases (same q.url url)) [
  | inl y ↦ rw (y, y) (ground (arith, h, y))
  | inr n ↦ rw (n, n) (get_row-set_ignored t url flag r (ground (arith, h, n)))
]

-- A check recorded, of any URL.
pub record Recorded : Type 0 where
  pub checked_url : Text
  pub checked_kind : LinkKind
  pub verdict : CheckClass
  pub answer : Option ℕ
  pub note : Text
  pub instant : ℕ

abbrev pub record_all : List Recorded → List LinkCheckRow → List LinkCheckRow
record_all [] t = t
record_all (c ∷ cs) t =
    record_all cs
      (record_check t c.checked_url c.checked_kind c.verdict c.answer c.note c.instant).1

-- The row of a URL with a given flag is there.
abbrev pub HasFlag : List LinkCheckRow → Text → Bool → Type 0
HasFlag t url flag = (r : LinkCheckRow) × (get_row t url ≡ some r) × (r.ignored ≡ flag)

record_check-HasFlag :
    (t : List LinkCheckRow) (c : Recorded) (url : Text) (flag : Bool)
    → HasFlag t url flag
    → HasFlag
        (record_check t c.checked_url c.checked_kind c.verdict c.answer c.note c.instant).1
        url
        flag
unfolding record_check next_state
record_check-HasFlag t c url flag (r, e, i) =
    let next =
      next_state c.checked_url c.checked_kind (get_row t c.checked_url) c.verdict c.answer c.note
        c.instant min_streak_interval_secs in
    elim (Bool-cases (same c.checked_url url)) [
      | inl y ↦
          let there : get_row t c.checked_url ≡ some r = rw ((same_iff c.checked_url url).0 y) e in
          (next, get_row-upsert_row t next url ∙ rw y refl, rw there i)
      | inr n ↦ (r, get_row-upsert_row t next url ∙ rw n e, i)
    ]

-- After the dismissal flag of a link's row is set, either way, the row keeps it whatever checks
-- of whatever links are recorded.
pub dismissal_survives_checks :
    (cs : List Recorded) (t : List LinkCheckRow) (url : Text) (flag : Bool) (r : LinkCheckRow)
    → get_row t url ≡ some r
    → HasFlag (record_all cs (set_ignored t url flag)) url flag
dismissal_survives_checks cs t url flag r e =
    kept cs (set_ignored t url flag)
      (record r { ignored = flag }, get_row-set_ignored t url flag r e, refl)
  where
    kept :
        (cs : List Recorded) (t : List LinkCheckRow)
        → HasFlag t url flag
        → HasFlag (record_all cs t) url flag
    kept [] t h = h
    kept (c ∷ cs) t h = kept cs _ (record_check-HasFlag t c url flag h)

-- Pruning touches no row that a page still refers to.
pub prune_orphans-referenced :
    (t : List LinkCheckRow) (refs : List LinkRef) (now days : ℕ) (url : Text)
    → is_referenced refs url ≡ true
    → get_row (prune_orphans t refs now days) url ≡ get_row t url
unfolding prune_orphans get_row
prune_orphans-referenced [] refs now days url h = refl
prune_orphans-referenced (r ∷ t) refs now days url h = elim (Bool-cases (same r.url url)) [
  | inl y ↦
      let own : is_referenced refs r.url ≡ true = rw ((same_iff r.url url).0 y) h in
      rw (own, y) refl
  | inr n ↦ elim (Bool-cases (is_referenced refs r.url)) [
    | inl o ↦ rw (o, n) (prune_orphans-referenced t refs now days url h)
    | inr o ↦ elim (Bool-cases (ltb (r.last_checked_at + days * 86400) now)) [
      | inl p ↦ rw (o, p, n) (prune_orphans-referenced t refs now days url h)
      | inr p ↦ rw (o, p, n) (prune_orphans-referenced t refs now days url h)
    ]
  ]
]

-- The page refers to the URL.
abbrev pub refers : List LinkRef → ℕ → Text → Bool
refers refs page_id url = any (λ l. l.page_id == page_id && same l.ref_url url) refs

pub any-snoc :
    {A : Type 0} (p : A → Bool) (xs : List A) (x : A) → any p (xs ++ x ∷ []) ≡ (any p xs || p x)
any-snoc p [] x = ground arith
any-snoc p (y ∷ xs) x = ground (arith, any-snoc p xs x)

refers-insert_ref :
    (page_id : ℕ) (u : Text) (refs : List LinkRef) (j : ℕ) (v : Text)
    → refers (insert_ref page_id u refs) j v ≡ (refers refs j v || (page_id == j && same u v))
unfolding insert_ref
refers-insert_ref page_id u refs j v = elim (Bool-cases (refers refs page_id u)) [
  | inl y ↦ rw y (elim (Bool-cases (page_id == j && same u v)) [
    | inl s ↦
        let e : page_id ≡ j = ground arith in
        let f : u ≡ v = ground (arith, same_iff u v) in
        let there : refers refs j v ≡ true = rw (← e) (rw (← f) y) in ground (arith, there, s)
    | inr s ↦ ground (arith, s)
  ])
  | inr n ↦ rw n (
      any-snoc (λ l. l.page_id == j && same l.ref_url v) refs
        (record { page_id = page_id; ref_url = u }))
]

refers-insert_refs :
    (page_id : ℕ) (us : List Text) (refs : List LinkRef) (j : ℕ) (v : Text)
    → refers (insert_refs page_id us refs) j v
      ≡ (refers refs j v || (page_id == j && is_one_of v us))
unfolding insert_refs is_one_of
refers-insert_refs page_id [] refs j v = ground arith
refers-insert_refs page_id (u ∷ us) refs j v = ground (
  arith,
  refers-insert_refs page_id us (insert_ref page_id u refs) j v,
  refers-insert_ref page_id u refs j v,
  same_iff u v,
  same_iff v u,
)

refers-cleared :
    (refs : List LinkRef) (page_id j : ℕ) (v : Text)
    → refers (filter (λ l. not (l.page_id == page_id)) refs) j v
      ≡ (not (page_id == j) && refers refs j v)
refers-cleared [] page_id j v = ground arith
refers-cleared (l ∷ refs) page_id j v = ground (arith, refers-cleared refs page_id j v)

-- After a page's references are replaced, the page refers to exactly the URLs given, and every other
-- page to what it referred to before.
pub refers-replace_for_page :
    (refs : List LinkRef) (page_id : ℕ) (urls : List Text) (j : ℕ) (v : Text)
    → refers (replace_for_page refs page_id urls) j v
      ≡ (if page_id == j then is_one_of v urls else refers refs j v)
unfolding replace_for_page
refers-replace_for_page refs page_id urls j v = ground (
  arith,
  refers-insert_refs page_id urls (filter (λ l. not (l.page_id == page_id)) refs) j v,
  refers-cleared refs page_id j v,
)
