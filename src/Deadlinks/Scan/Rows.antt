-- ===== src/Deadlinks/Scan/Rows.antt =====
-- What one recorded check and the pruning do to the freshness of a row.
use hotchkiss_io.Base.{
  Bool, Bool-cases, List, Option, [], ap, arith, false, filter, if◌then◌else◌, inl, inr, ltb, none,
  not, refl, some, true, ℕ, ◌&&◌, ◌*◌, ◌+◌, ◌==◌, ◌||◌, ◌∙◌, ◌∷◌, ◌≡◌,
}
use hotchkiss_io.Text.{Text, same}
use hotchkiss_io.Deadlinks.Class.{CheckClass, LinkKind}
use hotchkiss_io.Deadlinks.Store.{
  LinkCheckRow, LinkRef, get_row, is_referenced, min_streak_interval_secs, next_state, record_check,
}
use hotchkiss_io.Deadlinks.Store.Keeping.{get_row-upsert_row}

abbrev pub checked_now : Option LinkCheckRow → ℕ → Bool
checked_now none now = false
checked_now (some r) now = r.last_checked_at == now

-- The URL has a row, checked at `now`.
abbrev pub fresh : List LinkCheckRow → Text → ℕ → Bool
fresh t url now = checked_now (get_row t url) now

pub record_check-fresh :
    (t : List LinkCheckRow) (u : Text) (kind : LinkKind) (class : CheckClass) (status : Option ℕ)
    (detail : Text) (now : ℕ) (url : Text)
    → fresh (record_check t u kind class status detail now).1 url now
      ≡ (same u url || fresh t url now)
unfolding record_check next_state
record_check-fresh t u kind class status detail now url =
    let next = next_state u kind (get_row t u) class status detail now min_streak_interval_secs in
    ap (λ g. checked_now g now) (get_row-upsert_row t next url)
    ∙ elim (Bool-cases (same u url)) [ inl y ↦ rw y (ground arith) | inr n ↦ rw n refl ]

-- The test of the pruning.
abbrev pub stays : List LinkRef → ℕ → ℕ → LinkCheckRow → Bool
stays refs now days r =
    not (not (is_referenced refs r.url) && ltb (r.last_checked_at + days * 86400) now)

get_row-cons :
    (r : LinkCheckRow) (t : List LinkCheckRow) (url : Text)
    → get_row (r ∷ t) url ≡ (if same r.url url then some r else get_row t url)
unfolding get_row
get_row-cons r t url = refl

pub prune_orphans-fresh :
    (t : List LinkCheckRow) (refs : List LinkRef) (now days : ℕ) (url : Text)
    → fresh t url now ≡ true
    → fresh (filter (stays refs now days) t) url now ≡ true
prune_orphans-fresh [] refs now days url h = h
prune_orphans-fresh (r ∷ t) refs now days url h = elim (Bool-cases (stays refs now days r)) [
  | inl k ↦ rw k (
      ap (λ g. checked_now g now) (get_row-cons r (filter (stays refs now days) t) url)
      ∙ elim (Bool-cases (same r.url url)) [
        | inl y ↦ rw y (ground (arith, h, get_row-cons r t url, y))
        | inr n ↦
            rw n
              (prune_orphans-fresh t refs now days url (ground (arith, h, get_row-cons r t url, n)))
      ])
  | inr k ↦ rw k (elim (Bool-cases (same r.url url)) [
    | inl y ↦ absurd (ground (arith, h, get_row-cons r t url, y, k))
    | inr n ↦ prune_orphans-fresh t refs now days url (ground (arith, h, get_row-cons r t url, n))
  ])
]
