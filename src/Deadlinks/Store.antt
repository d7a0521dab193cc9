-- ===== src/Deadlinks/Store.antt =====
-- src/deadlinks/dao.rs: the tables `link_check` and `link_ref`, and the streak of failures. A time is
-- in seconds; the tables answer every query here.
pub mod Streak
pub mod Confirm
pub mod Buckets
pub mod Keeping
use Prim.Native.Nat.{max}
use hotchkiss_io.Base.{
  Bool, List, Option, [], any, false, filter, if◌then◌else◌, leb, length, ltb, map, none, not, some,
  sort_by, true, ℕ, ◌&&◌, ◌*◌, ◌++◌, ◌+◌, ◌==◌, ◌||◌, ◌∷◌,
}
use hotchkiss_io.Text.{Text, codes, is_empty, same, text_leb, trim}
use hotchkiss_io.Deadlinks.Class.{
  CheckClass, LinkKind, blocked, class_as_str, class_from_stored, counts_as_failure, dead,
  kind_as_str, ok, transient, unknown_class,
}

abbrev pub confirm_threshold : ℕ
confirm_threshold = 3

abbrev pub min_streak_interval_secs : ℕ
min_streak_interval_secs = 20 * 3600

abbrev pub retain_days : ℕ
retain_days = 30

pub record LinkCheckRow : Type 0 where
  pub url : Text
  pub kind : Text
  pub last_class : Text
  pub last_status : Option ℕ
  pub detail : Option Text
  pub consecutive_failures : ℕ
  pub first_failed_at : Option ℕ
  pub last_ok_at : Option ℕ
  pub last_checked_at : ℕ
  pub ignored : Bool

unfoldable pub same_class : CheckClass → CheckClass → Bool
same_class ok ok = true
same_class dead dead = true
same_class transient transient = true
same_class blocked blocked = true
same_class unknown_class unknown_class = true
same_class _ _ = false

unfoldable pub class_of : LinkCheckRow → CheckClass
class_of r = class_from_stored r.last_class

unfoldable pub is_confirmed_dead : LinkCheckRow → Bool
unfolding class_of same_class
is_confirmed_dead r = same_class (class_of r) dead && leb confirm_threshold r.consecutive_failures

unfoldable pub is_failing : LinkCheckRow → Bool
unfolding is_confirmed_dead counts_as_failure
is_failing r = counts_as_failure (class_of r) && not (is_confirmed_dead r)

unfoldable pub needs_review : LinkCheckRow → Bool
unfolding class_of same_class
needs_review r = same_class (class_of r) blocked || same_class (class_of r) unknown_class

-- What `next_state` reads of the previous row.
abbrev pub prev_failures : Option LinkCheckRow → ℕ
prev_failures none = 0
prev_failures (some p) = p.consecutive_failures

abbrev pub prev_first_failed : Option LinkCheckRow → Option ℕ
prev_first_failed none = none
prev_first_failed (some p) = p.first_failed_at

abbrev pub prev_last_ok : Option LinkCheckRow → Option ℕ
prev_last_ok none = none
prev_last_ok (some p) = p.last_ok_at

abbrev pub prev_ignored : Option LinkCheckRow → Bool
prev_ignored none = false
prev_ignored (some p) = p.ignored

-- `now - last_checked_at < interval`, with the subtraction moved over.
abbrev pub within_interval : Option LinkCheckRow → (now interval : ℕ) → Bool
within_interval none now interval = false
within_interval (some p) now interval = ltb now (p.last_checked_at + interval)

abbrev pub or_now : Option ℕ → ℕ → Option ℕ
or_now none now = some now
or_now (some t) now = some t

-- The streak, the first failure and the last success.
unfoldable pub next_streak :
    Option LinkCheckRow → CheckClass → (now interval : ℕ) → ℕ × Option ℕ × Option ℕ
unfolding same_class counts_as_failure
next_streak prev class now interval =
    if same_class class ok
    then (0, none, some now)
    else if counts_as_failure class
    then (
      (if within_interval prev now interval
          then max (prev_failures prev) 1
          else prev_failures prev + 1),
      or_now (prev_first_failed prev) now,
      prev_last_ok prev,
    )
    else (prev_failures prev, prev_first_failed prev, prev_last_ok prev)

abbrev trimmed_detail : Text → Option Text
trimmed_detail detail = if is_empty (trim detail) then none else some (trim detail)

unfoldable pub next_state :
    Text
    → LinkKind
    → Option LinkCheckRow
    → CheckClass
    → Option ℕ
    → Text
    → (now interval : ℕ) → LinkCheckRow
unfolding next_streak
next_state url kind prev class status detail now interval =
    let (consecutive_failures, first_failed_at, last_ok_at) = next_streak prev class now interval in
    record {
      url = url;
      kind = kind_as_str kind;
      last_class = class_as_str class;
      last_status = status;
      detail = trimmed_detail detail;
      consecutive_failures = consecutive_failures;
      first_failed_at = first_failed_at;
      last_ok_at = last_ok_at;
      last_checked_at = now;
      ignored = prev_ignored prev;
    }

unfoldable pub get_row : List LinkCheckRow → Text → Option LinkCheckRow
get_row [] url = none
get_row (r ∷ t) url = if same r.url url then some r else get_row t url

unfoldable pub upsert_row : List LinkCheckRow → LinkCheckRow → List LinkCheckRow
upsert_row [] row = row ∷ []
upsert_row (r ∷ t) row = if same r.url row.url then row ∷ t else r ∷ upsert_row t row

unfoldable pub record_check :
    List LinkCheckRow
    → Text
    → LinkKind
    → CheckClass
    → Option ℕ
    → Text
    → ℕ
    → LinkCheckRow × List LinkCheckRow
unfolding get_row upsert_row next_state
record_check t url kind class status detail now =
    let next =
      next_state url kind (get_row t url) class status detail now min_streak_interval_secs in
    (next, upsert_row t next)

-- `ORDER BY consecutive_failures DESC, url ASC`, and `ORDER BY url ASC`
abbrev worst_first : LinkCheckRow → LinkCheckRow → Bool
worst_first r s =
    ltb s.consecutive_failures r.consecutive_failures
    || (r.consecutive_failures == s.consecutive_failures && text_leb r.url s.url)

-- `WHERE last_class != 'ok' AND ignored = 0`
abbrev pub is_problem : LinkCheckRow → Bool
is_problem r = not (same r.last_class (codes "ok")) && not r.ignored

unfoldable pub problem_rows : List LinkCheckRow → List LinkCheckRow
unfolding text_leb
problem_rows t = sort_by worst_first (filter is_problem t)

unfoldable pub ignored_rows : List LinkCheckRow → List LinkCheckRow
unfolding text_leb
ignored_rows t = sort_by (λ r s. text_leb r.url s.url) (filter (λ r. r.ignored) t)

unfoldable pub set_ignored : List LinkCheckRow → Text → Bool → List LinkCheckRow
set_ignored t url flag = map (λ r. if same r.url url then record r { ignored = flag } else r) t

unfoldable pub link_counts : List LinkCheckRow → ℕ × ℕ
link_counts t = (length t, length (filter (λ r. same r.last_class (codes "ok")) t))

-- A row of `link_ref`.
pub record LinkRef : Type 0 where
  pub page_id : ℕ
  pub ref_url : Text

abbrev pub is_referenced : List LinkRef → Text → Bool
is_referenced refs url = any (λ l. same l.ref_url url) refs

unfoldable pub prune_orphans : List LinkCheckRow → List LinkRef → ℕ → ℕ → List LinkCheckRow
prune_orphans t refs now days =
    filter (λ r. not (not (is_referenced refs r.url) && ltb (r.last_checked_at + days * 86400) now))
      t

-- `INSERT OR IGNORE` of one pair.
unfoldable pub insert_ref : ℕ → Text → List LinkRef → List LinkRef
insert_ref page_id url refs =
    if any (λ l. l.page_id == page_id && same l.ref_url url) refs
    then refs
    else refs ++ record { page_id = page_id; ref_url = url } ∷ []

insert_refs : ℕ → List Text → List LinkRef → List LinkRef
unfolding insert_ref
insert_refs page_id [] refs = refs
insert_refs page_id (u ∷ us) refs = insert_refs page_id us (insert_ref page_id u refs)

unfoldable pub replace_for_page : List LinkRef → ℕ → List Text → List LinkRef
unfolding insert_refs
replace_for_page refs page_id urls =
    insert_refs page_id urls (filter (λ l. not (l.page_id == page_id)) refs)

unfoldable pub pages_for_url : List LinkRef → Text → List ℕ
pages_for_url refs url = map (λ l. l.page_id) (filter (λ l. same l.ref_url url) refs)
