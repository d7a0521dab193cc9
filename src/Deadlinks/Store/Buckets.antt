-- ===== src/Deadlinks/Store/Buckets.antt =====
-- The admin view's buckets.
use hotchkiss_io.Base.{
  Bool, Bool-cases, List, [], arith, false, filter, if◌then◌else◌, inl, inr, leb, length,
  length-filter-sort_by, not, refl, ℕ, ◌&&◌, ◌+◌, ◌||◌, ◌∷◌, ◌≡◌, ◌≢◌,
}
use hotchkiss_io.Text.{codes, same}
use hotchkiss_io.Deadlinks.Class.{
  CheckClass, blocked, class_from_stored, counts_as_failure, dead, ok, transient, unknown_class,
}
use hotchkiss_io.Deadlinks.Store.{
  LinkCheckRow, class_of, confirm_threshold, is_confirmed_dead, is_failing, is_problem,
  needs_review, problem_rows, same_class, worst_first,
}

-- A row that is not ok is in exactly one bucket.
one_bucket :
    (r : LinkCheckRow)
    → same r.last_class (codes "ok") ≡ false
    → (if is_confirmed_dead r then 1 else 0)
        + ((if is_failing r then 1 else 0) + (if needs_review r then 1 else 0))
      ≡ 1
unfolding is_failing is_confirmed_dead needs_review class_of
one_bucket r n = by_class (class_from_stored r.last_class) stored
  where
    stored : class_from_stored r.last_class ≢ ok
    stored = unfold class_from_stored in λ h. ground arith

    by_class :
        (c : CheckClass)
        → c ≢ ok
        → (if same_class c dead && leb confirm_threshold r.consecutive_failures then 1 else 0)
            + ((if counts_as_failure c
                    && not (same_class c dead && leb confirm_threshold r.consecutive_failures)
                  then 1
                  else 0)
                + (if same_class c blocked || same_class c unknown_class then 1 else 0))
          ≡ 1
    by_class ok h = absurd (h refl)
    by_class dead h = unfold same_class in unfold counts_as_failure in ground arith
    by_class transient h = unfold same_class in unfold counts_as_failure in ground arith
    by_class blocked h = unfold same_class in unfold counts_as_failure in ground arith
    by_class unknown_class h = unfold same_class in unfold counts_as_failure in ground arith

abbrev count : (LinkCheckRow → Bool) → List LinkCheckRow → ℕ
count p t = length (filter p t)

counts_add_up :
    (t : List LinkCheckRow)
    → count is_confirmed_dead (filter is_problem t)
        + (count is_failing (filter is_problem t) + count needs_review (filter is_problem t))
      ≡ length (filter is_problem t)
counts_add_up [] = refl
counts_add_up (r ∷ t) = elim (Bool-cases (is_problem r)) [
  | inr n ↦ rw n (counts_add_up t)
  | inl y ↦ rw y (ground (arith, counts_add_up t, one_bucket r (ground arith)))
]

-- The numbers of the confirmed dead, the failing and those to review, among the problem rows,
-- add up to the rows neither ok nor dismissed.
pub buckets_add_up :
    (t : List LinkCheckRow)
    → length (filter is_confirmed_dead (problem_rows t))
        + (length (filter is_failing (problem_rows t))
            + length (filter needs_review (problem_rows t)))
      ≡ length (filter is_problem t)
unfolding problem_rows
buckets_add_up t = rw (length-filter-sort_by worst_first is_confirmed_dead (filter is_problem t)) (
    rw (length-filter-sort_by worst_first is_failing (filter is_problem t))
      (rw (length-filter-sort_by worst_first needs_review (filter is_problem t)) (counts_add_up t)))
