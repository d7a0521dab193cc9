-- ===== src/Deadlinks/Store/Streak.antt =====
-- The streak over the history of a URL's checks.
use Prim.Native.Nat.{max}
use hotchkiss_io.Base.{
  Bool-cases, List, Option, [], arith, if◌then◌else◌, inl, inr, ltb, none, refl, some, true, ℕ, ◌*◌,
  ◌+◌, ◌∷◌, ◌≡◌, ◌≢◌, ◌≤◌, ◌⊎◌,
}
use hotchkiss_io.Text.{Text}
use hotchkiss_io.Deadlinks.Class.{
  CheckClass, LinkKind, blocked, counts_as_failure, dead, ok, transient, unknown_class,
}
use hotchkiss_io.Deadlinks.Store.{LinkCheckRow, next_state, next_streak, or_now, same_class}

pub record Check : Type 0 where
  pub class : CheckClass
  pub status : Option ℕ
  pub detail : Text
  pub at : ℕ

-- The row after a history of checks, the newest first.
abbrev pub run_checks : Text → LinkKind → ℕ → List Check → Option LinkCheckRow
run_checks url kind interval [] = none
run_checks url kind interval (c ∷ h) =
    some
      (next_state url kind (run_checks url kind interval h) c.class c.status c.detail c.at interval)

-- No check is older than the one before it.
abbrev pub IsMonotone : List Check → Type 0
IsMonotone [] = Unit
IsMonotone (c ∷ []) = Unit
IsMonotone (c ∷ d ∷ h) = (d.at ≤ c.at) × IsMonotone (d ∷ h)

-- A failing check at `since`, and no successful one after it.
abbrev pub FailingSince : ℕ → List Check → Type 0
FailingSince since [] = ⊥
FailingSince since (c ∷ h) =
    ((c.at ≡ since) × (counts_as_failure c.class ≡ true)) ⊎ ((c.class ≢ ok) × FailingSince since h)

-- The streak `k`, the first failure and the last check, against the history.
abbrev pub Counts : ℕ → List Check → (k : ℕ) → Option ℕ → (last : ℕ) → Type 0
Counts interval h k none last = k ≡ 0
Counts interval h k (some f) last =
    (1 ≤ k) × (f + k * interval ≤ last + interval) × FailingSince f h

abbrev pub HasStreak : ℕ → List Check → Option LinkCheckRow → Type 0
HasStreak interval h none = h ≡ []
HasStreak interval h (some r) =
    Counts interval h r.consecutive_failures r.first_failed_at r.last_checked_at

failing_is_not_ok : (c : CheckClass) → counts_as_failure c ≡ true → c ≢ ok
unfolding counts_as_failure
failing_is_not_ok ok h = absurd (cc h)
failing_is_not_ok dead h = λ e. cc e
failing_is_not_ok transient h = λ e. cc e
failing_is_not_ok blocked h = absurd (cc h)
failing_is_not_ok unknown_class h = absurd (cc h)

-- One failing check more.
advance-Counts :
    (interval k last : ℕ) (first : Option ℕ) (c : Check) (h : List Check)
    → counts_as_failure c.class ≡ true
    → last ≤ c.at
    → Counts interval h k first last
    → Counts interval
        (c ∷ h)
        (if ltb c.at (last + interval) then max k 1 else k + 1)
        (or_now first c.at)
        c.at
advance-Counts interval k last none c h y m e =
    let one : (if ltb c.at (last + interval) then max k 1 else k + 1) ≡ 1 = ground arith in
    rw one (omega arith, omega arith, inl (refl, y))
advance-Counts interval k last (some f) c h y m (one, span, since) =
    elim (Bool-cases (ltb c.at (last + interval))) [
      | inl t ↦ rw t (ground arith, ground arith, inr (failing_is_not_ok c.class y, since))
      | inr n ↦ rw n (omega arith, ground arith, inr (failing_is_not_ok c.class y, since))
    ]

hold-Counts :
    (interval k last : ℕ) (first : Option ℕ) (c : Check) (h : List Check)
    → c.class ≢ ok
    → last ≤ c.at
    → Counts interval h k first last
    → Counts interval (c ∷ h) k first c.at
hold-Counts interval k last none c h y m e = e
hold-Counts interval k last (some f) c h y m (one, span, since) =
    (one, omega (arith, span, m), inr (y, since))

-- The row of a first check.
first-HasStreak :
    (url : Text) (kind : LinkKind) (interval : ℕ) (c : Check)
    → HasStreak interval
        (c ∷ [])
        (some (next_state url kind none c.class c.status c.detail c.at interval))
unfolding next_state next_streak same_class counts_as_failure
first-HasStreak url kind interval c = of_class c.class refl
  where
    of_class :
        (k : CheckClass)
        → c.class ≡ k
        → HasStreak interval
            (c ∷ [])
            (some (next_state url kind none k c.status c.detail c.at interval))
    of_class ok e = refl
    of_class dead e = (omega arith, omega arith, inl (refl, rw e refl))
    of_class transient e = (omega arith, omega arith, inl (refl, rw e refl))
    of_class blocked e = refl
    of_class unknown_class e = refl

step-HasStreak :
    (url : Text) (kind : LinkKind) (interval : ℕ) (c : Check) (h : List Check) (r : LinkCheckRow)
    → r.last_checked_at ≤ c.at
    → HasStreak interval h (some r)
    → HasStreak interval
        (c ∷ h)
        (some (next_state url kind (some r) c.class c.status c.detail c.at interval))
unfolding next_state next_streak same_class counts_as_failure
step-HasStreak url kind interval c h r m s = of_class c.class refl
  where
    of_class :
        (k : CheckClass)
        → c.class ≡ k
        → HasStreak interval
            (c ∷ h)
            (some (next_state url kind (some r) k c.status c.detail c.at interval))
    of_class ok e = refl
    of_class dead e =
        advance-Counts interval r.consecutive_failures r.last_checked_at r.first_failed_at c h
          (rw e refl) m s
    of_class transient e =
        advance-Counts interval r.consecutive_failures r.last_checked_at r.first_failed_at c h
          (rw e refl) m s
    of_class blocked e =
        hold-Counts interval r.consecutive_failures r.last_checked_at r.first_failed_at c h
          (λ q. cc (e, q)) m s
    of_class unknown_class e =
        hold-Counts interval r.consecutive_failures r.last_checked_at r.first_failed_at c h
          (λ q. cc (e, q)) m s

pub run_checks-HasStreak :
    (url : Text) (kind : LinkKind) (interval : ℕ) (h : List Check)
    → IsMonotone h
    → HasStreak interval h (run_checks url kind interval h)
run_checks-HasStreak url kind interval [] m = refl
run_checks-HasStreak url kind interval (c ∷ []) m = first-HasStreak url kind interval c
run_checks-HasStreak url kind interval (c ∷ d ∷ h) (later, m) =
    step-HasStreak url kind interval c (d ∷ h) _ (unfold next_state in later)
      (run_checks-HasStreak url kind interval (d ∷ h) m)
