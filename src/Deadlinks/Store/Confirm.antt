-- ===== src/Deadlinks/Store/Confirm.antt =====
-- What "confirmed dead" means, and when it comes about.
use native.Mathlib.Nat.{mul-le-mul_right}
use hotchkiss_io.Base.{
  Bool-cases, List, Option, [], ap, arith, false, inl, inr, ltb, none, refl, some, subst, sym, true,
  ℕ, ◌*◌, ◌+◌, ◌∙◌, ◌∷◌, ◌≡◌, ◌≤◌,
}
use hotchkiss_io.Deadlinks.Class.{
  CheckClass, LinkKind, blocked, class_as_str, class_from_stored, class_from_stored-as_str,
  counts_as_failure, dead, ok, transient, unknown_class,
}
use hotchkiss_io.Deadlinks.Store.Streak.{
  Check, Counts, FailingSince, HasStreak, IsMonotone, run_checks, run_checks-HasStreak,
}
use hotchkiss_io.Deadlinks.Store.{
  LinkCheckRow, class_of, is_confirmed_dead, next_state, next_streak, same_class, within_interval,
}
use hotchkiss_io.Text.{Text}

-- A confirmed row after a history: the latest check said dead, and some check at least two
-- intervals before it failed, with no success in between.
abbrev pub IsLongDead : ℕ → List Check → Type 0
IsLongDead interval [] = ⊥
IsLongDead interval (c ∷ h) =
    (c.class ≡ dead) × ((since : ℕ) × FailingSince since (c ∷ h) × (since + 2 * interval ≤ c.at))

long_since :
    (interval : ℕ) (h : List Check) (k last : ℕ) (first : Option ℕ)
    → 3 ≤ k
    → Counts interval h k first last
    → (since : ℕ) × FailingSince since h × (since + 2 * interval ≤ last)
long_since interval h k last none three e = absurd (omega (arith, three, e))
long_since interval h k last (some f) three (one, span, since) =
    (f, since, omega (arith, span, mul-le-mul_right {m = 3} {n = k} interval three))

same_class_iff : (a b : CheckClass) → same_class a b ≡ true → a ≡ b
unfolding same_class
same_class_iff ok ok h = refl
same_class_iff dead dead h = refl
same_class_iff transient transient h = refl
same_class_iff blocked blocked h = refl
same_class_iff unknown_class unknown_class h = refl
same_class_iff _ _ h = absurd (cc h)

latest_class :
    (url : Text) (kind : LinkKind) (interval : ℕ) (c : Check) (h : List Check) (r : LinkCheckRow)
    → run_checks url kind interval (c ∷ h) ≡ some r
    → same_class (class_from_stored r.last_class) dead ≡ true
    → c.class ≡ dead
unfolding next_state
latest_class url kind interval c h r e y =
    let stored : class_as_str c.class ≡ r.last_class = cc in
    sym (class_from_stored-as_str c.class)
    ∙ ap class_from_stored stored
    ∙ same_class_iff (class_from_stored r.last_class) dead y

latest_at :
    (url : Text) (kind : LinkKind) (interval : ℕ) (c : Check) (h : List Check) (r : LinkCheckRow)
    → run_checks url kind interval (c ∷ h) ≡ some r
    → r.last_checked_at ≡ c.at
unfolding next_state
latest_at url kind interval c h r e = cc

-- After a history in which no check is older than the one before it, a confirmed dead link was
-- dead at its latest check, and has been failing for at least two full intervals with no
-- successful check in between.
pub confirmed-IsLongDead :
    (url : Text) (kind : LinkKind) (interval : ℕ) (h : List Check) (r : LinkCheckRow)
    → IsMonotone h
    → run_checks url kind interval h ≡ some r
    → is_confirmed_dead r ≡ true
    → IsLongDead interval h
unfolding is_confirmed_dead class_of
confirmed-IsLongDead url kind interval [] r m e y = absurd (cc e)
confirmed-IsLongDead url kind interval (c ∷ h) r m e y =
    let streak : HasStreak interval (c ∷ h) (some r) =
      subst (HasStreak interval (c ∷ h)) e (run_checks-HasStreak url kind interval (c ∷ h) m) in
    (
      latest_class url kind interval c h r e (ground arith),
      subst (λ t. (since : ℕ) × FailingSince since (c ∷ h) × (since + 2 * interval ≤ t))
          (latest_at url kind interval c h r e)
          (long_since interval (c ∷ h) r.consecutive_failures r.last_checked_at r.first_failed_at
            (ground arith) streak),
    )

next_state-class :
    (url : Text) (kind : LinkKind) (interval : ℕ) (c : Check) (prev : Option LinkCheckRow)
    → class_from_stored
        (next_state url kind prev c.class c.status c.detail c.at interval).last_class
      ≡ c.class
unfolding next_state
next_state-class url kind interval c prev = class_from_stored-as_str c.class

-- One dead verdict, an interval or more after the check before it: the streak grows by one.
advance_spaced :
    (url : Text) (kind : LinkKind) (interval : ℕ) (c : Check) (r : LinkCheckRow)
    → c.class ≡ dead
    → r.last_checked_at + interval ≤ c.at
    → (next_state url kind (some r) c.class c.status c.detail c.at interval).consecutive_failures
      ≡ r.consecutive_failures + 1
unfolding next_state next_streak same_class counts_as_failure
advance_spaced url kind interval c r e spaced =
    let late : ltb c.at (r.last_checked_at + interval) ≡ false = ground arith in rw e (rw late refl)

first_dead :
    (url : Text) (kind : LinkKind) (interval : ℕ) (c : Check) (prev : Option LinkCheckRow)
    → c.class ≡ dead
    → 1 ≤ (next_state url kind prev c.class c.status c.detail c.at interval).consecutive_failures
unfolding next_state next_streak same_class counts_as_failure
first_dead url kind interval c prev e =
    rw e (elim (Bool-cases (within_interval prev c.at interval)) [
      | inl y ↦ rw y (omega arith)
      | inr n ↦ rw n (omega arith)
    ])

-- Three dead verdicts, each at least an interval after the one before, confirm a link, whatever its
-- row was before them.
pub three_dead_confirm :
    (url : Text) (kind : LinkKind) (interval : ℕ) (h : List Check) (a b c : Check)
    → a.class ≡ dead
    → b.class ≡ dead
    → c.class ≡ dead
    → a.at + interval ≤ b.at
    → b.at + interval ≤ c.at
    → (r : LinkCheckRow) → run_checks url kind interval (c ∷ b ∷ a ∷ h) ≡ some r
    → is_confirmed_dead r ≡ true
unfolding is_confirmed_dead class_of
three_dead_confirm url kind interval h a b c da db dc ab bc r e =
    let ra =
      next_state url kind (run_checks url kind interval h) a.class a.status a.detail a.at
        interval in
    let rb = next_state url kind (some ra) b.class b.status b.detail b.at interval in
    let ka = first_dead url kind interval a (run_checks url kind interval h) da in
    let kb = advance_spaced url kind interval b ra db (unfold next_state in ab) in
    let kc = advance_spaced url kind interval c rb dc (unfold next_state in bc) in
    let same_row : next_state url kind (some rb) c.class c.status c.detail c.at interval ≡ r = cc in
    let stored : class_from_stored r.last_class ≡ dead =
      ap (λ q. class_from_stored q.last_class) (sym same_row)
      ∙ (next_state-class url kind interval c (some rb) ∙ dc) in
    let three : 3 ≤ r.consecutive_failures =
      subst (λ q. 3 ≤ q.consecutive_failures) same_row (omega (arith, ka, kb, kc)) in
    rw stored (unfold same_class in ground (arith, three))
