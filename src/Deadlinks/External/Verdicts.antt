-- ===== src/Deadlinks/External/Verdicts.antt =====
-- When an external link is dead.
use hotchkiss_io.Base.{
  Option, ap, arith, inl, inr, none, refl, some, ℕ, ◌<◌, ◌↔◌, ◌∙◌, ◌≡◌, ◌≤◌, ◌⊎◌,
}
use hotchkiss_io.Text.{Text}
use hotchkiss_io.Deadlinks.Class.{CheckClass, dead, ok}
use hotchkiss_io.Deadlinks.External.{
  Sent, Verb, after_head, answered, check, classify_error, classify_status, clean_status,
  connect_failed, errored, get_request, head_request, other_error, outcome_from_status, outcome_of,
  timeout,
}

-- The status that says the page is gone.
abbrev pub IsGone : Sent → Type 0
IsGone s = (s ≡ answered 404) ⊎ ((s ≡ answered 410) ⊎ (s ≡ errored connect_failed))

classify_status_ok : (n : ℕ) → (classify_status n ≡ ok) ↔ ((200 ≤ n) × (n < 400))
unfolding classify_status
classify_status_ok n = (λ h. ground arith, λ h. ground arith)

classify_status_dead : (n : ℕ) → (classify_status n ≡ dead) ↔ ((n ≡ 404) ⊎ (n ≡ 410))
unfolding classify_status
classify_status_dead n = (λ h. ground arith, λ h. ground arith)

outcome_of_dead : (s : Sent) → ((outcome_of s).class ≡ dead) ↔ IsGone s
unfolding outcome_of outcome_from_status classify_error
outcome_of_dead (answered n) = (
  λ h. elim ((classify_status_dead n).0 h) [
    | inl e ↦ inl (ap answered e)
    | inr e ↦ inr (inl (ap answered e))
  ],
  λ h. (classify_status_dead n).1 (gone_status h),
)
  where
    gone_status : IsGone (answered n) → (n ≡ 404) ⊎ (n ≡ 410)
    gone_status (inl e) = inl cc
    gone_status (inr (inl e)) = inr cc
    gone_status (inr (inr e)) = absurd (cc e)
outcome_of_dead (errored timeout) = (λ h. absurd (cc h), λ h. ground arith)
outcome_of_dead (errored connect_failed) = (λ h. inr (inr refl), λ h. refl)
outcome_of_dead (errored (other_error m)) = (λ h. absurd (cc h), λ h. ground arith)

clean_status_range : (s : Sent) (n : ℕ) → clean_status s ≡ some n → (200 ≤ n) × (n < 400)
unfolding clean_status
clean_status_range (answered m) n h = ground arith
clean_status_range (errored e) n h = absurd (cc h)

after_head_dead :
    (o : Option ℕ) (got : Sent)
    → ((n : ℕ) → o ≡ some n → (200 ≤ n) × (n < 400))
    → ((after_head o got).class ≡ dead) ↔ ((o ≡ none) × IsGone got)
unfolding after_head
after_head_dead none got clean =
    (λ h. (refl, (outcome_of_dead got).0 h), λ h. (outcome_of_dead got).1 h.1)
after_head_dead (some n) got clean =
    let good = (classify_status_ok n).1 (clean n refl) in
    (λ h. absurd (clash (outcome_class n ∙ good) h), λ h. absurd (cc h.0))
  where
    outcome_class : (n : ℕ) → (outcome_from_status n).class ≡ classify_status n
    outcome_class n = unfold outcome_from_status in refl

    clash : {c : CheckClass} → c ≡ ok → c ≡ dead → ⊥
    clash e h = cc (e, h)

-- A link is dead exactly when HEAD did not come back clean and GET says 404 or 410 or finds
-- nothing to connect to.
pub check_dead :
    (send : Verb → Text → Sent) (url : Text)
    → ((check send url).class ≡ dead)
      ↔ ((clean_status (send head_request url) ≡ none) × IsGone (send get_request url))
unfolding check
check_dead send url =
    after_head_dead (clean_status (send head_request url)) (send get_request url)
      (λ n e. clean_status_range (send head_request url) n e)
