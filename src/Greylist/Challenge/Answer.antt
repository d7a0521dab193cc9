-- ===== src/Greylist/Challenge/Answer.antt =====
-- Which answers are accepted, and what binds them to the challenge that was issued.
use hotchkiss_io.Base.{
  Bool-cases, List, [], ap, arith, inl, inr, length, length-append, refl, true, ℕ, ◌++◌, ◌+◌, ◌-◌,
  ◌<◌, ◌^◌, ◌↔◌, ◌∷◌, ◌≡◌, ◌≤◌,
}
use hotchkiss_io.Text.Laws.{same_iff}
use hotchkiss_io.Greylist.Challenge.{
  ChallengeParams, compute_answer, ct_eq, derive_seed, expected_answer, is_fresh, seed_message,
  verify_answer,
}
use hotchkiss_io.Int64.Laws.{le_bytes-injective, length-le_bytes}
use hotchkiss_io.Fallible.{Fallible, done, failed}
use hotchkiss_io.Int64.{i64_bytes}
use hotchkiss_io.Text.Utf8.{as_bytes}

pub ct_eq_iff : (a b : List ℕ) → (ct_eq a b ≡ true) ↔ (a ≡ b)
unfolding ct_eq
ct_eq_iff a b = (λ h. (same_iff a b).0 (ground arith), λ e. rw e (ground (arith, same_iff b b)))

-- For times that are not negative, the window is the closed interval that ends at `now`.
pub is_fresh_nonneg :
    (ts now window : ℕ)
    → ts < 2 ^ 63
    → now < 2 ^ 63
    → window < 2 ^ 63
    → (is_fresh ts now window ≡ true) ↔ ((ts ≤ now) × (now ≤ ts + window))
unfolding is_fresh
is_fresh_nonneg ts now window ht hn hw = (λ h. ground arith, λ h. ground arith)

-- A negative time stamp whose age at a time that is not negative exceeds the range of `i64`
-- passes the test of freshness.
pub is_fresh_overflow :
    (ts now window : ℕ)
    → 2 ^ 63 ≤ ts
    → ts < 2 ^ 64
    → now < 2 ^ 63
    → window < 2 ^ 63
    → 2 ^ 63 ≤ now + (2 ^ 64 - ts)
    → is_fresh ts now window ≡ true
unfolding is_fresh
is_fresh_overflow ts now window h ht hn hw old = ground arith

module _ (hmac : List ℕ → List ℕ → Fallible (List ℕ)) where
  -- The answer that the protocol asks for.
  abbrev pub IsAnswer : List ℕ → ChallengeParams → List ℕ → List ℕ → Type 0
  IsAnswer server_key p digest answer =
      (seed : List ℕ) × (hmac server_key (seed_message p) ≡ done seed)
      × (hmac seed digest ≡ done answer)

  expected_answer_iff :
      (server_key : List ℕ) (p : ChallengeParams) (digest answer : List ℕ)
      → (expected_answer hmac server_key p digest ≡ done answer)
        ↔ IsAnswer server_key p digest answer
  unfolding expected_answer derive_seed compute_answer
  expected_answer_iff server_key p digest answer = (
    λ h. seeded (hmac server_key (seed_message p)) refl h,
    λ a. rw (a.1, expected_answer, derive_seed, compute_answer) a.2,
  )
    where
      seeded :
          (f : Fallible (List ℕ))
          → hmac server_key (seed_message p) ≡ f
          → elim f [ failed ↦ failed | done seed ↦ hmac seed digest ] ≡ done answer
          → IsAnswer server_key p digest answer
      seeded failed e h = absurd (cc h)
      seeded (done seed) e h = (seed, e, h)

  -- For times and a window that are not negative, an answer is accepted exactly when its time
  -- stamp lies in the window that ends at `now` and it is the MAC of the image digest under the
  -- seed of the parameters echoed.
  pub verify_answer_iff :
      (server_key : List ℕ) (p : ChallengeParams) (digest answer : List ℕ) (now window : ℕ)
      → p.ts < 2 ^ 63
      → now < 2 ^ 63
      → window < 2 ^ 63
      → (verify_answer hmac server_key p digest answer now window ≡ done true)
        ↔ ((p.ts ≤ now) × (now ≤ p.ts + window) × IsAnswer server_key p digest answer)
  unfolding verify_answer
  verify_answer_iff server_key p digest answer now window ht hn hw =
      let fresh_iff = is_fresh_nonneg p.ts now window ht hn hw in
      elim (Bool-cases (is_fresh p.ts now window)) [
        | inl y ↦ rw y (
          λ h.
              let (a, b) = fresh_iff.0 y in
              (
                a,
                b,
                (expected_answer_iff server_key p digest answer).0
                    (compared (expected_answer hmac server_key p digest) h),
              ),
          λ a.
              rw ((expected_answer_iff server_key p digest answer).1 a.2)
                (ap done ((ct_eq_iff answer answer).1 refl)),
        )
        | inr n ↦ rw n (λ h. absurd (cc h), λ a. absurd (ground (arith, n, fresh_iff.1 (a.0, a.1))))
      ]
    where
      compared :
          (f : Fallible (List ℕ))
          → elim f [ failed ↦ failed | done expected ↦ done (ct_eq expected answer) ] ≡ done true
          → f ≡ done answer
      compared failed h = absurd (cc h)
      compared (done expected) h =
          let t : ct_eq expected answer ≡ true = cc in ap done ((ct_eq_iff expected answer).0 t)

append_cancel : (xs ys a b : List ℕ) → length a ≡ length b → xs ++ a ≡ ys ++ b → (xs ≡ ys) × (a ≡ b)
append_cancel [] [] a b l e = (refl, e)
append_cancel [] (y ∷ ys) a b l e = absurd (omega (arith, ap length e, length-append (y ∷ ys) b, l))
append_cancel (x ∷ xs) [] a b l e = absurd (omega (arith, ap length e, length-append (x ∷ xs) a, l))
append_cancel (x ∷ xs) (y ∷ ys) a b l e = let (p, q) = append_cancel xs ys a b l cc in (cc, q)

-- For one version of the image and stamps that are `i64`s, the message under the MAC determines
-- the parameters, whatever the length of the nonce that a client echoes.
pub seed_message-injective :
    (p q : ChallengeParams)
    → p.ts < 2 ^ 64
    → q.ts < 2 ^ 64
    → p.version ≡ q.version
    → seed_message p ≡ seed_message q
    → p ≡ q
unfolding seed_message
seed_message-injective p q hp hq v e =
    let l = length-le_bytes 8 in
    let w : length (i64_bytes p.ts ++ as_bytes p.version)
        ≡ length (i64_bytes q.ts ++ as_bytes q.version) =
      omega (
        arith,
        length-append (i64_bytes p.ts) (as_bytes p.version),
        length-append (i64_bytes q.ts) (as_bytes q.version),
        l p.ts,
        l q.ts,
        ap (λ s. length (as_bytes s)) v,
      ) in
    let (nonce, tail) = append_cancel p.inner_seed q.inner_seed _ _ w e in
    let (stamp, _) =
      append_cancel (i64_bytes p.ts) (i64_bytes q.ts) (as_bytes p.version) (as_bytes q.version)
        (ap (λ s. length (as_bytes s)) v) tail in
    let t = le_bytes-injective 8 p.ts q.ts hp hq stamp in cc
