-- ===== src/Deadlinks/Scan/Loops.antt =====
-- What the two loops over the targets leave fresh.
use hotchkiss_io.Base.{
  All, Bool, Bool-cases, List, [], any, ap, arith, false, if◌then◌else◌, inl, inr, none, not, refl,
  sym, true, ℕ, ◌&&◌, ◌||◌, ◌∙◌, ◌∷◌, ◌≡◌,
}
use hotchkiss_io.Text.{Text, same}
use hotchkiss_io.Deadlinks.Class.{InternalVerdict, class_of_verdict, external, internal}
use hotchkiss_io.Deadlinks.Store.{LinkCheckRow, record_check}
use hotchkiss_io.Deadlinks.Scan.{Outside, check_externals, check_internals, internal_detail}
use hotchkiss_io.Deadlinks.Classify.{LinkTarget, external_url, internal_path, skip}
use hotchkiss_io.Fallible.{Fallible, done, failed}
use hotchkiss_io.Deadlinks.External.{check}
use hotchkiss_io.Deadlinks.Internal.{resolve_internal}
use hotchkiss_io.Deadlinks.Scan.Rows.{fresh, record_check-fresh}
use hotchkiss_io.Text.Laws.{same_iff}

-- A target that the loops check, under its own URL.
abbrev pub IsGood : Text × LinkTarget → Type 0
IsGood (url, internal_path path) = Unit
IsGood (url, external_url u) = u ≡ url
IsGood (url, skip r) = ⊥

abbrev pub has_target : List (Text × LinkTarget) → Text → Bool
has_target targets url = any (λ e. same e.0 url) targets

-- The URLs of the targets that the loop over the internal links, or the other one, records.
abbrev is_internal : LinkTarget → Bool
is_internal (internal_path path) = true
is_internal (external_url u) = false
is_internal (skip r) = false

abbrev pub has_internal : List (Text × LinkTarget) → Text → Bool
has_internal targets url = any (λ e. same e.0 url && is_internal e.1) targets

abbrev pub has_external : List (Text × LinkTarget) → Text → Bool
has_external targets url = any (λ e. same e.0 url && not (is_internal e.1)) targets

-- A URL whose row could not be written is another one than a URL whose row can be.
differs : (f : Text → Bool) (u url : Text) → f u ≡ true → f url ≡ false → same u url ≡ false
differs f u url y n = elim (Bool-cases (same u url)) [
  | inl s ↦ absurd (cc (y, n, ap f ((same_iff u url).0 s)))
  | inr k ↦ k
]

module _ (o : Outside) (now : ℕ) (url : Text) where
  pub check_externals-fresh :
      (targets : List (Text × LinkTarget)) (t : List LinkCheckRow)
      → All IsGood targets
      → o.record_fails url ≡ false
      → fresh (check_externals o now targets t) url now
        ≡ (fresh t url now || has_external targets url)
  unfolding check_externals
  check_externals-fresh [] t g k = ground arith
  check_externals-fresh ((u, external_url x) ∷ targets) t (e, g) k =
      let got = check o.send x in
      elim (Bool-cases (o.record_fails x)) [
        | inl y ↦
            let apart : same u url ≡ false =
              differs o.record_fails u url (ap o.record_fails (sym e) ∙ y) k in
            rw y (check_externals-fresh targets t g k ∙ ground (arith, apart))
        | inr n ↦ rw n (
            check_externals-fresh targets
              (record_check t x external got.class got.status got.detail now).1 g k
            ∙ ground
                (arith, record_check-fresh t x external got.class got.status got.detail now url, e))
      ]
  check_externals-fresh ((u, internal_path path) ∷ targets) t (e, g) k =
      check_externals-fresh targets t g k ∙ ground arith
  check_externals-fresh ((u, skip r) ∷ targets) t (e, g) k = absurd e

  -- The loop over the internal links, when it was not cut short.
  pub check_internals-fresh :
      (targets : List (Text × LinkTarget)) (t kept : List LinkCheckRow)
      → check_internals o now targets t ≡ (true, kept)
      → fresh kept url now ≡ (fresh t url now || has_internal targets url)
  unfolding check_internals
  check_internals-fresh [] t kept h = let e : t ≡ kept = ap (λ p. p.1) h in rw (← e) (ground arith)
  check_internals-fresh ((u, internal_path path) ∷ targets) t kept h =
      resolved (resolve_internal o.site path)
        (λ v.
          check_internals-fresh targets
            (record_check t u internal (class_of_verdict v) none (internal_detail v) now).1 kept)
        h
    where
      resolved :
          (f : Fallible InternalVerdict)
          → ((v : InternalVerdict)
              → check_internals o now targets
                  (record_check t u internal (class_of_verdict v) none (internal_detail v) now).1
                ≡ (true, kept)
              → fresh kept url now ≡ (
                  fresh
                    (record_check t u internal (class_of_verdict v) none (internal_detail v) now).1
                    url
                    now
                  || has_internal targets url))
          → elim f [
            | failed ↦ (false, t)
            | done v ↦
                let rest =
                  check_internals o now targets
                    (record_check t u internal
                      (class_of_verdict v)
                      none
                      (internal_detail v)
                      now).1 in
                if o.record_fails u then (false, t) else rest
          ]
            ≡ (true, kept)
          → fresh kept url now
            ≡ (fresh t url now || ((same u url && true) || has_internal targets url))
      resolved failed k e = absurd (cc (ap (λ p. p.0) e))
      resolved (done v) k e = elim (Bool-cases (o.record_fails u)) [
        | inl y ↦ absurd (ground (arith, e, y))
        | inr n ↦
            k v (ground (arith, e, n))
            ∙ ground (
              arith,
              record_check-fresh t u internal (class_of_verdict v) none (internal_detail v) now url,
            )
      ]
  check_internals-fresh ((u, external_url x) ∷ targets) t kept h =
      check_internals-fresh targets t kept h ∙ ground arith
  check_internals-fresh ((u, skip r) ∷ targets) t kept h =
      check_internals-fresh targets t kept h ∙ ground arith

  pub has_either :
      (targets : List (Text × LinkTarget))
      → (has_internal targets url || has_external targets url) ≡ has_target targets url
  has_either [] = refl
  has_either ((u, t) ∷ targets) = ground (arith, has_either targets)
