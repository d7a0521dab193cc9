-- ===== src/Text/Trim.antt =====
-- Trimming a text.
use hotchkiss_io.Base.{
  All, Bool, Bool-cases, [], ap, arith, false, inl, inr, refl, ℕ, ◌∙◌, ◌∷◌, ◌≡◌,
}
use hotchkiss_io.Text.{Text, is_whitespace, trim, trim_end_matches, trim_start_matches}

module _ (p : ℕ → Bool) where
  trim_end_matches_idem :
      (s : Text) → trim_end_matches p (trim_end_matches p s) ≡ trim_end_matches p s
  unfolding trim_end_matches
  trim_end_matches_idem [] = refl
  trim_end_matches_idem (c ∷ s) = ground (arith, trim_end_matches_idem s)

  -- A text that does not begin with a character to trim keeps its first character.
  trim_end_matches-cons :
      (c : ℕ) (s : Text) → p c ≡ false → trim_end_matches p (c ∷ s) ≡ c ∷ trim_end_matches p s
  unfolding trim_end_matches
  trim_end_matches-cons c s h = rw h

  abbrev StartsClean : Text → Type 0
  StartsClean [] = Unit
  StartsClean (c ∷ s) = p c ≡ false

  trim_start_matches-StartsClean : (s : Text) → StartsClean (trim_start_matches p s)
  unfolding trim_start_matches
  trim_start_matches-StartsClean [] = tt
  trim_start_matches-StartsClean (c ∷ s) = elim (Bool-cases (p c)) [
    | inl y ↦ rw y (trim_start_matches-StartsClean s)
    | inr n ↦ rw n n
  ]

  trim_start_matches_of_StartsClean : (s : Text) → StartsClean s → trim_start_matches p s ≡ s
  unfolding trim_start_matches
  trim_start_matches_of_StartsClean [] h = refl
  trim_start_matches_of_StartsClean (c ∷ s) h = rw h

  trim_end_matches-StartsClean : (s : Text) → StartsClean s → StartsClean (trim_end_matches p s)
  trim_end_matches-StartsClean [] h = unfold trim_end_matches in tt
  trim_end_matches-StartsClean (c ∷ s) h = rw (trim_end_matches-cons c s h) h

  pub trim_both_idem :
      (s : Text)
      → trim_end_matches p (trim_start_matches p (trim_end_matches p (trim_start_matches p s)))
        ≡ trim_end_matches p (trim_start_matches p s)
  trim_both_idem s =
      rw
        (trim_start_matches_of_StartsClean (trim_end_matches p (trim_start_matches p s))
          (trim_end_matches-StartsClean _ (trim_start_matches-StartsClean s)))
        (trim_end_matches_idem (trim_start_matches p s))

-- Trimming twice is trimming once.
pub trim_idem : (s : Text) → trim (trim s) ≡ trim s
unfolding trim
trim_idem s = trim_both_idem is_whitespace s

-- A text with no whitespace is its own trim.
pub trim_of_black : (s : Text) → All (λ c. is_whitespace c ≡ false) s → trim s ≡ s
unfolding trim
trim_of_black s h = rw (trim_start_matches_of_StartsClean is_whitespace s (clean s h)) (kept s h)
  where
    clean : (s : Text) → All (λ c. is_whitespace c ≡ false) s → StartsClean is_whitespace s
    clean [] h = tt
    clean (c ∷ s) h = h.0

    kept : (s : Text) → All (λ c. is_whitespace c ≡ false) s → trim_end_matches is_whitespace s ≡ s
    kept [] h = refl
    kept (c ∷ s) h = trim_end_matches-cons is_whitespace c s h.0 ∙ ap (◌∷◌ c) (kept s h.1)
