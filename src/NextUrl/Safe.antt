-- ===== src/NextUrl/Safe.antt =====
-- What a login's target is, and how the toll's test differs from it.
use hotchkiss_io.Base.{
  [], all, any, arith, false, none, not, refl, some, true, ◌&&◌, ◌==◌, ◌∷◌, ◌≡◌,
}
use hotchkiss_io.Text.{Text, codes, is_whitespace, starts_with, strip_prefix}
use hotchkiss_io.NextUrl.{is_control_byte, leaves, safe_next}
use hotchkiss_io.Greylist.Toll.{is_control, validate_redir}
use hotchkiss_io.Text.Utf8.{as_bytes}

-- A path of this site as every browser reads it: one slash in front, no backslash, no control byte.
pub record IsSiteTarget (raw : Text) : Type 0 where
  pub rest : Text
  pub rooted : raw ≡ b'/' ∷ rest
  pub no_second_slash : starts_with (codes "/") rest ≡ false
  pub no_backslash : any (λ d. d == 92) raw ≡ false
  pub no_control : any is_control_byte (as_bytes raw) ≡ false

no_slash : (s : Text) → leaves s ≡ false → starts_with (codes "/") s ≡ false
unfolding strip_prefix
no_slash [] h = refl
no_slash (c ∷ s) h = ground arith

-- A login's target is given only as it was asked for, and only if it is a path with one slash in
-- front, no backslash and no control byte.
pub safe_next-IsSiteTarget : (raw r : Text) → safe_next raw ≡ some r → (r ≡ raw) × IsSiteTarget raw
unfolding safe_next
safe_next-IsSiteTarget [] r h = absurd (cc h)
safe_next-IsSiteTarget (c ∷ s) r h =
    let slash : c ≡ b'/' = ground (arith, h) in
    (
      ground (arith, h),
      record {
        rest = s;
        rooted = rw slash refl;
        no_second_slash = no_slash s (ground (arith, h));
        no_backslash = ground (arith, h);
        no_control = ground (arith, h);
      },
    )

-- A text with a slash, a backslash and a host free of controls and whitespace passes the toll's test
-- for a target unchanged, while the login's test refuses it.
pub validate_redir-backslash :
    (host : Text)
    → all (λ c. not (is_control c) && not (is_whitespace c)) host ≡ true
    → (validate_redir (some (b'/' ∷ 92 ∷ host)) ≡ b'/' ∷ 92 ∷ host)
      × (safe_next (b'/' ∷ 92 ∷ host) ≡ none)
unfolding validate_redir safe_next strip_prefix is_whitespace
validate_redir-backslash host h = (rw h refl, refl)
