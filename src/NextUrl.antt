-- ===== src/NextUrl.antt =====
-- src/web/util/next_url.rs: where a login may send its user.
pub mod Safe
use hotchkiss_io.Base.{
  Bool, Option, [], any, false, if◌then◌else◌, ltb, none, not, some, ℕ, ◌==◌, ◌||◌, ◌∷◌,
}
use hotchkiss_io.Text.{Text}
use hotchkiss_io.Text.Utf8.{as_bytes}

-- The second character, if it would take a browser to another site.
abbrev leaves : Text → Bool
leaves [] = false
leaves (c ∷ s) = c == b'/' || c == 92

abbrev pub is_control_byte : ℕ → Bool
is_control_byte b = ltb b 0x20 || b == 0x7f

unfoldable pub safe_next : Text → Option Text
unfolding as_bytes
safe_next [] = none
safe_next (c ∷ s) =
    if not (c == b'/')
    then none
    else if leaves s
    then none
    else if any (λ d. d == 92) (c ∷ s)
    then none
    else if any is_control_byte (as_bytes (c ∷ s))
    then none
    else some (c ∷ s)
