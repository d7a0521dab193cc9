-- ===== src/Urlencode.antt =====
-- src/web/util/urlencode.rs: percent-encoding of a query value, over the bytes of its UTF-8.
pub mod RoundTrip
use hotchkiss_io.Base.{
  Bool, List, [], if◌then◌else◌, ltb, ℕ, ◌%◌, ◌++◌, ◌+◌, ◌-◌, ◌/◌, ◌==◌, ◌||◌, ◌∷◌,
}
use hotchkiss_io.Text.{Text, is_ascii_alphanumeric}
use hotchkiss_io.Text.Utf8.{as_bytes}

abbrev pub is_unreserved : ℕ → Bool
is_unreserved b = is_ascii_alphanumeric b || (b == b'-' || (b == b'_' || (b == b'.' || b == b'~')))

abbrev pub hex_digit : ℕ → ℕ
hex_digit n = if ltb n 10 then b'0' + n else b'A' + (n - 10)

-- `%{b:02X}`
abbrev pub percent : ℕ → Text
percent b = b'%' ∷ hex_digit (b / 16) ∷ hex_digit (b % 16) ∷ []

unfoldable pub encode_bytes : List ℕ → Text
unfolding is_ascii_alphanumeric
encode_bytes [] = []
encode_bytes (b ∷ bs) =
    let rest = encode_bytes bs in if is_unreserved b then b ∷ rest else percent b ++ rest

unfoldable pub urlencode : Text → Text
unfolding encode_bytes
urlencode s = encode_bytes (as_bytes s)
