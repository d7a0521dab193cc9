-- ===== src/Urlencode/RoundTrip.antt =====
-- A percent-decoder reads the encoding back, and what is encoded is safe in a query.
use hotchkiss_io.Base.{
  All, Bool, Bool-cases, List, Option, [], arith, false, if◌then◌else◌, inl, inr, leb, none, refl,
  some, true, ℕ, ◌%◌, ◌&&◌, ◌*◌, ◌++◌, ◌+◌, ◌-◌, ◌/◌, ◌<◌, ◌==◌, ◌||◌, ◌∷◌, ◌≡◌,
}
use hotchkiss_io.Text.{
  Text, is_ascii_alphanumeric, is_ascii_digit, is_ascii_lowercase, is_ascii_uppercase,
}
use hotchkiss_io.Urlencode.{encode_bytes, hex_digit, is_unreserved, percent, urlencode}
use hotchkiss_io.Text.Utf8.{as_bytes, as_bytes-All}

-- The value of a hexadecimal digit, as RFC 3986 reads it.
hex_value : ℕ → Option ℕ
hex_value c =
    if is_ascii_digit c
    then some (c - b'0')
    else if leb b'A' c && leb c b'F'
    then some (c - b'A' + 10)
    else if leb b'a' c && leb c b'f'
    then some (c - b'a' + 10)
    else none

abbrev byte_of : Option ℕ → Option ℕ → Option ℕ
byte_of (some h) (some l) = some (h * 16 + l)
byte_of _ _ = none

abbrev put : Option ℕ → Option (List ℕ) → Option (List ℕ)
put (some b) (some bs) = some (b ∷ bs)
put _ _ = none

-- RFC 3986's decoding: a percent sign and two digits are a byte, any other character is itself.
unfoldable pub percent_decode : Text → Option (List ℕ)
unfolding hex_value
percent_decode [] = some []
percent_decode (c ∷ []) = if c == b'%' then none else some (c ∷ [])
percent_decode (c ∷ h ∷ []) =
    let rest = percent_decode (h ∷ []) in if c == b'%' then none else put (some c) rest
percent_decode (c ∷ h ∷ l ∷ s) =
    let escaped = percent_decode s in
    let plain = percent_decode (h ∷ l ∷ s) in
    if c == b'%' then put (byte_of (hex_value h) (hex_value l)) escaped else put (some c) plain

unreserved_ne_percent : (b : ℕ) → is_unreserved b ≡ true → (b == b'%') ≡ false
unfolding is_ascii_alphanumeric is_ascii_digit is_ascii_lowercase is_ascii_uppercase
unreserved_ne_percent b h = ground arith

hex_value-hex_digit : (n : ℕ) → n < 16 → hex_value (hex_digit n) ≡ some n
unfolding hex_value is_ascii_digit
hex_value-hex_digit n h = ground arith

percent_decode-plain :
    (b : ℕ) (s : Text) {bs : List ℕ}
    → (b == b'%') ≡ false
    → percent_decode s ≡ some bs
    → percent_decode (b ∷ s) ≡ some (b ∷ bs)
unfolding percent_decode
percent_decode-plain b [] n h = ground arith
percent_decode-plain b (c ∷ []) n h = rw (n, h) refl
percent_decode-plain b (c ∷ d ∷ s) n h = rw (n, h) refl

percent_decode-percent :
    (b : ℕ) (s : Text) {bs : List ℕ}
    → b < 256
    → percent_decode s ≡ some bs
    → percent_decode (percent b ++ s) ≡ some (b ∷ bs)
unfolding percent_decode
percent_decode-percent b s small h =
    rw (hex_value-hex_digit (b / 16) (omega arith), hex_value-hex_digit (b % 16) (omega arith), h)
      (ground arith)

percent_decode-encode_bytes :
    (bs : List ℕ) → All (λ b. b < 256) bs → percent_decode (encode_bytes bs) ≡ some bs
unfolding encode_bytes
percent_decode-encode_bytes [] h = unfold percent_decode in refl
percent_decode-encode_bytes (b ∷ bs) (small, h) = elim (Bool-cases (is_unreserved b)) [
  | inl y ↦
      rw y (percent_decode-plain b _ (unreserved_ne_percent b y) (percent_decode-encode_bytes bs h))
  | inr n ↦ rw n (percent_decode-percent b _ small (percent_decode-encode_bytes bs h))
]

-- Nothing but unreserved characters and percent signs is in an encoding.
abbrev pub is_query_char : ℕ → Bool
is_query_char c = is_unreserved c || c == b'%'

hex_digit-unreserved : (n : ℕ) → n < 16 → is_query_char (hex_digit n) ≡ true
unfolding is_ascii_alphanumeric is_ascii_digit is_ascii_lowercase is_ascii_uppercase
hex_digit-unreserved n h = ground arith

encode_bytes-All :
    (bs : List ℕ) → All (λ b. b < 256) bs → All (λ c. is_query_char c ≡ true) (encode_bytes bs)
unfolding encode_bytes
encode_bytes-All [] h = tt
encode_bytes-All (b ∷ bs) (small, h) = elim (Bool-cases (is_unreserved b)) [
  | inl y ↦ rw y (rw y refl, encode_bytes-All bs h)
  | inr n ↦ rw n (
    refl,
    (
      hex_digit-unreserved (b / 16) (omega arith),
      (hex_digit-unreserved (b % 16) (omega arith), encode_bytes-All bs h),
    ),
  )
]

-- Decoding an encoded text gives the bytes of its UTF-8, and the encoding has only unreserved
-- characters and percent signs, so no text ends the value that it stands in.
pub percent_decode-urlencode :
    (s : Text)
    → All (λ c. c < 0x110000) s
    → (percent_decode (urlencode s) ≡ some (as_bytes s))
      × All (λ c. is_query_char c ≡ true) (urlencode s)
unfolding urlencode
percent_decode-urlencode s h = (
  percent_decode-encode_bytes (as_bytes s) (as_bytes-All s h),
  encode_bytes-All (as_bytes s) (as_bytes-All s h),
)
