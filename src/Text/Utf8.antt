-- ===== src/Text/Utf8.antt =====
-- `str::as_bytes`: the UTF-8 encoding.
use hotchkiss_io.Base.{
  All, All-append, List, [], ap, arith, if◌then◌else◌, ltb, refl, true, ℕ, ◌%◌, ◌++◌, ◌+◌, ◌/◌, ◌<◌,
  ◌∷◌, ◌≡◌,
}
use hotchkiss_io.Text.{Text}

encode_char : ℕ → List ℕ
encode_char c =
    if ltb c 0x80
    then c ∷ []
    else if ltb c 0x800
    then (0xc0 + c / 64) ∷ (0x80 + c % 64) ∷ []
    else if ltb c 0x10000
    then (0xe0 + c / 4096) ∷ (0x80 + (c / 64) % 64) ∷ (0x80 + c % 64) ∷ []
    else (0xf0 + c / 262144)
      ∷ (0x80 + (c / 4096) % 64)
      ∷ (0x80 + (c / 64) % 64)
      ∷ (0x80 + c % 64)
      ∷ []

unfoldable pub as_bytes : Text → List ℕ
unfolding encode_char
as_bytes [] = []
as_bytes (c ∷ s) = encode_char c ++ as_bytes s

-- An ASCII text is its own encoding.
pub as_bytes_ascii : (s : Text) → All (λ c. c < 128) s → as_bytes s ≡ s
unfolding as_bytes encode_char
as_bytes_ascii [] a = refl
as_bytes_ascii (c ∷ s) (small, a) =
    let y : ltb c 0x80 ≡ true = ground arith in rw y (ap (◌∷◌ c) (as_bytes_ascii s a))

encode_char-All : (c : ℕ) → c < 0x110000 → All (λ b. b < 256) (encode_char c)
unfolding encode_char
encode_char-All c h = ground arith

-- The encoding of scalar values is bytes.
pub as_bytes-All : (s : Text) → All (λ c. c < 0x110000) s → All (λ b. b < 256) (as_bytes s)
unfolding as_bytes
as_bytes-All [] h = tt
as_bytes-All (c ∷ s) (hc, h) =
    All-append _ (encode_char c) (as_bytes s) (encode_char-All c hc) (as_bytes-All s h)
