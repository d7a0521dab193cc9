-- ===== src/Int64.antt =====
-- `i64` as its two's complement, a number below 2 ^ 64: the operators that the server's code uses,
-- `to_le_bytes`, `Display` and `FromStr`. Overflow wraps, as in a release build.
pub mod Laws
use hotchkiss_io.Base.{
  Bool, List, Option, [], if◌then◌else◌, leb, ltb, none, some, suc, zero, ℕ, ◌%◌, ◌+◌, ◌-◌, ◌/◌,
  ◌==◌, ◌^◌, ◌∷◌,
}
use hotchkiss_io.Text.{Text}
use hotchkiss_io.Text.Decimal.{parse_digits, print}

-- The order of the integers, moved up by 2 ^ 63.
abbrev pub biased : ℕ → ℕ
biased x = (x + 2 ^ 63) % 2 ^ 64

abbrev pub i64_lt : ℕ → ℕ → Bool
i64_lt x y = ltb (biased x) (biased y)

abbrev pub i64_sub : ℕ → ℕ → ℕ
i64_sub x y = (x + (2 ^ 64 - y)) % 2 ^ 64

unfoldable pub le_bytes : (count n : ℕ) → List ℕ
le_bytes zero n = []
le_bytes (suc count) n = (n % 256) ∷ le_bytes count (n / 256)

-- `i64::to_le_bytes`
abbrev pub i64_bytes : ℕ → List ℕ
i64_bytes x = le_bytes 8 x

unfoldable pub i64_print : ℕ → Text
i64_print x = if ltb x (2 ^ 63) then print x else b'-' ∷ print (2 ^ 64 - x)

abbrev up_to : ℕ → Option ℕ → Option ℕ
up_to bound none = none
up_to bound (some n) = if leb n bound then some n else none

abbrev negate : Option ℕ → Option ℕ
negate none = none
negate (some n) = some ((2 ^ 64 - n) % 2 ^ 64)

-- `str::parse::<i64>`: one sign at most, digits, and a value in range.
unfoldable pub i64_parse : Text → Option ℕ
i64_parse [] = none
i64_parse (c ∷ s) =
    if c == b'-'
    then negate (up_to (2 ^ 63) (parse_digits s))
    else if c == b'+'
    then up_to (2 ^ 63 - 1) (parse_digits s)
    else up_to (2 ^ 63 - 1) (parse_digits (c ∷ s))
