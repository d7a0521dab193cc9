-- ===== src/Int64/Laws.antt =====
-- Laws of the 64-bit integers.
use hotchkiss_io.Base.{
  All, Bool-cases, List, [], arith, inl, inr, length, ltb, refl, some, suc, true, zero, ℕ, ◌%◌, ◌*◌,
  ◌-◌, ◌/◌, ◌<◌, ◌^◌, ◌∙◌, ◌∷◌, ◌≡◌, ◌≤◌,
}
use hotchkiss_io.Text.{Text, is_ascii_digit}
use hotchkiss_io.Int64.{i64_lt, i64_parse, i64_print, i64_sub, le_bytes, up_to}
use hotchkiss_io.Text.Decimal.{parse-print, parse_digits, print, print-All}

-- A text of digits starts with none of the signs.
parse_unsigned :
    (s : Text)
    → All (λ c. is_ascii_digit c ≡ true) s
    → i64_parse s ≡ up_to (2 ^ 63 - 1) (parse_digits s)
unfolding i64_parse is_ascii_digit parse_digits
parse_unsigned [] a = refl
parse_unsigned (c ∷ s) (digit, a) = ground arith

-- Every 64-bit integer is read back from its text.
pub i64_parse-print : (x : ℕ) → x < 2 ^ 64 → i64_parse (i64_print x) ≡ some x
unfolding i64_print
i64_parse-print x h = elim (Bool-cases (ltb x (2 ^ 63))) [
  | inl y ↦ rw y (parse_unsigned (print x) (print-All x) ∙ rw (parse-print x) (ground arith))
  | inr n ↦ rw n (unfold i64_parse in rw (parse-print (2 ^ 64 - x)) (ground arith))
]

-- On integers that are not negative the order is that of the numbers, and the difference is exact.
pub i64_lt_nonneg : (x y : ℕ) → x < 2 ^ 63 → y < 2 ^ 63 → i64_lt x y ≡ ltb x y
i64_lt_nonneg x y hx hy = ground arith

pub i64_sub_nonneg : (x y : ℕ) → x < 2 ^ 63 → y ≤ x → i64_sub x y ≡ x - y
i64_sub_nonneg x y hx hy = omega arith

-- The numbers that `count` bytes hold.
abbrev pub bytes_range : ℕ → ℕ
bytes_range zero = 1
bytes_range (suc count) = 256 * bytes_range count

head_eq : (a b : ℕ) (s t : List ℕ) → a ∷ s ≡ b ∷ t → (a ≡ b) × (s ≡ t)
head_eq a b s t e = (cc, cc)

pub le_bytes-injective :
    (count x y : ℕ)
    → x < bytes_range count
    → y < bytes_range count
    → le_bytes count x ≡ le_bytes count y
    → x ≡ y
unfolding le_bytes
le_bytes-injective zero x y hx hy e = omega arith
le_bytes-injective (suc count) x y hx hy e =
    let (low, rest) = head_eq (x % 256) (y % 256) _ _ e in
    omega
      (arith, low, le_bytes-injective count (x / 256) (y / 256) (omega arith) (omega arith) rest)

pub length-le_bytes : (count x : ℕ) → length (le_bytes count x) ≡ count
unfolding le_bytes
length-le_bytes zero x = refl
length-le_bytes (suc count) x = omega (arith, length-le_bytes count (x / 256))
