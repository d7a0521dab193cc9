-- ===== src/Text/Decimal.antt =====
-- Decimal numerals: what `{}` prints of an unsigned integer, and the digit loop of `parse`.
use mathlib.Core.Logic.{dite, dif_pos, dif_neg}
use mathlib.Core.WellFounded.{Acc}
use native.Mathlib.Bridge.{le_prop}
use native.Mathlib.Decide.{dec_lt}
use hotchkiss_io.Base.{
  All, Option, [], arith, false, if◌then◌else◌, none, refl, some, true, ℕ, ◌%◌, ◌*◌, ◌+◌, ◌-◌, ◌/◌,
  ◌<◌, ◌∙◌, ◌∷◌, ◌≡◌,
}
use hotchkiss_io.Base.Order.{lt_wf}
use hotchkiss_io.Text.{Text, codes, is_ascii_digit, is_empty}

-- The digits of `n` in front of `out`.
digits_acc : (n : ℕ) → Acc ◌<◌ n → Text → Text
digits_acc n (Acc.intro _ smaller) out =
    dite (dec_lt 9 n)
      (λ h. digits_acc (n / 10) (smaller (n / 10) (omega arith)) ((b'0' + n % 10) ∷ out))
      (λ _. (b'0' + n) ∷ out)

unfoldable pub print : ℕ → Text
unfolding digits_acc lt_wf dec_lt
print n = digits_acc n (lt_wf.apply n) []

-- The value of the digits read on from `acc`; a character that is no digit is an error.
unfoldable pub read_digits : ℕ → Text → Option ℕ
unfolding is_ascii_digit
read_digits acc [] = some acc
read_digits acc (c ∷ s) = if is_ascii_digit c then read_digits (acc * 10 + (c - b'0')) s else none

-- Digits, and at least one.
unfoldable pub parse_digits : Text → Option ℕ
unfolding read_digits
parse_digits s = if is_empty s then none else read_digits 0 s

read-digits_acc :
    (n : ℕ) (w : Acc ◌<◌ n) (out : Text) → read_digits 0 (digits_acc n w out) ≡ read_digits n out
unfolding digits_acc
read-digits_acc n (Acc.intro _ smaller) out = elim (dec_lt 9 n) [
  | yes h ↦ rw (dif_pos (dec_lt 9 n) le_prop h) (
      read-digits_acc (n / 10) (smaller (n / 10) (omega arith)) ((b'0' + n % 10) ∷ out)
      ∙ unfold read_digits in ground arith)
  | no h ↦ rw (dif_neg (dec_lt 9 n) h) (unfold read_digits in ground arith)
]

digits_acc-ne-nil :
    (n : ℕ) (w : Acc ◌<◌ n) (c : ℕ) (out : Text) → is_empty (digits_acc n w out) ≡ false
unfolding digits_acc
digits_acc-ne-nil n (Acc.intro _ smaller) c out = elim (dec_lt 9 n) [
  | yes h ↦
      rw (dif_pos (dec_lt 9 n) le_prop h)
        (digits_acc-ne-nil (n / 10) (smaller (n / 10) (omega arith)) c ((b'0' + n % 10) ∷ out))
  | no h ↦ rw (dif_neg (dec_lt 9 n) h)
]

-- The printed digits are read back.
pub parse-print : (n : ℕ) → parse_digits (print n) ≡ some n
unfolding print parse_digits
parse-print n =
    rw (digits_acc-ne-nil n (lt_wf.apply n) 0 [])
      (read-digits_acc n (lt_wf.apply n) [] ∙ unfold read_digits in refl)

digits_acc-All :
    (n : ℕ) (w : Acc ◌<◌ n) (out : Text)
    → All (λ c. is_ascii_digit c ≡ true) out
    → All (λ c. is_ascii_digit c ≡ true) (digits_acc n w out)
unfolding digits_acc is_ascii_digit
digits_acc-All n (Acc.intro _ smaller) out k = elim (dec_lt 9 n) [
  | yes h ↦ rw (dif_pos (dec_lt 9 n) le_prop h) (
      digits_acc-All (n / 10) (smaller (n / 10) (omega arith)) ((b'0' + n % 10) ∷ out)
        (ground arith, k))
  | no h ↦ rw (dif_neg (dec_lt 9 n) h) (ground arith, k)
]

-- Every printed character is a digit.
pub print-All : (n : ℕ) → All (λ c. is_ascii_digit c ≡ true) (print n)
unfolding print
print-All n = digits_acc-All n (lt_wf.apply n) [] tt

print-5040 : print 5040 ≡ codes "5040"
unfolding print
print-5040 = refl
