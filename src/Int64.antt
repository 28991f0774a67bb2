-- ===== src/Int64.antt =====
-- `int64_t` arithmetic. A value is an integer in the range of the type; a signed operation whose
-- exact result leaves the range is undefined behaviour in C++, and `undefined` here.
pub mod Division
use falcon_lib.Base.{
  ℕ, suc, ◌+◌, ◌-◌, ◌*◌, ◌/◌, ◌≤◌, ◌<◌, ◌^◌, ◌≡◌, Bool, true, false, not, ◌&&◌, leb, ltb, ◌==◌,
  if◌then◌else◌, arith,
}
use falcon_lib.Base.Int.{ℤ, pos, negsuc, pos_part, neg_part, sub_ℕ, ◌+ℤ◌, ◌-ℤ◌, ◌*ℤ◌, ltb_ℤ}
use falcon_lib.Errors.{Result, ok, err, undefined, evaluation, division_by_zero}

abbrev pub in_range : ℤ → Bool
in_range a = ltb (pos_part a) (2 ^ 63) && leb (neg_part a) (2 ^ 63)

abbrev pub InRange : ℤ → Type 0
InRange a = (pos_part a < 2 ^ 63) × (neg_part a ≤ 2 ^ 63)

unfoldable pub checked : ℤ → Result ℤ
checked a = if in_range a then ok a else err undefined

abbrev pub abs_ℕ : ℤ → ℕ
abs_ℕ a = pos_part a + neg_part a

abbrev pub is_negative : ℤ → Bool
is_negative (pos n) = false
is_negative (negsuc n) = true

-- The integer of the given sign and absolute value.
abbrev pub with_sign : Bool → ℕ → ℤ
with_sign false n = pos n
with_sign true n = sub_ℕ 0 n

abbrev pub bool_xor : Bool → Bool → Bool
bool_xor false b = b
bool_xor true b = not b

-- `a / b` of C++: the quotient is truncated towards zero.
unfoldable pub quotient : ℤ → ℤ → ℤ
quotient a b = with_sign (bool_xor (is_negative a) (is_negative b)) (abs_ℕ a / abs_ℕ b)

unfoldable pub add64 : ℤ → ℤ → Result ℤ
unfolding checked ◌+ℤ◌
add64 a b = checked (a +ℤ b)

unfoldable pub sub64 : ℤ → ℤ → Result ℤ
unfolding checked ◌-ℤ◌
sub64 a b = checked (a -ℤ b)

unfoldable pub mul64 : ℤ → ℤ → Result ℤ
unfolding checked ◌*ℤ◌
mul64 a b = checked (a *ℤ b)

-- The division of the evaluator, with its test for zero.
unfoldable pub div64 : ℤ → ℤ → Result ℤ
unfolding checked quotient
div64 a b = if abs_ℕ b == 0 then err (evaluation division_by_zero) else checked (quotient a b)

unfoldable pub neg64 : ℤ → Result ℤ
unfolding checked ◌-ℤ◌
neg64 a = checked (pos 0 -ℤ a)

abbrev pub lt64 : ℤ → ℤ → Bool
lt64 a b = ltb_ℤ a b

abbrev pub le64 : ℤ → ℤ → Bool
le64 a b = not (ltb_ℤ b a)
