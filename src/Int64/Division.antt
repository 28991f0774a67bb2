-- ===== src/Int64/Division.antt =====
-- The quotient of a division, with its sign and its range.
use falcon_lib.Base.{
  ℕ, ◌+◌, ◌*◌, ◌/◌, ◌%◌, ◌≤◌, ◌<◌, ◌^◌, ◌≡◌, ◌≢◌, ◌⊎◌, inl, inr, ◌↔◌, ◌-◌, zero, suc, refl, ap,
  Bool, Bool-cases, ltb, true, false, arith, ==_iff,
}
use falcon_lib.Base.Int.{ℤ, pos, negsuc}
use falcon_lib.Errors.{ok}
use falcon_lib.Int64.{checked, InRange, abs_ℕ, is_negative, with_sign, bool_xor, quotient, div64}
use native.Mathlib.Omega.{div_any}
use native.Mathlib.Nat.{le-div_iff_mul-le, div-lt_iff_lt-mul}

abs-with_sign : (s : Bool) (n : ℕ) → abs_ℕ (with_sign s n) ≡ n
abs-with_sign false n = omega arith
abs-with_sign true n = ground arith

quotient_le : (a b : ℕ) → a / b ≤ a
quotient_le a b = omega arith

is_negative-with_sign :
    (s : Bool) (n : ℕ) → (is_negative (with_sign s n) ≡ true) ↔ ((s ≡ true) × (1 ≤ n))
is_negative-with_sign false n = (λ h. absurd cc, λ h. h.0)
is_negative-with_sign true n = ground arith

xor_ne : (a b : Bool) → (bool_xor a b ≡ true) ↔ (a ≢ b)
xor_ne false false = (λ h. absurd cc, λ h. absurd (h refl))
xor_ne false true = (λ h. λ e. absurd cc, λ h. refl)
xor_ne true false = (λ h. λ e. absurd cc, λ h. refl)
xor_ne true true = (λ h. absurd cc, λ h. absurd (h refl))

quotient_pos : (a b : ℕ) → b ≢ 0 → (1 ≤ a / b) ↔ (b ≤ a)
quotient_pos a b h =
    let (to, from) = le-div_iff_mul-le {k = b} {x = 1} {y = a} (omega (arith, h)) in
    (λ e. omega (arith, to e), λ e. from (omega (arith, e)))

InRange-with_sign :
    (s : Bool) (n : ℕ) → n ≤ 2 ^ 63 → (n < 2 ^ 63) ⊎ (s ≡ true) → InRange (with_sign s n)
InRange-with_sign false n le h = ground (arith, le, h)
InRange-with_sign true n le h = ground (arith, le)

abs_bound : (a : ℤ) → InRange a → abs_ℕ a ≤ 2 ^ 63
abs_bound (pos n) h = omega (arith, h.0)
abs_bound (negsuc n) h = omega (arith, h.1)

checked-InRange : (a : ℤ) → InRange a → checked a ≡ ok a
unfolding checked
checked-InRange a h = ground (arith, h.0, h.1)

div_less : (a k : ℕ) → 1 ≤ k → a ≤ 2 ^ 63 → a / suc k < 2 ^ 63
div_less a k h le =
    let (to, from) = div-lt_iff_lt-mul {k = suc k} {x = a} {y = 2 ^ 63} (omega arith) in
    from (omega (arith, le, h))

abs_negsuc : (n : ℕ) → abs_ℕ (negsuc n) ≡ suc n
abs_negsuc n = omega arith

negsuc_pos : (k : ℕ) → negsuc k ≢ negsuc 0 → 1 ≤ k
negsuc_pos zero h = absurd (h refl)
negsuc_pos (suc k) h = omega arith

-- A quotient that is not under 2 ^ 63 is of the least integer, by 1 or -1.
quotient_small :
    (a b : ℤ)
    → InRange a
    → (a ≢ negsuc (2 ^ 63 - 1)) ⊎ (b ≢ negsuc 0)
    → (abs_ℕ a / abs_ℕ b < 2 ^ 63) ⊎ (bool_xor (is_negative a) (is_negative b) ≡ true)
quotient_small (pos m) b within fits =
    inl (omega (arith, within.0, quotient_le (abs_ℕ (pos m)) (abs_ℕ b)))
quotient_small (negsuc m) (pos k) within fits = inr refl
quotient_small (negsuc m) (negsuc k) within fits = elim (Bool-cases (ltb (suc m) (2 ^ 63))) [
  | inl small ↦ inl (ground (arith, small, quotient_le (abs_ℕ (negsuc m)) (abs_ℕ (negsuc k))))
  | inr least ↦ elim fits [
    | inl other ↦ absurd (other (ap negsuc (ground (arith, within.1, least))))
    | inr other ↦ inl (
        rw (abs_negsuc m, abs_negsuc k)
          (div_less (suc m) k (negsuc_pos k other) (omega (arith, within.1))))
  ]
]

quotient-InRange :
    (a b : ℤ) → InRange a → (a ≢ negsuc (2 ^ 63 - 1)) ⊎ (b ≢ negsuc 0) → InRange (quotient a b)
unfolding quotient
quotient-InRange a b within fits =
    InRange-with_sign (bool_xor (is_negative a) (is_negative b)) (abs_ℕ a / abs_ℕ b)
      (omega (arith, abs_bound a within, quotient_le (abs_ℕ a) (abs_ℕ b)))
      (quotient_small a b within fits)

-- For a divisor other than zero the quotient is there, unless the least integer is divided by -1: its
-- absolute value is the quotient of the absolute values, so that it is truncated towards zero, it is
-- negative exactly when the signs differ and the divisor is not the greater one in absolute value,
-- and it is in the range of the type.
pub div64-quotient :
    (a b : ℤ)
    → InRange a
    → abs_ℕ b ≢ 0
    → (a ≢ negsuc (2 ^ 63 - 1)) ⊎ (b ≢ negsuc 0)
    → (q : ℤ) × (div64 a b ≡ ok q)
      × (abs_ℕ b * abs_ℕ q + abs_ℕ a % abs_ℕ b ≡ abs_ℕ a)
      × ((is_negative q ≡ true) ↔ ((is_negative a ≢ is_negative b) × (abs_ℕ b ≤ abs_ℕ a)))
      × InRange q
unfolding div64 quotient
div64-quotient a b within nonzero fits =
    let s = bool_xor (is_negative a) (is_negative b) in
    let n = abs_ℕ a / abs_ℕ b in
    let q_within = quotient-InRange a b within fits in
    let differ = xor_ne (is_negative a) (is_negative b) in
    let sign = is_negative-with_sign s n in
    let whole = quotient_pos (abs_ℕ a) (abs_ℕ b) nonzero in
    (
      quotient a b,
      ground (arith, nonzero, ==_iff (abs_ℕ b) 0, checked-InRange (quotient a b) q_within),
      (rw (abs-with_sign s n) (div_any (abs_ℕ a) (abs_ℕ b))),
      (λ h. (differ.0 (sign.0 h).0, whole.0 (sign.0 h).1), λ h. sign.1 (differ.1 h.0, whole.1 h.1)),
      q_within,
    )
