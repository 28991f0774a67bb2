-- ===== src/Ops/Laws.antt =====
-- The comparison operators on integers.
use falcon_lib.Base.{Bool, true, false, not, ◌||◌, ◌≡◌, refl, ap, arith}
use falcon_lib.Base.Int.{ℤ, pos, negsuc, ltb_ℤ}
use falcon_lib.Errors.{ok}
use falcon_lib.Value.{Floats, int, bool, value_eq, int_eq}
use falcon_lib.Ops.{apply_binary_op}

-- Which of three tests hold: exactly one?
pub one_of : Bool → Bool → Bool → Bool
one_of true false false = true
one_of false true false = true
one_of false false true = true
one_of _ _ _ = false

int_trichotomy : (a b : ℤ) → one_of (ltb_ℤ a b) (int_eq a b) (ltb_ℤ b a) ≡ true
unfolding one_of
int_trichotomy (pos a) (pos b) = ground arith
int_trichotomy (pos a) (negsuc b) = ground arith
int_trichotomy (negsuc a) (pos b) = ground arith
int_trichotomy (negsuc a) (negsuc b) = ground arith

not_gt : (a b : ℤ) → not (ltb_ℤ b a) ≡ (ltb_ℤ a b || int_eq a b)
not_gt (pos a) (pos b) = ground arith
not_gt (pos a) (negsuc b) = ground arith
not_gt (negsuc a) (pos b) = ground arith
not_gt (negsuc a) (negsuc b) = ground arith

-- On two integers exactly one of "<", "==" and ">" is true, "<=" is "<" or "==", and "!=" is not "==".
pub apply_binary_op-compare :
    (fl : Floats) (a b : ℤ)
    → (less : Bool) × (same : Bool) × (greater : Bool) × (apply_binary_op fl "<" (int a) (int b)
        ≡ ok (bool less))
      × (apply_binary_op fl "==" (int a) (int b) ≡ ok (bool same))
      × (apply_binary_op fl ">" (int a) (int b) ≡ ok (bool greater))
      × (apply_binary_op fl "<=" (int a) (int b) ≡ ok (bool (less || same)))
      × (apply_binary_op fl "!=" (int a) (int b) ≡ ok (bool (not same)))
      × (one_of less same greater ≡ true)
unfolding apply_binary_op value_eq
apply_binary_op-compare fl a b = (
  ltb_ℤ a b,
  int_eq a b,
  ltb_ℤ b a,
  refl,
  refl,
  refl,
  ap (λ t. ok (bool t)) (not_gt a b),
  refl,
  int_trichotomy a b,
)
