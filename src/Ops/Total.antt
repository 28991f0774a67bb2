-- ===== src/Ops/Total.antt =====
-- The operators and the failure of running out of fuel.
use falcon_lib.Base.{String, Bool, true, false, ◌||◌, ◌≡◌, ◌≢◌, ap, ℕ, if◌then◌else◌}
use falcon_lib.Base.Int.{ℤ}
use falcon_lib.Errors.{Message, Result, ok, err, undefined, timeout, evaluation, ◌>>=◌}
use falcon_lib.Int64.{in_range, checked, add64, sub64, mul64, div64, neg64}
use falcon_lib.Value.{Floats, RuntimeValue, int, float, bool, string}
use falcon_lib.Ops.{
  apply_binary_op, apply_unary_op, is_float, numeric, to_int, concat, to_double, get_bool,
  and_values, or_values, float_div, negate,
}

-- A result other than a timeout.
pub record IsTimely {ℓ} {A : Type ℓ} (r : Result A) : Type ℓ where
  pub no : r ≢ err timeout

module _ {ℓ} {A : Type ℓ} where
  IsTimely-ok : (a : A) → IsTimely (ok a)
  IsTimely-ok a = record { no = λ e. cc }

  pub IsTimely-evaluation : (m : Message) → IsTimely {A = A} (err (evaluation m))
  IsTimely-evaluation m = record { no = λ e. cc }

  IsTimely-if :
      (b : Bool) (r q : Result A) → IsTimely r → IsTimely q → IsTimely (if b then r else q)
  IsTimely-if true r q hr hq = hr
  IsTimely-if false r q hr hq = hq

module _ {ℓ} {A B : Type ℓ} where
  IsTimely-bind :
      (r : Result A) (f : A → Result B)
      → IsTimely r
      → ((a : A) → IsTimely (f a))
      → IsTimely (r >>= f)
  IsTimely-bind (ok a) f hr hf = hf a
  IsTimely-bind (err e) f hr hf = record {
    no = λ (p : ((err e) >>= f) ≡ err timeout).
        let q : e ≡ timeout = cc in hr.no (ap (λ x. err x) q);
  }

IsTimely-checked : (a : ℤ) → IsTimely (checked a)
unfolding checked
IsTimely-checked a =
    IsTimely-if (in_range a) (ok a) (err undefined) (IsTimely-ok a) (record { no = λ e. cc })

ruleset timely = (IsTimely-ok, IsTimely-evaluation, IsTimely-if, IsTimely-bind, IsTimely-checked)

IsTimely-to_double : (fl : Floats) (v : RuntimeValue) → IsTimely (to_double fl v)
IsTimely-to_double fl (float b) = IsTimely-ok b
IsTimely-to_double fl (int a) = IsTimely-ok _
IsTimely-to_double fl _ = record { no = λ e. cc }

IsTimely-get_bool : (v : RuntimeValue) → IsTimely (get_bool v)
IsTimely-get_bool (bool b) = IsTimely-ok b
IsTimely-get_bool _ = record { no = λ e. cc }

IsTimely-to_int : (r : Result ℤ) → IsTimely r → IsTimely (to_int r)
IsTimely-to_int (ok a) h = IsTimely-ok _
IsTimely-to_int (err e) h = record { no = λ p. h.no cc }

-- What `numeric` does with operands that are not two integers.
IsTimely-mixed :
    (fl : Floats) (floats : ℕ → ℕ → Result RuntimeValue) (l r : RuntimeValue)
    (next : Result RuntimeValue)
    → ((a b : ℕ) → IsTimely (floats a b))
    → IsTimely next
    → IsTimely (
        if is_float l || is_float r
        then (to_double fl l >>= λ a. to_double fl r >>= λ b. floats a b)
        else next)
IsTimely-mixed fl floats l r next hf hn =
    IsTimely-if _ _ _
      (IsTimely-bind (to_double fl l) _ (IsTimely-to_double fl l)
        λ a. IsTimely-bind (to_double fl r) _ (IsTimely-to_double fl r) (hf a))
      hn

IsTimely-numeric :
    (fl : Floats) (ints : ℤ → ℤ → Result RuntimeValue) (floats : ℕ → ℕ → Result RuntimeValue)
    (l r : RuntimeValue) (next : Result RuntimeValue)
    → ((a b : ℤ) → IsTimely (ints a b))
    → ((a b : ℕ) → IsTimely (floats a b))
    → IsTimely next
    → IsTimely (numeric fl ints floats l r next)
IsTimely-numeric fl ints floats (int a) (int b) next hi hf hn = hi a b
IsTimely-numeric fl ints floats l r next hi hf hn = IsTimely-mixed fl floats l r next hf hn

IsTimely-concat :
    (l r : RuntimeValue) (next : Result RuntimeValue) → IsTimely next → IsTimely (concat l r next)
IsTimely-concat (string a) (string b) next h = IsTimely-ok _
IsTimely-concat l r next h = h

IsTimely-and_values : (l r : RuntimeValue) → IsTimely (and_values l r)
unfolding and_values
IsTimely-and_values l r = search (timely, IsTimely-get_bool)

IsTimely-or_values : (l r : RuntimeValue) → IsTimely (or_values l r)
unfolding or_values
IsTimely-or_values l r = search (timely, IsTimely-get_bool)

IsTimely-div64 : (a b : ℤ) → IsTimely (div64 a b)
unfolding div64
IsTimely-div64 a b = search timely

IsTimely-float_div : (fl : Floats) (a b : ℕ) → IsTimely (float_div fl a b)
unfolding float_div
IsTimely-float_div fl a b = search timely

-- Whatever the operator and the operands.
pub IsTimely-apply_binary_op :
    (fl : Floats) (op : String) (l r : RuntimeValue) → IsTimely (apply_binary_op fl op l r)
unfolding apply_binary_op add64 sub64 mul64
IsTimely-apply_binary_op fl op l r =
    search
      (
        timely, IsTimely-numeric, IsTimely-concat, IsTimely-and_values, IsTimely-or_values,
        IsTimely-div64, IsTimely-float_div, IsTimely-to_int,
      )
      depth 24

IsTimely-negate :
    (fl : Floats) (v : RuntimeValue) (next : Result RuntimeValue)
    → IsTimely next
    → IsTimely (negate fl v next)
unfolding negate neg64
IsTimely-negate fl (int a) next h = search (timely, IsTimely-to_int)
IsTimely-negate fl (float a) next h = IsTimely-ok _
IsTimely-negate fl _ next h = h

pub IsTimely-apply_unary_op :
    (fl : Floats) (op : String) (v : RuntimeValue) → IsTimely (apply_unary_op fl op v)
unfolding apply_unary_op
IsTimely-apply_unary_op fl op v = search (timely, IsTimely-get_bool, IsTimely-negate) depth 12
