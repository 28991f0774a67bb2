-- ===== src/Ops.antt =====
-- dsl/src/ExprEvaluator.cpp, `apply_binary_op` and `apply_unary_op`: the operators of the language.
-- A ladder over the operator's text whose branches look at the alternatives of both operands; what
-- no branch takes falls through to the last throw.
pub mod Laws
pub mod Total
use falcon_lib.Base.{String, Bool, true, false, not, ◌||◌, ◌≡◌, refl, str_eq, if◌then◌else◌, arith}
use falcon_lib.Base.Text.{◌⊹◌}
use falcon_lib.Base.Int.{ℤ}
use falcon_lib.Base.{ℕ}
use falcon_lib.Int64.{add64, sub64, mul64, div64, neg64, lt64, le64}
use falcon_lib.Errors.{
  Result, ok, err, evaluation, exception, bad_variant, bad_binary_operator, bad_unary_operator,
  division_by_zero, ◌>>=◌,
}
use falcon_lib.Value.{Floats, zero_float, RuntimeValue, int, float, bool, string, value_eq}

abbrev pub is_float : RuntimeValue → Bool
is_float (float b) = true
is_float _ = false

-- `holds_alternative<double>(v) ? get<double>(v) : get<int64_t>(v)`, converted to double
abbrev pub to_double : Floats → RuntimeValue → Result ℕ
to_double fl (float b) = ok b
to_double fl (int a) = ok (fl.of_int a)
to_double fl _ = err (exception bad_variant)

-- `get<bool>`
abbrev pub get_bool : RuntimeValue → Result Bool
get_bool (bool b) = ok b
get_bool _ = err (exception bad_variant)

-- The pattern that the arithmetic and order operators repeat: two integers, then anything with a
-- double among the two, then what comes next in the ladder.
abbrev numeric :
    Floats
    → (ℤ → ℤ → Result RuntimeValue)
    → (ℕ → ℕ → Result RuntimeValue)
    → RuntimeValue
    → RuntimeValue
    → Result RuntimeValue
    → Result RuntimeValue
numeric fl ints floats (int a) (int b) next = ints a b
numeric fl ints floats l r next =
    if is_float l || is_float r
    then (do a ← to_double fl l; b ← to_double fl r; floats a b)
    else next

abbrev to_int : Result ℤ → Result RuntimeValue
to_int r = r >>= λ a. ok (int a)

abbrev concat : RuntimeValue → RuntimeValue → Result RuntimeValue → Result RuntimeValue
concat (string a) (string b) next = ok (string (a ⊹ b))
concat l r next = next

-- The right operand is looked at only when the left does not decide; it was evaluated before.
and_values : RuntimeValue → RuntimeValue → Result RuntimeValue
and_values l r = do a ← get_bool l; if a then (do b ← get_bool r; ok (bool b)) else ok (bool false)

or_values : RuntimeValue → RuntimeValue → Result RuntimeValue
or_values l r = do a ← get_bool l; if a then ok (bool true) else (do b ← get_bool r; ok (bool b))

float_div : Floats → ℕ → ℕ → Result RuntimeValue
float_div fl a b =
    if fl.eq b zero_float then err (evaluation division_by_zero) else ok (float (fl.div a b))

unfoldable pub apply_binary_op : Floats → String → RuntimeValue → RuntimeValue → Result RuntimeValue
unfolding and_values or_values float_div
apply_binary_op fl op l r =
    let fail : Result RuntimeValue = err (evaluation (bad_binary_operator op)) in
    if str_eq op "+"
    then numeric fl (λ a b. to_int (add64 a b)) (λ a b. ok (float (fl.add a b))) l r
        (concat l r fail)
    else if str_eq op "-"
    then numeric fl (λ a b. to_int (sub64 a b)) (λ a b. ok (float (fl.sub a b))) l r fail
    else if str_eq op "*"
    then numeric fl (λ a b. to_int (mul64 a b)) (λ a b. ok (float (fl.mul a b))) l r fail
    else if str_eq op "/"
    then numeric fl (λ a b. to_int (div64 a b)) (float_div fl) l r fail
    else if str_eq op "=="
    then ok (bool (value_eq fl l r))
    else if str_eq op "!="
    then ok (bool (not (value_eq fl l r)))
    else if str_eq op "<"
    then numeric fl (λ a b. ok (bool (lt64 a b))) (λ a b. ok (bool (fl.lt a b))) l r fail
    else if str_eq op ">"
    then numeric fl (λ a b. ok (bool (lt64 b a))) (λ a b. ok (bool (fl.lt b a))) l r fail
    else if str_eq op "<="
    then numeric fl (λ a b. ok (bool (le64 a b))) (λ a b. ok (bool (fl.le a b))) l r fail
    else if str_eq op ">="
    then numeric fl (λ a b. ok (bool (le64 b a))) (λ a b. ok (bool (fl.le b a))) l r fail
    else if str_eq op "&&"
    then and_values l r
    else if str_eq op "||"
    then or_values l r
    else fail

negate : Floats → RuntimeValue → Result RuntimeValue → Result RuntimeValue
negate fl (int a) next = to_int (neg64 a)
negate fl (float a) next = ok (float (fl.neg a))
negate fl v next = next

unfoldable pub apply_unary_op : Floats → String → RuntimeValue → Result RuntimeValue
unfolding negate
apply_unary_op fl op v =
    let fail : Result RuntimeValue = err (evaluation (bad_unary_operator op)) in
    if str_eq op "!"
    then (do b ← get_bool v; ok (bool (not b)))
    else if str_eq op "-"
    then negate fl v fail
    else fail
