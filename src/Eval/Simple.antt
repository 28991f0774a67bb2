-- ===== src/Eval/Simple.antt =====
-- dsl/src/ExprEvaluator.cpp: literals, variables, operators and fields.
pub mod Frame
pub mod Fuel
pub mod Ends
use falcon_lib.Base.{String, Option, none, some}
use falcon_lib.Base.Text.{after_colons}
use falcon_lib.Base.Maps.{lookup}
use falcon_lib.Errors.{evaluation, undefined_variable, null_struct, member_unsupported}
use falcon_lib.Syntax.{
  Literal, int_literal, float_literal, bool_literal, string_literal, Expr, expr_list,
}
use falcon_lib.Value.{RuntimeValue, int, float, bool, string, nil, struct, ParameterMap}
use falcon_lib.Value.Memory.{get_field, runtime_type_name}
use falcon_lib.Ops.{apply_binary_op, apply_unary_op}
use falcon_lib.Eval.{
  Native, Eval, Runner, pure, throw, lift, gets, on_heap, deref, require, ◌>>=◌, ◌>>◌,
}

unfoldable pub eval_literal : Literal → RuntimeValue
eval_literal (int_literal n) = int n
eval_literal (float_literal b) = float b
eval_literal (bool_literal b) = bool b
eval_literal (string_literal s) = string s

-- `strip_module_prefix`
unfoldable pub strip_module_prefix : String → String
unfolding after_colons
strip_module_prefix name = elim (after_colons name) [ none ↦ name | some bare ↦ bare ]

bare_variable : Option String → ParameterMap → Option RuntimeValue
unfolding lookup
bare_variable none vars = none
bare_variable (some bare) vars = lookup bare vars

first_value : Option RuntimeValue → Option RuntimeValue → Option RuntimeValue
first_value none v = v
first_value (some v) _ = some v

-- The variable of this name, or of the name behind its module prefix.
unfoldable pub find_variable : String → ParameterMap → Option RuntimeValue
unfolding lookup bare_variable first_value after_colons
find_variable name vars = first_value (lookup name vars) (bare_variable (after_colons name) vars)

unfoldable pub eval_variable : String → Eval RuntimeValue
unfolding find_variable ◌>>=◌ require
eval_variable name = do
  vars ← gets (λ s. s.vars)
  require (find_variable name vars) (evaluation (undefined_variable name))

module _ (native : Native) (run : Runner) where
  -- Both operands are evaluated, the left one first, for every operator.
  unfoldable pub eval_binary : String → Expr → Expr → Eval RuntimeValue
  unfolding ◌>>=◌
  eval_binary op left right = do
    l ← run.evaluate none left
    r ← run.evaluate none right
    lift (apply_binary_op native.floats op l r)

  unfoldable pub eval_unary : String → Expr → Eval RuntimeValue
  unfolding ◌>>=◌
  eval_unary op operand = do v ← run.evaluate none operand; lift (apply_unary_op native.floats op v)

-- A field of an instance; no other value has members.
member_of : RuntimeValue → String → Eval RuntimeValue
unfolding ◌>>=◌ deref get_field on_heap
member_of (struct none) name = throw (evaluation null_struct)
member_of (struct (some a)) name = do s ← deref a; on_heap (get_field a s name)
member_of v name = do
  type_name ← gets (λ s. runtime_type_name s.heap v)
  throw (evaluation (member_unsupported type_name name))

unfoldable pub eval_member : Runner → Expr → String → Eval RuntimeValue
unfolding ◌>>=◌ member_of runtime_type_name
eval_member run object name = do v ← run.evaluate none object; member_of v name
