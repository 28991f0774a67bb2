-- ===== src/Machine.antt =====
-- The evaluator and the executor together: `ExprEvaluator::evaluate` and
-- `StmtExecutor::execute_block`, which call one another. A program need not end, so they run on
-- fuel; every call of one from the other spends one unit.
pub mod Frame
pub mod Keys
pub mod Fuel
pub mod CallFree
pub mod Termination
use falcon_lib.Base.{ℕ, zero, suc, Option, none, some}
use falcon_lib.Errors.{Result, timeout}
use falcon_lib.Syntax.{
  TypeDescriptor, Expr, literal, nil_literal, variable, binary, unary, member, method_call, index,
  call, expr_list, arg_list,
}
use falcon_lib.Value.{RuntimeValue, nil}
use falcon_lib.Eval.{Native, Eval, Runner, pure}
use falcon_lib.Eval.Simple.{eval_literal, eval_variable, eval_binary, eval_unary, eval_member}
use falcon_lib.Eval.Call.{eval_call}
use falcon_lib.Eval.Method.{eval_method_call}
use falcon_lib.Eval.Index.{eval_index}
use falcon_lib.Exec.{execute_block}

unfoldable pub eval_expr : Native → Runner → Option TypeDescriptor → Expr → Eval RuntimeValue
unfolding eval_literal eval_variable eval_binary eval_unary eval_member eval_method_call eval_index
    eval_call
eval_expr native run inferred (literal l) = pure (eval_literal l)
eval_expr native run inferred nil_literal = pure nil
eval_expr native run inferred (variable name) = eval_variable name
eval_expr native run inferred (binary op left right) = eval_binary native run op left right
eval_expr native run inferred (unary op operand) = eval_unary native run op operand
eval_expr native run inferred (member object name) = eval_member run object name
eval_expr native run inferred (method_call object method call_args) =
    eval_method_call native run inferred object method (expr_list call_args)
eval_expr native run inferred (index object at) = eval_index native run object at
eval_expr native run inferred (call location name call_args) =
    eval_call native run name (arg_list call_args)

-- One level of the knot.
unfoldable pub step : Native → Runner → Runner
unfolding eval_expr execute_block
step native run = record {
  evaluate = eval_expr native run;
  execute_block = execute_block native run;
}

abbrev pub exhausted : Runner
exhausted = record {
  evaluate = λ inferred e s. (Result.err timeout, s);
  execute_block = λ body s. (Result.err timeout, s);
}

unfoldable pub runner : Native → ℕ → Runner
unfolding step
runner native zero = exhausted
runner native (suc fuel) = step native (runner native fuel)
