-- ===== src/Machine/Frame.antt =====
-- The variables during the evaluation of an expression, at any fuel.
use falcon_lib.Base.{ℕ, zero, suc, Option, ◌≡◌, refl}
use falcon_lib.Syntax.{
  TypeDescriptor, Expr, literal, nil_literal, variable, binary, unary, member, method_call, index,
  call, expr_list, arg_list,
}
use falcon_lib.Eval.{State, Native, Runner}
use falcon_lib.Eval.Frame.{KeepsVars, RunnerKeepsVars, frame_rules}
use falcon_lib.Eval.Simple.Frame.{
  KeepsVars-eval_variable, KeepsVars-eval_binary, KeepsVars-eval_unary, KeepsVars-eval_member,
}
use falcon_lib.Eval.Call.Frame.{KeepsVars-eval_call}
use falcon_lib.Eval.Index.Frame.{KeepsVars-eval_index}
use falcon_lib.Eval.Method.Frame.{KeepsVars-eval_method_call}
use falcon_lib.Machine.{eval_expr, runner}

module _ (native : Native) (run : Runner) (frame : RunnerKeepsVars run) where
  KeepsVars-eval_expr :
      (inferred : Option TypeDescriptor) (e : Expr) → KeepsVars (eval_expr native run inferred e)
  unfolding eval_expr
  KeepsVars-eval_expr inferred (literal l) = search frame_rules
  KeepsVars-eval_expr inferred nil_literal = search frame_rules
  KeepsVars-eval_expr inferred (variable name) = KeepsVars-eval_variable name
  KeepsVars-eval_expr inferred (binary op l r) = KeepsVars-eval_binary native run frame op l r
  KeepsVars-eval_expr inferred (unary op e) = KeepsVars-eval_unary native run frame op e
  KeepsVars-eval_expr inferred (member e name) = KeepsVars-eval_member run frame e name
  KeepsVars-eval_expr inferred (method_call e name es) =
      KeepsVars-eval_method_call native run frame inferred e name (expr_list es)
  KeepsVars-eval_expr inferred (index e i) = KeepsVars-eval_index native run frame e i
  KeepsVars-eval_expr inferred (call loc name es) =
      KeepsVars-eval_call native run frame name (arg_list es)

pub runner-RunnerKeepsVars : (native : Native) (fuel : ℕ) → RunnerKeepsVars (runner native fuel)
unfolding runner
runner-RunnerKeepsVars native zero = record { evaluate = λ inferred e. record { at = λ s. refl } }
runner-RunnerKeepsVars native (suc fuel) = record {
  evaluate = KeepsVars-eval_expr native (runner native fuel) (runner-RunnerKeepsVars native fuel);
}

-- Evaluating an expression changes no variable of the environment that it is evaluated in,
-- whatever it calls, also when it throws. (Objects on the heap may change.)
pub evaluate-vars :
    (native : Native) (fuel : ℕ) (inferred : Option TypeDescriptor) (e : Expr) (s : State)
    → ((runner native fuel).evaluate inferred e s).1.vars ≡ s.vars
evaluate-vars native fuel inferred e s =
    ((runner-RunnerKeepsVars native fuel).evaluate inferred e).at s
