-- ===== src/Machine/Fuel.antt =====
-- Evaluation and execution on more fuel.
use falcon_lib.Base.{ℕ, zero, suc, ◌≤◌, refl, arith, Option}
use falcon_lib.Syntax.{
  TypeDescriptor, Expr, literal, nil_literal, variable, binary, unary, member, method_call, index,
  call, expr_list, arg_list,
}
use falcon_lib.Eval.{Native, Runner}
use falcon_lib.Eval.Fuel.{Refines, Refines-same, RunnerRefines}
use falcon_lib.Eval.Simple.Fuel.{Refines-eval_binary, Refines-eval_unary, Refines-eval_member}
use falcon_lib.Eval.Call.Fuel.{Refines-eval_call}
use falcon_lib.Eval.Index.Fuel.{Refines-eval_index}
use falcon_lib.Eval.Method.Fuel.{Refines-eval_method_call}
use falcon_lib.Exec.Fuel.{Refines-execute_block}
use falcon_lib.Machine.{eval_expr, runner}

module _ (native : Native) (run run' : Runner) (more : RunnerRefines run run') where
  Refines-eval_expr :
      (inferred : Option TypeDescriptor) (e : Expr)
      → Refines (eval_expr native run inferred e) (eval_expr native run' inferred e)
  unfolding eval_expr
  Refines-eval_expr inferred (literal l) = Refines-same _
  Refines-eval_expr inferred nil_literal = Refines-same _
  Refines-eval_expr inferred (variable name) = Refines-same _
  Refines-eval_expr inferred (binary op l r) = Refines-eval_binary native run run' more op l r
  Refines-eval_expr inferred (unary op e) = Refines-eval_unary native run run' more op e
  Refines-eval_expr inferred (member e name) = Refines-eval_member run run' more e name
  Refines-eval_expr inferred (method_call e name es) =
      Refines-eval_method_call native run run' more inferred e name (expr_list es)
  Refines-eval_expr inferred (index e i) = Refines-eval_index native run run' more e i
  Refines-eval_expr inferred (call loc name es) =
      Refines-eval_call native run run' more name (arg_list es)

pub runner-refines :
    (native : Native) (fuel fuel' : ℕ)
    → fuel ≤ fuel'
    → RunnerRefines (runner native fuel) (runner native fuel')
unfolding runner
runner-refines native zero fuel' le = record {
  evaluate = λ inferred e. record { at = λ s h. absurd (h refl) };
  execute_block = λ body. record { at = λ s h. absurd (h refl) };
}
runner-refines native (suc fuel) zero le = absurd (omega (arith, le))
runner-refines native (suc fuel) (suc fuel') le =
    let run = runner native fuel in
    let run' = runner native fuel' in
    let more = runner-refines native fuel fuel' (omega (arith, le)) in
    record {
      evaluate = Refines-eval_expr native run run' more;
      execute_block = Refines-execute_block native run run' more;
    }
