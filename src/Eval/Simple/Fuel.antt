-- ===== src/Eval/Simple/Fuel.antt =====
-- Operators and fields on more fuel.
use falcon_lib.Base.{String}
use falcon_lib.Syntax.{Expr}
use falcon_lib.Eval.{Native, Runner}
use falcon_lib.Eval.Simple.{eval_binary, eval_unary, eval_member}
use falcon_lib.Eval.Fuel.{Refines, RunnerRefines, refine_rules}

module _ (native : Native) (run run' : Runner) (more : RunnerRefines run run') where
  pub Refines-eval_binary :
      (op : String) (left right : Expr)
      → Refines (eval_binary native run op left right) (eval_binary native run' op left right)
  unfolding eval_binary
  Refines-eval_binary op left right = search (refine_rules, more.evaluate)

  pub Refines-eval_unary :
      (op : String) (operand : Expr)
      → Refines (eval_unary native run op operand) (eval_unary native run' op operand)
  unfolding eval_unary
  Refines-eval_unary op operand = search (refine_rules, more.evaluate)

module _ (run run' : Runner) (more : RunnerRefines run run') where
  pub Refines-eval_member :
      (object : Expr) (name : String)
      → Refines (eval_member run object name) (eval_member run' object name)
  unfolding eval_member
  Refines-eval_member object name = search (refine_rules, more.evaluate)
