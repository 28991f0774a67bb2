-- ===== src/Eval/Simple/Frame.antt =====
-- The variables during literals, variables, operators and fields.
use falcon_lib.Base.{String, none, some}
use falcon_lib.Syntax.{Expr}
use falcon_lib.Value.{RuntimeValue, struct}
use falcon_lib.Eval.{Native, Runner}
use falcon_lib.Eval.Simple.{eval_variable, eval_binary, eval_unary, eval_member, member_of}
use falcon_lib.Eval.Frame.{KeepsVars, RunnerKeepsVars, frame_rules}

pub KeepsVars-eval_variable : (name : String) → KeepsVars (eval_variable name)
unfolding eval_variable
KeepsVars-eval_variable name = search frame_rules

KeepsVars-member_of : (v : RuntimeValue) (name : String) → KeepsVars (member_of v name)
unfolding member_of
KeepsVars-member_of (struct none) name = search frame_rules
KeepsVars-member_of (struct (some a)) name = search frame_rules
KeepsVars-member_of _ name = search frame_rules

module _ (native : Native) (run : Runner) (frame : RunnerKeepsVars run) where
  pub KeepsVars-eval_binary :
      (op : String) (left right : Expr) → KeepsVars (eval_binary native run op left right)
  unfolding eval_binary
  KeepsVars-eval_binary op left right = search (frame_rules, frame.evaluate)

  pub KeepsVars-eval_unary :
      (op : String) (operand : Expr) → KeepsVars (eval_unary native run op operand)
  unfolding eval_unary
  KeepsVars-eval_unary op operand = search (frame_rules, frame.evaluate)

module _ (run : Runner) (frame : RunnerKeepsVars run) where
  pub KeepsVars-eval_member :
      (object : Expr) (name : String) → KeepsVars (eval_member run object name)
  unfolding eval_member
  KeepsVars-eval_member object name = search (frame_rules, frame.evaluate, KeepsVars-member_of)
