-- ===== src/Eval/Simple/Ends.antt =====
-- Operators and fields, and running out of fuel.
use falcon_lib.Base.{String, none, some}
use falcon_lib.Syntax.{Expr}
use falcon_lib.Value.{RuntimeValue, struct}
use falcon_lib.Ops.{apply_binary_op, apply_unary_op}
use falcon_lib.Ops.Total.{IsTimely-apply_binary_op, IsTimely-apply_unary_op}
use falcon_lib.Eval.{Native, Runner}
use falcon_lib.Eval.Ends.{Ends, Ends-bind, Ends-lift, ends_rules}
use falcon_lib.Eval.Simple.{eval_variable, eval_binary, eval_unary, eval_member, member_of}

pub Ends-eval_variable : (name : String) → Ends (eval_variable name)
unfolding eval_variable
Ends-eval_variable name = search ends_rules

Ends-member_of : (v : RuntimeValue) (name : String) → Ends (member_of v name)
unfolding member_of
Ends-member_of (struct none) name = search ends_rules
Ends-member_of (struct (some a)) name = search ends_rules
Ends-member_of _ name = search ends_rules

module _ (native : Native) (run : Runner) where
  pub Ends-eval_binary :
      (op : String) (left right : Expr)
      → Ends (run.evaluate none left)
      → Ends (run.evaluate none right)
      → Ends (eval_binary native run op left right)
  unfolding eval_binary
  Ends-eval_binary op left right hl hr = Ends-bind _ _ hl λ a. Ends-bind _ _ hr λ b.
      Ends-lift (apply_binary_op native.floats op a b)
        (IsTimely-apply_binary_op native.floats op a b)

  pub Ends-eval_unary :
      (op : String) (operand : Expr)
      → Ends (run.evaluate none operand)
      → Ends (eval_unary native run op operand)
  unfolding eval_unary
  Ends-eval_unary op operand h = Ends-bind _ _ h λ a.
      Ends-lift (apply_unary_op native.floats op a) (IsTimely-apply_unary_op native.floats op a)

pub Ends-eval_member :
    (run : Runner) (object : Expr) (name : String)
    → Ends (run.evaluate none object)
    → Ends (eval_member run object name)
unfolding eval_member
Ends-eval_member run object name h = Ends-bind _ _ h λ v. Ends-member_of v name
