-- ===== src/Exec/Fuel.antt =====
-- Statements on more fuel.
use falcon_lib.Base.{◌≡◌, refl, ap, true, false, Option, none, some, List, [], ◌∷◌}
use falcon_lib.Errors.{Result, ok, err, timeout}
use falcon_lib.Syntax.{
  Location, Expr, VarDecl, Stmt, stmt, StmtForm, var_decl, assign, struct_field_assign, expr_stmt,
  if_stmt, transition, terminal, Stmts, stmt_list,
}
use falcon_lib.Value
use falcon_lib.Value.{RuntimeValue}
use falcon_lib.Eval.{State, Native, Runner, Eval, ControlFlow, no_change, to_state, to_end}
use falcon_lib.Eval.Fuel.{
  Refines, Refines-same, Refines-bind, RunnerRefines, refine_rules, Refines-evaluate_list,
}
use falcon_lib.Exec.Assign.Fuel.{Refines-exec_assign, Refines-exec_struct_field_assign}
use falcon_lib.Exec.{
  with_context, execute_with_context, inferred_type, initial_value, exec_var_decl, branch, exec_if,
  exec_transition, exec_form, execute, after_stmt, execute_block,
}

module _ {ℓ} {A : Type ℓ} (loc : Location) where
  located : Result A × State → Result A × State
  located x = (elim x.0 [ ok a ↦ ok a | err e ↦ err (with_context loc e) ], x.1)

  located-timeout : (x : Result A × State) → x.0 ≡ err timeout → (located x).0 ≡ err timeout
  unfolding located with_context
  located-timeout x e = rw e refl

  Refines-execute_with_context :
      (m m' : Eval A)
      → Refines m m'
      → Refines (execute_with_context loc m) (execute_with_context loc m')
  unfolding execute_with_context located
  Refines-execute_with_context m m' r = record {
    at = λ s h. ap located (r.at s (λ e. h (located-timeout (m s) e)));
  }

module _ (native : Native) (run run' : Runner) (more : RunnerRefines run run') where
  Refines-initial_value :
      (d : VarDecl) (init : Option Expr)
      → Refines (initial_value native run d init) (initial_value native run' d init)
  unfolding initial_value
  Refines-initial_value d none = Refines-same _
  Refines-initial_value d (some e) = more.evaluate (inferred_type d.type) e

  Refines-exec_var_decl :
      (d : VarDecl) → Refines (exec_var_decl native run d) (exec_var_decl native run' d)
  unfolding exec_var_decl
  Refines-exec_var_decl d =
      Refines-bind _ _ _ _ (Refines-initial_value d d.initializer) λ v. Refines-same _

  Refines-branch :
      (v : RuntimeValue) (t e : Stmts)
      → Refines (branch native run v t e) (branch native run' v t e)
  unfolding branch
  Refines-branch (Value.bool true) t e = more.execute_block (stmt_list t)
  Refines-branch (Value.bool false) t e = more.execute_block (stmt_list e)
  Refines-branch _ t e = Refines-same _

  Refines-exec_form :
      (form : StmtForm) → Refines (exec_form native run form) (exec_form native run' form)
  unfolding exec_form exec_transition exec_if
  Refines-exec_form (var_decl d) = Refines-exec_var_decl d
  Refines-exec_form (assign ts e) = Refines-exec_assign run run' more ts e
  Refines-exec_form (struct_field_assign o f e) =
      Refines-exec_struct_field_assign run run' more o f e
  Refines-exec_form (expr_stmt e) = search (refine_rules, more.evaluate)
  Refines-exec_form (if_stmt c t e) = search (refine_rules, more.evaluate, Refines-branch)
  Refines-exec_form (transition target es) =
      search (refine_rules, Refines-evaluate_list run run' more)
  Refines-exec_form terminal = Refines-same _

  pub Refines-execute : (s : Stmt) → Refines (execute native run s) (execute native run' s)
  unfolding execute
  Refines-execute (stmt loc form) = Refines-execute_with_context loc _ _ (Refines-exec_form form)

  Refines-after_stmt :
      (flow : ControlFlow) (rest rest' : Eval ControlFlow)
      → Refines rest rest'
      → Refines (after_stmt native run flow rest) (after_stmt native run' flow rest')
  unfolding after_stmt
  Refines-after_stmt no_change rest rest' h = h
  Refines-after_stmt (to_state target vs) rest rest' h = Refines-same _
  Refines-after_stmt to_end rest rest' h = Refines-same _

  pub Refines-execute_block :
      (body : List Stmt) → Refines (execute_block native run body) (execute_block native run' body)
  unfolding execute_block
  Refines-execute_block [] = Refines-same _
  Refines-execute_block (s ∷ rest) =
      Refines-bind _ _ _ _ (Refines-execute s)
        λ flow. Refines-after_stmt flow _ _ (Refines-execute_block rest)
