-- ===== src/Exec/Keys.antt =====
-- The names of variables during statements.
use falcon_lib.Base.{String, true, false, Option, none, some, List, [], ◌∷◌}
use falcon_lib.Syntax.{
  Location, TypeDescriptor, simple, error, tuple, union, struct, array, array_of_unknown, int_type,
  float_type, bool_type, string_type, error_type, Expr, VarDecl, Stmt, stmt, StmtForm, var_decl,
  assign, struct_field_assign, expr_stmt, if_stmt, transition, terminal, Stmts, stmt_list,
}
use falcon_lib.Value
use falcon_lib.Value.{RuntimeValue, int}
use falcon_lib.Eval.{Native, Runner, Eval, ControlFlow, no_change, to_state, to_end}
use falcon_lib.Eval.Frame.{
  KeepsVars, RunnerKeepsVars, frame_rules, KeepsVars-pure, KeepsVars-throw, KeepsVars-evaluate_list,
}
use falcon_lib.Eval.Keys.{KeepsVar, KeepsVar-frame, KeepsVar-set_variable, KeepsVar-bind}
use falcon_lib.Exec.Assign.Keys.{KeepsVar-exec_assign, KeepsVar-exec_struct_field_assign}
use falcon_lib.Exec.{
  execute_with_context, new_instance, default_variable, inferred_type, initial_value, exec_var_decl,
  branch, exec_if, exec_transition, exec_form, execute, after_stmt, execute_block,
}

KeepsVar-execute_with_context {ℓ} :
    {A : Type ℓ} (k : String) (loc : Location) (m : Eval A)
    → KeepsVar k m
    → KeepsVar k (execute_with_context loc m)
unfolding execute_with_context
KeepsVar-execute_with_context k loc m h = record { at = h.at }

KeepsVars-new_instance : (n : String) → KeepsVars (new_instance n)
unfolding new_instance
KeepsVars-new_instance n = search frame_rules

KeepsVars-default_variable :
    (td : TypeDescriptor) (name : String) → KeepsVars (default_variable td name)
unfolding default_variable
KeepsVars-default_variable (simple int_type) name = KeepsVars-pure _
KeepsVars-default_variable (simple float_type) name = KeepsVars-pure _
KeepsVars-default_variable (simple bool_type) name = KeepsVars-pure _
KeepsVars-default_variable (simple string_type) name = KeepsVars-pure _
KeepsVars-default_variable (simple error_type) name = KeepsVars-pure _
KeepsVars-default_variable (simple _) name = KeepsVars-throw _
KeepsVars-default_variable (error v) name = KeepsVars-pure _
KeepsVars-default_variable (array t) name = KeepsVars-new_instance _
KeepsVars-default_variable array_of_unknown name = KeepsVars-new_instance _
KeepsVars-default_variable (struct n ts) name = KeepsVars-new_instance n
KeepsVars-default_variable (tuple ts) name = KeepsVars-throw _
KeepsVars-default_variable (union ts) name = KeepsVars-throw _

-- What the blocks of a runner have to show.
pub record BlocksKeepVar (k : String) (run : Runner) : Type 0 where
  pub execute_block : (body : List Stmt) → KeepsVar k (run.execute_block body)

module _ (native : Native) (run : Runner) (frame : RunnerKeepsVars run) where
  KeepsVars-initial_value :
      (d : VarDecl) (init : Option Expr) → KeepsVars (initial_value native run d init)
  unfolding initial_value
  KeepsVars-initial_value d none = KeepsVars-default_variable d.type d.name
  KeepsVars-initial_value d (some e) = frame.evaluate (inferred_type d.type) e

  module _ (k : String) (blocks : BlocksKeepVar k run) where
    KeepsVar-exec_var_decl : (d : VarDecl) → KeepsVar k (exec_var_decl native run d)
    unfolding exec_var_decl
    KeepsVar-exec_var_decl d =
        KeepsVar-bind k _ _ (KeepsVar-frame k _ (KeepsVars-initial_value d d.initializer)) λ v.
          KeepsVar-bind k _ _ (KeepsVar-set_variable k d.name v)
            λ _. KeepsVar-frame k _ (KeepsVars-pure no_change)

    KeepsVar-branch : (v : RuntimeValue) (t e : Stmts) → KeepsVar k (branch native run v t e)
    unfolding branch
    KeepsVar-branch (Value.bool true) t e = blocks.execute_block (stmt_list t)
    KeepsVar-branch (Value.bool false) t e = blocks.execute_block (stmt_list e)
    KeepsVar-branch _ t e = KeepsVar-frame k _ (KeepsVars-throw _)

    KeepsVar-exec_if : (c : Expr) (t e : Stmts) → KeepsVar k (exec_if native run c t e)
    unfolding exec_if
    KeepsVar-exec_if c t e =
        KeepsVar-bind k _ _ (KeepsVar-frame k _ (frame.evaluate none c)) λ v. KeepsVar-branch v t e

    KeepsVar-exec_form : (form : StmtForm) → KeepsVar k (exec_form native run form)
    unfolding exec_form exec_transition
    KeepsVar-exec_form (var_decl d) = KeepsVar-exec_var_decl d
    KeepsVar-exec_form (assign ts e) = KeepsVar-exec_assign k run frame ts e
    KeepsVar-exec_form (struct_field_assign o f e) =
        KeepsVar-exec_struct_field_assign k run frame o f e
    KeepsVar-exec_form (expr_stmt e) = KeepsVar-frame k _ (search (frame_rules, frame.evaluate))
    KeepsVar-exec_form (if_stmt c t e) = KeepsVar-exec_if c t e
    KeepsVar-exec_form (transition target es) =
        KeepsVar-frame k _ (search (frame_rules, KeepsVars-evaluate_list run frame))
    KeepsVar-exec_form terminal = KeepsVar-frame k _ (KeepsVars-pure _)

    pub KeepsVar-execute : (s : Stmt) → KeepsVar k (execute native run s)
    unfolding execute
    KeepsVar-execute (stmt loc form) =
        KeepsVar-execute_with_context k loc _ (KeepsVar-exec_form form)

    KeepsVar-after_stmt :
        (flow : ControlFlow) (rest : Eval ControlFlow)
        → KeepsVar k rest
        → KeepsVar k (after_stmt native run flow rest)
    unfolding after_stmt
    KeepsVar-after_stmt no_change rest h = h
    KeepsVar-after_stmt (to_state target vs) rest h = KeepsVar-frame k _ (KeepsVars-pure _)
    KeepsVar-after_stmt to_end rest h = KeepsVar-frame k _ (KeepsVars-pure _)

    pub KeepsVar-execute_block : (body : List Stmt) → KeepsVar k (execute_block native run body)
    unfolding execute_block
    KeepsVar-execute_block [] = KeepsVar-frame k _ (KeepsVars-pure _)
    KeepsVar-execute_block (s ∷ rest) =
        KeepsVar-bind k _ _ (KeepsVar-execute s)
          λ flow. KeepsVar-after_stmt flow _ (KeepsVar-execute_block rest)
