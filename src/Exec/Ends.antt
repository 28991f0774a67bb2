-- ===== src/Exec/Ends.antt =====
-- Statements, and running out of fuel.
use falcon_lib.Base.{◌≡◌, ◌≢◌, ap, refl, String, true, false, Option, none, some}
use falcon_lib.Errors.{Failure, Result, ok, err, timeout, evaluation, exception, undefined}
use falcon_lib.Syntax.{
  Location, Expr, VarDecl, TypeDescriptor, simple, error, tuple, union, struct, array,
  array_of_unknown, int_type, float_type, bool_type, string_type, error_type, Stmts, stmt_list,
}
use falcon_lib.Value
use falcon_lib.Value.{RuntimeValue}
use falcon_lib.Eval.{Native, Runner, Eval, ControlFlow, no_change, to_state, to_end}
use falcon_lib.Eval.Ends.{
  Ends, Ends-pure, Ends-bind, Ends-evaluation, Ends-set_variable, ends_rules,
}
use falcon_lib.Exec.{
  with_context, execute_with_context, new_instance, default_variable, inferred_type, initial_value,
  exec_var_decl, branch, exec_if, after_stmt,
}

with_context-timeout : (loc : Location) (e : Failure) → with_context loc e ≡ timeout → e ≡ timeout
unfolding with_context
with_context-timeout loc (evaluation m) h = cc
with_context-timeout loc (exception m) h = cc
with_context-timeout loc undefined h = cc
with_context-timeout loc timeout h = refl

module _ {ℓ} {A : Type ℓ} (loc : Location) where
  located_ends :
      (r : Result A)
      → r ≢ err timeout
      → (elim r [ ok a ↦ Result.ok a | err e ↦ err (with_context loc e) ]) ≢ err timeout
  located_ends (ok a) h = λ e. cc
  located_ends (err x) h = λ e. h (ap (λ y. err y) (with_context-timeout loc x cc))

  pub Ends-execute_with_context : (m : Eval A) → Ends m → Ends (execute_with_context loc m)
  unfolding execute_with_context
  Ends-execute_with_context m h = record { at = λ s. located_ends (m s).0 (h.at s) }

Ends-new_instance : (n : String) → Ends (new_instance n)
unfolding new_instance
Ends-new_instance n = search ends_rules

Ends-default_variable : (td : TypeDescriptor) (name : String) → Ends (default_variable td name)
unfolding default_variable
Ends-default_variable (simple int_type) name = Ends-pure _
Ends-default_variable (simple float_type) name = Ends-pure _
Ends-default_variable (simple bool_type) name = Ends-pure _
Ends-default_variable (simple string_type) name = Ends-pure _
Ends-default_variable (simple error_type) name = Ends-pure _
Ends-default_variable (simple _) name = Ends-evaluation _
Ends-default_variable (error v) name = Ends-pure _
Ends-default_variable (array t) name = Ends-new_instance _
Ends-default_variable array_of_unknown name = Ends-new_instance _
Ends-default_variable (struct n ts) name = Ends-new_instance n
Ends-default_variable (tuple ts) name = Ends-evaluation _
Ends-default_variable (union ts) name = Ends-evaluation _

module _ (native : Native) (run : Runner) where
  -- An initializer ends.
  unfoldable pub InitialEnds : VarDecl → Option Expr → Type 0
  InitialEnds d none = Unit
  InitialEnds d (some e) = Ends (run.evaluate (inferred_type d.type) e)

  Ends-initial_value :
      (d : VarDecl) (init : Option Expr)
      → InitialEnds d init
      → Ends (initial_value native run d init)
  unfolding initial_value InitialEnds
  Ends-initial_value d none h = Ends-default_variable d.type d.name
  Ends-initial_value d (some e) h = h

  pub Ends-exec_var_decl :
      (d : VarDecl) → InitialEnds d d.initializer → Ends (exec_var_decl native run d)
  unfolding exec_var_decl
  Ends-exec_var_decl d h =
      Ends-bind _ _ (Ends-initial_value d d.initializer h)
        λ v. Ends-bind _ _ (Ends-set_variable d.name v) λ _. Ends-pure no_change

  Ends-branch :
      (v : RuntimeValue) (t e : Stmts)
      → Ends (run.execute_block (stmt_list t))
      → Ends (run.execute_block (stmt_list e))
      → Ends (branch native run v t e)
  unfolding branch
  Ends-branch (Value.bool true) t e ht he = ht
  Ends-branch (Value.bool false) t e ht he = he
  Ends-branch _ t e ht he = Ends-evaluation _

  pub Ends-exec_if :
      (c : Expr) (t e : Stmts)
      → Ends (run.evaluate none c)
      → Ends (run.execute_block (stmt_list t))
      → Ends (run.execute_block (stmt_list e))
      → Ends (exec_if native run c t e)
  unfolding exec_if
  Ends-exec_if c t e hc ht he = Ends-bind _ _ hc λ v. Ends-branch v t e ht he

  pub Ends-after_stmt :
      (flow : ControlFlow) (rest : Eval ControlFlow)
      → Ends rest
      → Ends (after_stmt native run flow rest)
  unfolding after_stmt
  Ends-after_stmt no_change rest h = h
  Ends-after_stmt (to_state target vs) rest h = Ends-pure _
  Ends-after_stmt to_end rest h = Ends-pure _
