-- ===== src/Exec.antt =====
-- dsl/src/StmtExecutor.cpp: the statements. A block stops at the first statement that changes the
-- control flow.
pub mod Assign
pub mod Keys
pub mod Fuel
pub mod Ends
use falcon_lib.Base.{
  ℕ, ◌<◌, String, Bool, true, false, ◌&&◌, not, Option, none, some, List, [], ◌∷◌, ltb, str_eq,
  if◌then◌else◌,
}
use falcon_lib.Base.Int.{pos}
use falcon_lib.Base.Text.{◌⊹◌}
use falcon_lib.Base.Maps.{insert}
use falcon_lib.Errors.{
  Failure, Result, ok, err, evaluation, exception, undefined, timeout, needs_initializer,
  condition_not_bool, at_location, unexpected,
}
use falcon_lib.Syntax.{
  Location, ParamType, int_type, float_type, bool_type, string_type, error_type, simple, error,
  struct, array, array_of_unknown, TypeDescriptor, is_generic_struct, type_to_string, Expr, VarDecl,
  Stmt, stmt, StmtForm, var_decl, assign, struct_field_assign, expr_stmt, if_stmt, transition,
  terminal, Stmts, stmt_list,
}
use falcon_lib.Value
use falcon_lib.Value.{RuntimeValue, int, float, bool, string, nil, zero_float}
use falcon_lib.Value.Memory.{new_struct}
use falcon_lib.Eval.{
  State, Native, Eval, Runner, ControlFlow, no_change, to_state, to_end, pure, throw, on_heap,
  set_variable, evaluate_list, ◌>>=◌, ◌>>◌,
}
use Assign.{exec_assign, exec_struct_field_assign}

has_source : Location → Bool
has_source loc = not (str_eq loc.filename "") && ltb 0 loc.line

-- What `execute_with_context` throws for what it catches.
unfoldable pub with_context : Location → Failure → Failure
unfolding has_source
with_context loc (evaluation m) = evaluation (if has_source loc then at_location loc m else m)
with_context loc (exception m) =
    evaluation (if has_source loc then at_location loc m else unexpected m)
with_context loc undefined = undefined
with_context loc timeout = timeout

unfoldable pub execute_with_context {ℓ} : {A : Type ℓ} → Location → Eval A → Eval A
unfolding with_context
execute_with_context loc m s =
    let (r, s') = m s in (elim r [ ok a ↦ ok a | err e ↦ err (with_context loc e) ], s')

new_instance : String → Eval RuntimeValue
unfolding ◌>>=◌ on_heap new_struct
new_instance n = do a ← on_heap (new_struct n); pure (Value.struct (some a))

-- The value of a variable declared without an initializer.
unfoldable pub default_variable : TypeDescriptor → String → Eval RuntimeValue
unfolding new_instance type_to_string
default_variable (simple int_type) name = pure (int (pos 0))
default_variable (simple float_type) name = pure (float zero_float)
default_variable (simple bool_type) name = pure (bool false)
default_variable (simple string_type) name = pure (string "")
default_variable (simple error_type) name = pure nil
default_variable (error v) name = pure nil
default_variable (array t) name = new_instance ("Array<" ⊹ type_to_string t ⊹ ">")
default_variable array_of_unknown name = new_instance "Array"
default_variable (struct n ts) name = new_instance n
default_variable td name = throw (evaluation (needs_initializer td name))

-- The type that a declaration hands to its initializer.
abbrev pub inferred_type : TypeDescriptor → Option TypeDescriptor
inferred_type td = if is_generic_struct td then some td else none

module _ (native : Native) (run : Runner) where
  initial_value : VarDecl → Option Expr → Eval RuntimeValue
  unfolding default_variable
  initial_value d none = default_variable d.type d.name
  initial_value d (some e) = run.evaluate (inferred_type d.type) e

  unfoldable pub exec_var_decl : VarDecl → Eval ControlFlow
  unfolding ◌>>=◌ initial_value set_variable
  exec_var_decl d = do v ← initial_value d d.initializer; set_variable d.name v; pure no_change

  branch : RuntimeValue → Stmts → Stmts → Eval ControlFlow
  branch (bool true) then_body else_body = run.execute_block (stmt_list then_body)
  branch (bool false) then_body else_body = run.execute_block (stmt_list else_body)
  branch v then_body else_body = throw (evaluation condition_not_bool)

  unfoldable pub exec_if : Expr → Stmts → Stmts → Eval ControlFlow
  unfolding ◌>>=◌ branch
  exec_if condition then_body else_body = do
    v ← run.evaluate none condition
    branch v then_body else_body

  unfoldable pub exec_transition : String → List Expr → Eval ControlFlow
  unfolding ◌>>=◌ evaluate_list
  exec_transition target parameters = do
    vs ← evaluate_list run parameters
    pure (to_state target vs)

  unfoldable pub exec_form : StmtForm → Eval ControlFlow
  unfolding ◌>>=◌ exec_var_decl exec_assign exec_struct_field_assign exec_if exec_transition
  exec_form (var_decl d) = exec_var_decl d
  exec_form (assign targets value) = exec_assign run targets value
  exec_form (struct_field_assign object field value) =
      exec_struct_field_assign run object field value
  exec_form (expr_stmt e) = do run.evaluate none e; pure no_change
  exec_form (if_stmt condition then_body else_body) = exec_if condition then_body else_body
  exec_form (transition target parameters) = exec_transition target parameters
  exec_form terminal = pure to_end

  unfoldable pub execute : Stmt → Eval ControlFlow
  unfolding exec_form execute_with_context
  execute (stmt loc form) = execute_with_context loc (exec_form form)

  unfoldable pub after_stmt : ControlFlow → Eval ControlFlow → Eval ControlFlow
  after_stmt no_change rest = rest
  after_stmt (to_state target params) rest = pure (to_state target params)
  after_stmt to_end rest = pure to_end

  unfoldable pub execute_block : List Stmt → Eval ControlFlow
  unfolding ◌>>=◌ execute after_stmt
  execute_block [] = pure no_change
  execute_block (s ∷ rest) =
      let later = execute_block rest in do flow ← execute s; after_stmt flow later
