-- ===== src/Exec/Assign/Keys.antt =====
-- The names of variables during assignments.
use falcon_lib.Base.{String, none, some, List, [], ◌∷◌}
use falcon_lib.Errors.{Failure}
use falcon_lib.Syntax.{Expr, variable, AssignTarget, to_variable, to_field}
use falcon_lib.Value.{RuntimeValue, struct, tuple}
use falcon_lib.Eval.{Runner}
use falcon_lib.Eval.Frame.{KeepsVars, RunnerKeepsVars, frame_rules, KeepsVars-throw, KeepsVars-pure}
use falcon_lib.Eval.Keys.{
  KeepsVar, KeepsVar-frame, KeepsVar-set_variable, KeepsVar-bind, KeepsVar-if,
}
use falcon_lib.Exec.Assign.{
  write_struct, write_variable_field, write_target_field, require_struct, assign_element,
  assign_elements, assign_sized, assign_tuple, assign_value, exec_assign, sync_flat,
  exec_struct_field_assign,
}

KeepsVars-write_struct :
    (name field : String) (v : RuntimeValue) (wrong : Failure) (object : RuntimeValue)
    → KeepsVars (write_struct name field v wrong object)
unfolding write_struct
KeepsVars-write_struct name field v wrong (struct none) = search frame_rules
KeepsVars-write_struct name field v wrong (struct (some a)) = search frame_rules
KeepsVars-write_struct name field v wrong _ = KeepsVars-throw _

KeepsVars-write_variable_field :
    (name field : String) (v : RuntimeValue) (wrong : Failure)
    → KeepsVars (write_variable_field name field v wrong)
unfolding write_variable_field
KeepsVars-write_variable_field name field v wrong = search (frame_rules, KeepsVars-write_struct)

KeepsVars-write_target_field :
    (object : Expr) (field : String) (v : RuntimeValue) (wrong : Failure)
    → KeepsVars (write_target_field object field v wrong)
unfolding write_target_field
KeepsVars-write_target_field (variable name) field v wrong =
    KeepsVars-write_variable_field name field v wrong
KeepsVars-write_target_field _ field v wrong = KeepsVars-throw _

KeepsVars-require_struct : (v : RuntimeValue) → KeepsVars (require_struct v)
unfolding require_struct
KeepsVars-require_struct (struct p) = KeepsVars-pure _
KeepsVars-require_struct _ = KeepsVars-throw _

ruleset var_rules = (KeepsVar-bind, KeepsVar-if, KeepsVar-set_variable, KeepsVar-frame, frame_rules)

module _ (k : String) (run : Runner) (frame : RunnerKeepsVars run) where
  KeepsVar-assign_element :
      (t : AssignTarget) (v : RuntimeValue) → KeepsVar k (assign_element run t v)
  unfolding assign_element
  KeepsVar-assign_element (to_variable name) v = KeepsVar-set_variable k name v
  KeepsVar-assign_element (to_field object field) v =
      KeepsVar-frame k _ (
        search
          (frame_rules, frame.evaluate, KeepsVars-require_struct, KeepsVars-write_target_field))

  KeepsVar-assign_elements :
      (ts : List AssignTarget) (vs : List RuntimeValue) → KeepsVar k (assign_elements run ts vs)
  unfolding assign_elements
  KeepsVar-assign_elements [] vs = KeepsVar-frame k _ (KeepsVars-pure _)
  KeepsVar-assign_elements (t ∷ ts) [] = KeepsVar-frame k _ (KeepsVars-pure _)
  KeepsVar-assign_elements (t ∷ ts) (v ∷ vs) =
      KeepsVar-bind k _ _ (KeepsVar-assign_element t v) λ _. KeepsVar-assign_elements ts vs

  KeepsVar-assign_sized :
      (ts : List AssignTarget) (vs : List RuntimeValue) → KeepsVar k (assign_sized run ts vs)
  unfolding assign_sized
  KeepsVar-assign_sized ts vs = search (KeepsVar-assign_elements, var_rules)

  KeepsVar-assign_tuple :
      (ts : List AssignTarget) (v : RuntimeValue) → KeepsVar k (assign_tuple run ts v)
  unfolding assign_tuple
  KeepsVar-assign_tuple ts (tuple none) = KeepsVar-frame k _ (KeepsVars-throw _)
  KeepsVar-assign_tuple ts (tuple (some a)) = search (KeepsVar-assign_sized, var_rules)
  KeepsVar-assign_tuple ts _ = KeepsVar-frame k _ (search frame_rules)

  KeepsVar-assign_value :
      (ts : List AssignTarget) (v : RuntimeValue) → KeepsVar k (assign_value run ts v)
  unfolding assign_value
  KeepsVar-assign_value [] v = KeepsVar-frame k _ (KeepsVars-throw _)
  KeepsVar-assign_value (to_variable name ∷ []) v = KeepsVar-set_variable k name v
  KeepsVar-assign_value (to_field object field ∷ []) v =
      KeepsVar-frame k _ (KeepsVars-write_target_field object field v _)
  KeepsVar-assign_value (t ∷ u ∷ ts) v = KeepsVar-assign_tuple (t ∷ u ∷ ts) v

  pub KeepsVar-exec_assign : (ts : List AssignTarget) (e : Expr) → KeepsVar k (exec_assign run ts e)
  unfolding exec_assign
  KeepsVar-exec_assign ts e = search (KeepsVar-assign_value, frame.evaluate, var_rules)

  KeepsVar-sync_flat : (field : String) (v : RuntimeValue) → KeepsVar k (sync_flat run field v)
  unfolding sync_flat
  KeepsVar-sync_flat field v = search var_rules

  pub KeepsVar-exec_struct_field_assign :
      (object : Expr) (field : String) (e : Expr)
      → KeepsVar k (exec_struct_field_assign run object field e)
  unfolding exec_struct_field_assign
  KeepsVar-exec_struct_field_assign (variable name) field e =
      search (KeepsVar-sync_flat, frame.evaluate, KeepsVars-write_variable_field, var_rules) depth 9
  KeepsVar-exec_struct_field_assign _ field e =
      KeepsVar-frame k _ (search (frame_rules, frame.evaluate))
