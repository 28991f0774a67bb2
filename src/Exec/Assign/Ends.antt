-- ===== src/Exec/Assign/Ends.antt =====
-- Assignments, and running out of fuel.
use falcon_lib.Base.{String, none, some, List, [], ◌∷◌}
use falcon_lib.Errors.{Failure, exception, evaluation, bad_variant, not_struct_instance}
use falcon_lib.Syntax.{Expr, variable, AssignTarget, to_variable, to_field}
use falcon_lib.Value.{RuntimeValue, struct, tuple}
use falcon_lib.Eval.{Runner, throw}
use falcon_lib.Eval.Ends.{
  Ends, Ends-pure, Ends-bind, Ends-undefined, Ends-evaluation, Ends-exception, Ends-set_variable,
  ends_rules,
}
use falcon_lib.Exec.Assign.{
  write_struct, write_variable_field, write_target_field, require_struct, assign_element,
  assign_elements, assign_sized, assign_tuple, assign_value, exec_assign, sync_flat,
  exec_struct_field_assign,
}

-- The objects of the targets end.
unfoldable pub TargetsEnd : Runner → List AssignTarget → Type 0
TargetsEnd run [] = Unit
TargetsEnd run (to_variable name ∷ ts) = TargetsEnd run ts
TargetsEnd run (to_field object field ∷ ts) = Ends (run.evaluate none object) × TargetsEnd run ts

-- `wrong` is one of the two failures that the assignments use.
module _ (name field : String) (v : RuntimeValue) (wrong : Failure)
    (hw : Ends (throw {A = Unit {0}} wrong)) where
  Ends-write_struct : (object : RuntimeValue) → Ends (write_struct name field v wrong object)
  unfolding write_struct
  Ends-write_struct (struct none) = search ends_rules
  Ends-write_struct (struct (some a)) = search ends_rules
  Ends-write_struct _ = hw

  Ends-write_variable_field : Ends (write_variable_field name field v wrong)
  unfolding write_variable_field
  Ends-write_variable_field = search (ends_rules, Ends-write_struct)

Ends-write_target_field :
    (object : Expr) (field : String) (v : RuntimeValue)
    → Ends (write_target_field object field v (exception bad_variant))
unfolding write_target_field
Ends-write_target_field (variable name) field v =
    Ends-write_variable_field name field v (exception bad_variant) (Ends-exception bad_variant)
Ends-write_target_field _ field v = Ends-evaluation _

Ends-require_struct : (v : RuntimeValue) → Ends (require_struct v)
unfolding require_struct
Ends-require_struct (struct p) = Ends-pure tt
Ends-require_struct _ = Ends-evaluation _

module _ (run : Runner) where
  Ends-assign_elements :
      (ts : List AssignTarget) (vs : List RuntimeValue)
      → TargetsEnd run ts
      → Ends (assign_elements run ts vs)
  unfolding assign_elements assign_element TargetsEnd
  Ends-assign_elements [] vs h = Ends-pure tt
  Ends-assign_elements (t ∷ ts) [] h = Ends-pure tt
  Ends-assign_elements (to_variable name ∷ ts) (v ∷ vs) h =
      Ends-bind _ _ (Ends-set_variable name v) λ _. Ends-assign_elements ts vs h
  Ends-assign_elements (to_field object field ∷ ts) (v ∷ vs) h =
      Ends-bind _ _
        (Ends-bind _ _ h.0
          λ o. Ends-bind _ _ (Ends-require_struct o) λ _. Ends-write_target_field object field v)
        λ _. Ends-assign_elements ts vs h.1

  Ends-assign_tuple :
      (ts : List AssignTarget) (v : RuntimeValue) → TargetsEnd run ts → Ends (assign_tuple run ts v)
  unfolding assign_tuple assign_sized
  Ends-assign_tuple ts (tuple none) h = Ends-evaluation _
  Ends-assign_tuple ts (tuple (some a)) h = search (ends_rules, Ends-assign_elements)
  Ends-assign_tuple ts _ h = search ends_rules

  Ends-assign_value :
      (ts : List AssignTarget) (v : RuntimeValue) → TargetsEnd run ts → Ends (assign_value run ts v)
  unfolding assign_value
  Ends-assign_value [] v h = Ends-undefined
  Ends-assign_value (to_variable name ∷ []) v h = Ends-set_variable name v
  Ends-assign_value (to_field object field ∷ []) v h = Ends-write_target_field object field v
  Ends-assign_value (t ∷ u ∷ ts) v h = Ends-assign_tuple (t ∷ u ∷ ts) v h

  pub Ends-exec_assign :
      (ts : List AssignTarget) (e : Expr)
      → TargetsEnd run ts
      → Ends (run.evaluate none e)
      → Ends (exec_assign run ts e)
  unfolding exec_assign
  Ends-exec_assign ts e h he =
      Ends-bind _ _ he λ v. Ends-bind _ _ (Ends-assign_value ts v h) λ _. Ends-pure _

  Ends-sync_flat : (field : String) (v : RuntimeValue) → Ends (sync_flat run field v)
  unfolding sync_flat
  Ends-sync_flat field v = search ends_rules

  pub Ends-exec_struct_field_assign :
      (object : Expr) (field : String) (e : Expr)
      → Ends (run.evaluate none e)
      → Ends (exec_struct_field_assign run object field e)
  unfolding exec_struct_field_assign
  Ends-exec_struct_field_assign (variable name) field e he = Ends-bind _ _ he λ v.
      Ends-bind _ _
        (Ends-write_variable_field name field v (evaluation (not_struct_instance name))
          (Ends-evaluation _))
        λ _. Ends-bind _ _ (Ends-sync_flat field v) λ _. Ends-pure _
  Ends-exec_struct_field_assign _ field e he = Ends-bind _ _ he λ v. Ends-evaluation _
