-- ===== src/Exec/Assign/Fuel.antt =====
-- Assignments on more fuel.
use falcon_lib.Base.{String, none, some, List, [], ◌∷◌}
use falcon_lib.Syntax.{Expr, variable, AssignTarget, to_variable, to_field}
use falcon_lib.Value.{RuntimeValue, tuple}
use falcon_lib.Eval.{Runner}
use falcon_lib.Eval.Fuel.{Refines, Refines-same, Refines-bind, RunnerRefines, refine_rules}
use falcon_lib.Exec.Assign.{
  assign_element, assign_elements, assign_sized, assign_tuple, assign_value, exec_assign, sync_flat,
  exec_struct_field_assign,
}

module _ (run run' : Runner) (more : RunnerRefines run run') where
  Refines-assign_element :
      (t : AssignTarget) (v : RuntimeValue)
      → Refines (assign_element run t v) (assign_element run' t v)
  unfolding assign_element
  Refines-assign_element (to_variable name) v = Refines-same _
  Refines-assign_element (to_field object field) v = search (refine_rules, more.evaluate)

  Refines-assign_elements :
      (ts : List AssignTarget) (vs : List RuntimeValue)
      → Refines (assign_elements run ts vs) (assign_elements run' ts vs)
  unfolding assign_elements
  Refines-assign_elements [] vs = Refines-same _
  Refines-assign_elements (t ∷ ts) [] = Refines-same _
  Refines-assign_elements (t ∷ ts) (v ∷ vs) =
      Refines-bind _ _ _ _ (Refines-assign_element t v) λ _. Refines-assign_elements ts vs

  Refines-assign_sized :
      (ts : List AssignTarget) (vs : List RuntimeValue)
      → Refines (assign_sized run ts vs) (assign_sized run' ts vs)
  unfolding assign_sized
  Refines-assign_sized ts vs = search (Refines-assign_elements, refine_rules)

  Refines-assign_tuple :
      (ts : List AssignTarget) (v : RuntimeValue)
      → Refines (assign_tuple run ts v) (assign_tuple run' ts v)
  unfolding assign_tuple
  Refines-assign_tuple ts (tuple none) = Refines-same _
  Refines-assign_tuple ts (tuple (some a)) = search (Refines-assign_sized, refine_rules)
  Refines-assign_tuple ts _ = Refines-same _

  Refines-assign_value :
      (ts : List AssignTarget) (v : RuntimeValue)
      → Refines (assign_value run ts v) (assign_value run' ts v)
  unfolding assign_value
  Refines-assign_value [] v = Refines-same _
  Refines-assign_value (to_variable name ∷ []) v = Refines-same _
  Refines-assign_value (to_field object field ∷ []) v = Refines-same _
  Refines-assign_value (t ∷ u ∷ ts) v = Refines-assign_tuple (t ∷ u ∷ ts) v

  pub Refines-exec_assign :
      (ts : List AssignTarget) (e : Expr) → Refines (exec_assign run ts e) (exec_assign run' ts e)
  unfolding exec_assign
  Refines-exec_assign ts e = search (Refines-assign_value, more.evaluate, refine_rules)

  pub Refines-exec_struct_field_assign :
      (object : Expr) (field : String) (e : Expr)
      → Refines
          (exec_struct_field_assign run object field e)
          (exec_struct_field_assign run' object field e)
  unfolding exec_struct_field_assign sync_flat
  Refines-exec_struct_field_assign (variable name) field e = search (refine_rules, more.evaluate)
  Refines-exec_struct_field_assign _ field e = search (refine_rules, more.evaluate)
