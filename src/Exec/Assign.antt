-- ===== src/Exec/Assign.antt =====
-- dsl/src/StmtExecutor.cpp, `exec_assign` and `exec_struct_field_assign`.
pub mod Keys
pub mod Fuel
pub mod Ends
use falcon_lib.Base.{
  ℕ, suc, String, Bool, true, false, Option, none, some, List, [], ◌∷◌, length, ◌==◌, if◌then◌else◌,
}
use falcon_lib.Base.Maps.{lookup, contains, insert}
use falcon_lib.Errors.{
  Failure, evaluation, exception, undefined, bad_variant, tuple_expected, null_tuple, tuple_size,
  target_not_struct, complex_target, undefined_struct, null_struct_variable, not_struct_instance,
}
use falcon_lib.Syntax.{Expr, variable, AssignTarget, to_variable, to_field}
use falcon_lib.Value.{RuntimeValue, struct, tuple}
use falcon_lib.Value.Memory.{set_field, runtime_type_name}
use falcon_lib.Eval.{
  State, Eval, Runner, ControlFlow, no_change, pure, throw, gets, modify_heap, set_variable,
  require, get_tuple, ◌>>=◌, ◌>>◌,
}

write_struct : String → String → RuntimeValue → Failure → RuntimeValue → Eval (Unit {0})
unfolding ◌>>=◌ modify_heap set_field
write_struct name field v wrong (struct none) = throw (evaluation (null_struct_variable name))
write_struct name field v wrong (struct (some a)) = modify_heap (set_field a field v)
write_struct name field v wrong other = throw wrong

-- A field of the instance that a variable holds; `wrong` is thrown for any other value.
unfoldable pub write_variable_field : String → String → RuntimeValue → Failure → Eval (Unit {0})
unfolding ◌>>=◌ write_struct lookup require
write_variable_field name field v wrong = do
  vars ← gets (λ s. s.vars)
  object ← require (lookup name vars) (evaluation (undefined_struct name))
  write_struct name field v wrong object

write_target_field : Expr → String → RuntimeValue → Failure → Eval (Unit {0})
unfolding write_variable_field
write_target_field (variable name) field v wrong = write_variable_field name field v wrong
write_target_field object field v wrong = throw (evaluation complex_target)

require_struct : RuntimeValue → Eval (Unit {0})
unfolding ◌>>=◌
require_struct (struct p) = pure tt
require_struct v = throw (evaluation target_not_struct)

module _ (run : Runner) where
  assign_element : AssignTarget → RuntimeValue → Eval (Unit {0})
  unfolding ◌>>=◌ set_variable require_struct write_target_field
  assign_element (to_variable name) v = set_variable name v
  assign_element (to_field object field) v = do
    target ← run.evaluate none object
    require_struct target
    write_target_field object field v (exception bad_variant)

  -- The targets take the elements in order; the lists are of one length.
  assign_elements : List AssignTarget → List RuntimeValue → Eval (Unit {0})
  unfolding ◌>>=◌ assign_element
  assign_elements (t ∷ ts) (v ∷ vs) = do assign_element t v; assign_elements ts vs
  assign_elements _ _ = pure tt

  assign_sized : List AssignTarget → List RuntimeValue → Eval (Unit {0})
  unfolding assign_elements
  assign_sized targets vs =
      if length vs == length targets
      then assign_elements targets vs
      else throw (evaluation (tuple_size (length targets) (length vs)))

  assign_tuple : List AssignTarget → RuntimeValue → Eval (Unit {0})
  unfolding ◌>>=◌ get_tuple assign_sized runtime_type_name
  assign_tuple targets (tuple none) = throw (evaluation null_tuple)
  assign_tuple targets (tuple (some a)) = do vs ← get_tuple a; assign_sized targets vs
  assign_tuple targets v = do
    type_name ← gets (λ s. runtime_type_name s.heap v)
    throw (evaluation (tuple_expected type_name))

  assign_value : List AssignTarget → RuntimeValue → Eval (Unit {0})
  unfolding assign_tuple set_variable write_target_field
  assign_value [] v = throw undefined
  assign_value (to_variable name ∷ []) v = set_variable name v
  assign_value (to_field object field ∷ []) v =
      write_target_field object field v (exception bad_variant)
  assign_value (t ∷ u ∷ ts) v = assign_tuple (t ∷ u ∷ ts) v

  unfoldable pub exec_assign : List AssignTarget → Expr → Eval ControlFlow
  unfolding ◌>>=◌ assign_value
  exec_assign targets value = do v ← run.evaluate none value; assign_value targets v; pure no_change

  -- A variable of the field's name is kept in step with the field.
  sync_flat : String → RuntimeValue → Eval (Unit {0})
  unfolding ◌>>=◌ contains set_variable
  sync_flat field v = do
    vars ← gets (λ s. s.vars)
    if contains field vars then set_variable field v else pure tt

  unfoldable pub exec_struct_field_assign : Expr → String → Expr → Eval ControlFlow
  unfolding ◌>>=◌ write_variable_field sync_flat
  exec_struct_field_assign (variable name) field value = do
    v ← run.evaluate none value
    write_variable_field name field v (evaluation (not_struct_instance name))
    sync_flat field v
    pure no_change
  exec_struct_field_assign object field value = do
    run.evaluate none value
    throw (evaluation complex_target)
