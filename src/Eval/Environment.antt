-- ===== src/Eval/Environment.antt =====
-- dsl/src/ExprEvaluator.cpp, `exec_struct_routine`: the environment that a routine of a struct runs
-- in, with the receiver as "this", its fields under their bare names, the inputs and the outputs.
pub mod Frame
pub mod Fuel
use falcon_lib.Base.{ℕ, String, Bool, true, false, Option, none, some, List, [], ◌∷◌, if◌then◌else◌}
use falcon_lib.Base.Int.{pos}
use falcon_lib.Base.Text.{text_before}
use falcon_lib.Base.Maps.{lookup, insert, is_some}
use falcon_lib.Errors.{
  evaluation, no_ffi_implementation, missing_routine_argument, routine_output_not_set,
}
use falcon_lib.Syntax.{
  ParamType, int_type, float_type, bool_type, string_type, struct, base_type, Expr, TypeDescriptor,
  VarDecl, ParamDecl, RoutineDecl, StructDecl,
}
use falcon_lib.Value.{
  RuntimeValue, int, float, bool, string, nil, zero_float, ParameterMap, FunctionResult,
}
use falcon_lib.Value
use falcon_lib.Value.Memory.{new_struct, set_field}
use falcon_lib.Registry.Types.{TypeRegistry, lookup_struct, lookup_ffi_method}
use falcon_lib.Eval.{
  Native, Eval, Runner, pure, throw, gets, on_world, on_heap, modify_heap, in_env, deref, require,
  ◌>>=◌, ◌>>◌,
}

-- The value of a field with no initializer.
unfoldable pub default_of : ParamType → RuntimeValue
default_of int_type = int (pos 0)
default_of float_type = float zero_float
default_of bool_type = bool false
default_of string_type = string ""
default_of _ = nil

-- An entry of an environment under construction, with the environment left by the evaluation.
module _ (run : Runner) where
  bind_evaluated : String → Expr → ParameterMap → Eval ParameterMap
  unfolding ◌>>=◌ insert
  bind_evaluated name e env = do
    (v, env') ← in_env env (run.evaluate none e)
    pure (insert name v env')

  bind_field_default : VarDecl → ParameterMap → Eval ParameterMap
  unfolding bind_evaluated default_of
  bind_field_default f env = elim f.initializer [
    | some e ↦ bind_evaluated f.name e env
    | none ↦ pure (insert f.name (default_of (base_type f.type)) env)
  ]

  bind_field : ℕ → VarDecl → ParameterMap → Eval ParameterMap
  unfolding ◌>>=◌ deref bind_field_default lookup
  bind_field receiver f env = do
    this ← deref receiver
    elim (lookup f.name this.fields) [
      | some v ↦ pure (insert f.name v env)
      | none ↦ bind_field_default f env
    ]

  unfoldable pub bind_fields : ℕ → List VarDecl → ParameterMap → Eval ParameterMap
  unfolding ◌>>=◌ bind_field
  bind_fields receiver [] env = pure env
  bind_fields receiver (f ∷ fs) env = bind_field receiver f env >>= bind_fields receiver fs

  bind_default_input : String → ParamDecl → ParameterMap → Eval ParameterMap
  unfolding bind_evaluated
  bind_default_input routine_name p env = elim p.default_value [
    | some e ↦ bind_evaluated p.name e env
    | none ↦ throw (evaluation (missing_routine_argument routine_name p.name))
  ]

  unfoldable pub bind_inputs :
      String → List ParamDecl → List RuntimeValue → ParameterMap → Eval ParameterMap
  unfolding ◌>>=◌ bind_default_input insert
  bind_inputs routine_name [] vs env = pure env
  bind_inputs routine_name (p ∷ ps) (v ∷ vs) env =
      bind_inputs routine_name ps vs (insert p.name v env)
  bind_inputs routine_name (p ∷ ps) [] env =
      bind_default_input routine_name p env >>= bind_inputs routine_name ps []

  -- The fields of a fresh output instance: an initializer's value or the default of the type.
  output_field : ℕ → VarDecl → ParameterMap → Eval ParameterMap
  unfolding ◌>>=◌ modify_heap set_field default_of
  output_field fresh f env = elim f.initializer [
    | some e ↦ do
      (v, env') ← in_env env (run.evaluate none e)
      modify_heap (set_field fresh f.name v)
      pure env'
    | none ↦ do modify_heap (set_field fresh f.name (default_of (base_type f.type))); pure env
  ]

  output_fields : ℕ → List VarDecl → ParameterMap → Eval ParameterMap
  unfolding ◌>>=◌ output_field
  output_fields fresh [] env = pure env
  output_fields fresh (f ∷ fs) env = output_field fresh f env >>= output_fields fresh fs

  -- a type that is not declared gives an instance with no fields
  fill_output : ℕ → Option StructDecl → ParameterMap → Eval ParameterMap
  unfolding output_fields
  fill_output fresh none env = pure env
  fill_output fresh (some d) env = output_fields fresh d.fields env

  struct_output : String → String → ParameterMap → Eval ParameterMap
  unfolding ◌>>=◌ on_heap new_struct lookup_struct fill_output insert
  struct_output name type_name env = do
    fresh ← on_heap (new_struct type_name)
    types ← gets (λ s. s.types)
    env' ← fill_output fresh (lookup_struct types type_name) env
    pure (insert name (Value.struct (some fresh)) env')

  default_output : ParamDecl → ParameterMap → Eval ParameterMap
  unfolding bind_evaluated
  default_output p env = elim p.default_value [
    | some e ↦ bind_evaluated p.name e env
    | none ↦ pure env
  ]

  init_output : ParamDecl → TypeDescriptor → ParameterMap → Eval ParameterMap
  unfolding struct_output default_output
  init_output p (struct n ts) env = struct_output p.name n env
  init_output p td env = default_output p env

  unfoldable pub init_outputs : List ParamDecl → ParameterMap → Eval ParameterMap
  unfolding ◌>>=◌ init_output
  init_outputs [] env = pure env
  init_outputs (p ∷ ps) env = init_output p p.type env >>= init_outputs ps

  unfoldable pub routine_env : ℕ → StructDecl → RoutineDecl → List RuntimeValue → Eval ParameterMap
  unfolding ◌>>=◌ bind_fields bind_inputs init_outputs
  routine_env receiver decl routine call_args =
      bind_fields receiver decl.fields (("this", Value.struct (some receiver)) ∷ [])
      >>= bind_inputs routine.name routine.input_params call_args
      >>= init_outputs routine.output_params
