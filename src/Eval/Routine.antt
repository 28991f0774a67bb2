-- ===== src/Eval/Routine.antt =====
-- dsl/src/ExprEvaluator.cpp, `exec_struct_routine`: a routine of a struct runs in an environment of
-- its own (module Environment). Afterwards the fields go back into the receiver.
pub mod Frame
pub mod Fuel
pub mod WriteBack
use falcon_lib.Base.{
  ℕ, get_elem?, set, String, Bool, true, false, Option, none, some, List, [], ◌∷◌, if◌then◌else◌,
}
use falcon_lib.Base.Int.{pos}
use falcon_lib.Base.Text.{text_before}
use falcon_lib.Base.Maps.{lookup, insert, is_some}
use falcon_lib.Errors.{
  evaluation, no_ffi_implementation, missing_routine_argument, routine_output_not_set,
}
use falcon_lib.Syntax.{
  ParamType, int_type, float_type, bool_type, string_type, struct, base_type, Expr, Stmt,
  TypeDescriptor, VarDecl, ParamDecl, RoutineDecl, StructDecl,
}
use falcon_lib.Value.{
  RuntimeValue, int, float, bool, string, nil, zero_float, ParameterMap, FunctionResult, Heap,
}
use falcon_lib.Value
use falcon_lib.Eval.Environment.{routine_env}
use falcon_lib.Registry.Types.{TypeRegistry, lookup_struct, lookup_ffi_method}
use falcon_lib.Eval.{
  Native, Eval, Runner, pure, throw, gets, on_world, on_heap, modify_heap, in_env, deref, require,
  ◌>>=◌, ◌>>◌,
}

-- The registered method, or that of the base name of an instance such as "Box<int>".
unfoldable pub find_ffi : TypeRegistry → String → String → Option ℕ
unfolding lookup_ffi_method text_before
find_ffi types type_name routine_name = elim (lookup_ffi_method types type_name routine_name) [
  | some m ↦ some m
  | none ↦ elim (text_before b'<' type_name) [
    | none ↦ none
    | some base ↦ lookup_ffi_method types base routine_name
  ]
]

-- Input arguments by name, as far as both lists go.
pack_inputs : List ParamDecl → List RuntimeValue → ParameterMap → ParameterMap
unfolding insert
pack_inputs (p ∷ ps) (v ∷ vs) params = pack_inputs ps vs (insert p.name v params)
pack_inputs _ _ params = params

-- "this" goes along only for an instance that wraps a native object.
abbrev native_params : Bool → ℕ → ParameterMap
native_params true receiver = ("this", Value.struct (some receiver)) ∷ []
native_params false receiver = []

module _ (native : Native) where
  call_native : ℕ → ℕ → RoutineDecl → List RuntimeValue → Eval FunctionResult
  unfolding ◌>>=◌ deref pack_inputs
  call_native method receiver routine call_args = do
    instance_value ← deref receiver
    on_world (
        native.call_method method (Value.struct (some receiver)) (
          pack_inputs routine.input_params call_args
            (native_params (is_some instance_value.native_handle) receiver)))

  -- A routine with no body is native, or an error.
  unfoldable pub exec_ffi_routine :
      ℕ → StructDecl → RoutineDecl → List RuntimeValue → Eval FunctionResult
  unfolding ◌>>=◌ call_native find_ffi require
  exec_ffi_routine receiver decl routine call_args = do
    types ← gets (λ s. s.types)
    method ←
        require (find_ffi types decl.name routine.name)
          (evaluation (no_ffi_implementation routine.name decl.name))
    call_native method receiver routine call_args

-- `target[name] = v` when there is a value.
unfoldable pub insert_found : String → Option RuntimeValue → ParameterMap → ParameterMap
unfolding insert
insert_found name none target = target
insert_found name (some v) target = insert name v target

-- `target[f] = source[f]` for each declared field that the source has. The first pass takes the
-- receiver's fields into the environment, the second the environment's values into the receiver.
unfoldable pub copy_fields : List VarDecl → ParameterMap → ParameterMap → ParameterMap
unfolding lookup insert_found
copy_fields [] source target = target
copy_fields (f ∷ fs) source target =
    copy_fields fs source (insert_found f.name (lookup f.name source) target)

-- The environment and the receiver's fields after both passes.
unfoldable pub write_back : List VarDecl → ParameterMap → ParameterMap → ParameterMap × ParameterMap
unfolding copy_fields
write_back fs fields env =
    let synced = copy_fields fs fields env in (synced, copy_fields fs synced fields)

unfoldable pub collect_outputs : String → List ParamDecl → ParameterMap → Eval FunctionResult
unfolding ◌>>=◌ require lookup
collect_outputs routine_name [] env = pure []
collect_outputs routine_name (p ∷ ps) env = do
  v ← require (lookup p.name env) (evaluation (routine_output_not_set routine_name p.name))
  vs ← collect_outputs routine_name ps env
  pure (v ∷ vs)

-- The fields of the instance at an address, replaced.
unfoldable pub replace_fields : ℕ → ParameterMap → Heap → Heap
replace_fields a fields h = elim (get_elem? h.structs a) [
  | none ↦ h
  | some s ↦ record h { structs = set h.structs a (record s { fields = fields }) }
]

-- After the body: the receiver's fields go into the environment, then back into the receiver.
unfoldable pub finish_routine : ℕ → StructDecl → RoutineDecl → ParameterMap → Eval FunctionResult
unfolding ◌>>=◌ deref write_back replace_fields modify_heap collect_outputs
finish_routine receiver decl routine env = do
  this ← deref receiver
  let after = write_back decl.fields this.fields env
  modify_heap (replace_fields receiver after.1)
  collect_outputs routine.name routine.output_params after.0

module _ (native : Native) (run : Runner) where
  unfoldable pub exec_fal_routine :
      ℕ → StructDecl → RoutineDecl → List RuntimeValue → Eval FunctionResult
  unfolding ◌>>=◌ routine_env finish_routine
  exec_fal_routine receiver decl routine call_args = do
    env ← routine_env run receiver decl routine call_args
    (_, left) ← in_env env (run.execute_block routine.body)
    finish_routine receiver decl routine left

  exec_with_body :
      List Stmt → ℕ → StructDecl → RoutineDecl → List RuntimeValue → Eval FunctionResult
  unfolding exec_fal_routine exec_ffi_routine
  exec_with_body [] receiver decl routine call_args =
      exec_ffi_routine native receiver decl routine call_args
  exec_with_body (s ∷ rest) receiver decl routine call_args =
      exec_fal_routine receiver decl routine call_args

  unfoldable pub exec_struct_routine :
      ℕ → StructDecl → RoutineDecl → List RuntimeValue → Eval FunctionResult
  unfolding exec_with_body
  exec_struct_routine receiver decl routine call_args =
      exec_with_body routine.body receiver decl routine call_args
