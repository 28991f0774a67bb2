-- ===== src/Eval/Method.antt =====
-- dsl/src/ExprEvaluator.cpp, `eval_method_call`: a constructor call through a type's name, a call
-- of a routine of an instance, or a call of a method of another native value.
pub mod Frame
pub mod Fuel
use falcon_lib.Base.{
  ℕ, suc, String, Bool, true, false, not, ◌&&◌, Option, none, some, List, [], ◌∷◌, if◌then◌else◌,
}
use falcon_lib.Base.Text.{◌⊹◌, text_before, after_colons, decimal}
use falcon_lib.Base.Maps.{contains, insert}
use falcon_lib.Errors.{
  evaluation, undefined, null_struct, unknown_routine, no_struct_declaration, unknown_method,
}
use falcon_lib.Syntax.{
  ParamType, struct_type, base_type, TypeDescriptor, is_generic_struct, type_args, struct_name,
  struct, Expr, variable, VarDecl, StructDecl, is_generic, find_routine,
}
use falcon_lib.Value
use falcon_lib.Value.{RuntimeValue, ParameterMap}
use falcon_lib.Value.Memory.{new_struct, set_field, runtime_type_name}
use falcon_lib.Registry.Types.{TypeRegistry, lookup_struct, lookup_method}
use falcon_lib.Generics.{monomorphize_struct}
use falcon_lib.Eval.{
  World, Native, Eval, Runner, pure, throw, gets, on_world, on_heap, on_types, modify_heap, deref,
  require, pack_outputs, evaluate_list, ◌>>=◌, ◌>>◌,
}
use falcon_lib.Eval.Simple.{strip_module_prefix}
use falcon_lib.Eval.Environment.{default_of}
use falcon_lib.Eval.Routine.{exec_struct_routine}

-- The name under which the receiver's type is looked up: the base of the expected generic type.
unfoldable pub lookup_name : Option TypeDescriptor → String → String
unfolding text_before
lookup_name none name = name
lookup_name (some td) name =
    if is_generic_struct td
    then (elim (text_before b'<' (struct_name td)) [ none ↦ name | some base ↦ base ])
    else name

unfoldable pub injected_args : Option TypeDescriptor → List TypeDescriptor
injected_args none = []
injected_args (some td) = if is_generic_struct td then type_args td else []

struct_behind_prefix : Option StructDecl → Option String → TypeRegistry → Option StructDecl
unfolding lookup_struct
struct_behind_prefix (some d) bare types = some d
struct_behind_prefix none none types = none
struct_behind_prefix none (some bare) types = lookup_struct types bare

-- The declaration that a receiver's name stands for, when no variable has the name.
unfoldable pub static_struct :
    Option TypeDescriptor → String → ParameterMap → TypeRegistry → Option StructDecl
unfolding lookup_name struct_behind_prefix lookup_struct after_colons contains strip_module_prefix
static_struct inferred name vars types =
    let key = lookup_name inferred name in
    if contains name vars
    then none
    else if contains (strip_module_prefix name) vars
    then none
    else struct_behind_prefix (lookup_struct types key) (after_colons key) types

-- `monomorphize_struct` when the declaration is generic and type arguments are known.
unfoldable pub instantiate : StructDecl → List TypeDescriptor → Eval StructDecl
unfolding ◌>>=◌ on_types require
instantiate decl [] = pure decl
instantiate decl (t ∷ ts) =
    if is_generic decl
    then (do found ← on_types (monomorphize_struct decl (t ∷ ts)); require found undefined)
    else pure decl

module _ (native : Native) (run : Runner) where
  -- The value of a field of a new receiver: a field of struct type gets a fresh instance.
  default_field : TypeDescriptor → Eval RuntimeValue
  unfolding ◌>>=◌ on_heap new_struct default_of
  default_field (struct n ts) = do a ← on_heap (new_struct n); pure (Value.struct (some a))
  default_field td = pure (default_of (base_type td))

  field_value : VarDecl → Eval RuntimeValue
  unfolding default_field
  field_value f = elim f.initializer [ some e ↦ run.evaluate none e | none ↦ default_field f.type ]

  init_receiver : ℕ → List VarDecl → Eval (Unit {0})
  unfolding ◌>>=◌ field_value modify_heap set_field
  init_receiver receiver [] = pure tt
  init_receiver receiver (f ∷ fs) = do
    v ← field_value f
    modify_heap (set_field receiver f.name v)
    init_receiver receiver fs

  unfoldable pub static_call :
      StructDecl → List TypeDescriptor → String → List Expr → Eval RuntimeValue
  unfolding ◌>>=◌ instantiate require find_routine on_heap new_struct init_receiver evaluate_list
      exec_struct_routine pack_outputs
  static_call template ts method call_args = do
    decl ← instantiate template ts
    routine ← require (find_routine decl method) (evaluation (unknown_routine method decl.name))
    receiver ← on_heap (new_struct decl.name)
    init_receiver receiver decl.fields
    vs ← evaluate_list run call_args
    outputs ← exec_struct_routine native run receiver decl routine vs
    pack_outputs outputs

  unfoldable pub instance_call : ℕ → String → List Expr → Eval RuntimeValue
  unfolding ◌>>=◌ deref lookup_struct require find_routine evaluate_list exec_struct_routine
      pack_outputs
  instance_call receiver method call_args = do
    this ← deref receiver
    types ← gets (λ s. s.types)
    decl ←
        require (lookup_struct types this.type_name)
          (evaluation (no_struct_declaration this.type_name))
    routine ←
        require (find_routine decl method) (evaluation (unknown_routine method this.type_name))
    vs ← evaluate_list run call_args
    outputs ← exec_struct_routine native run receiver decl routine vs
    pack_outputs outputs

  -- "arg0", "arg1" and so on.
  positional_params : ℕ → List RuntimeValue → ParameterMap
  unfolding decimal insert
  positional_params i [] = []
  positional_params i (v ∷ vs) = ("arg" ⊹ decimal i, v) ∷ positional_params (suc i) vs

  unfoldable pub legacy_call : RuntimeValue → String → List Expr → Eval RuntimeValue
  unfolding ◌>>=◌ require runtime_type_name lookup_method evaluate_list positional_params
      pack_outputs
  legacy_call object method call_args = do
    type_name ← gets (λ s. runtime_type_name s.heap object)
    types ← gets (λ s. s.types)
    m ←
        require (lookup_method types type_name method)
          (evaluation (unknown_method method type_name))
    vs ← evaluate_list run call_args
    outputs ← on_world (native.call_method m object (positional_params 0 vs))
    pack_outputs outputs

  call_on : RuntimeValue → String → List Expr → Eval RuntimeValue
  unfolding instance_call legacy_call
  call_on (Value.struct none) method call_args = throw (evaluation null_struct)
  call_on (Value.struct (some a)) method call_args = instance_call a method call_args
  call_on object method call_args = legacy_call object method call_args

  dynamic_call : Expr → String → List Expr → Eval RuntimeValue
  unfolding ◌>>=◌ call_on
  dynamic_call object method call_args = do v ← run.evaluate none object; call_on v method call_args

  call_through_name :
      Option StructDecl → Option TypeDescriptor → String → String → List Expr → Eval RuntimeValue
  unfolding static_call injected_args dynamic_call
  call_through_name none inferred name method call_args =
      dynamic_call (variable name) method call_args
  call_through_name (some decl) inferred name method call_args =
      static_call decl (injected_args inferred) method call_args

  -- A receiver that is a name is first taken for the name of a type.
  unfoldable pub eval_method_call :
      Option TypeDescriptor → Expr → String → List Expr → Eval RuntimeValue
  unfolding ◌>>=◌ static_struct call_through_name
  eval_method_call inferred (variable name) method call_args = do
    decl ← gets (λ s. static_struct inferred name s.vars s.types)
    call_through_name decl inferred name method call_args
  eval_method_call inferred object method call_args = dynamic_call object method call_args
