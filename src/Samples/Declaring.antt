-- ===== src/Samples/Declaring.antt =====
-- Theorems on the registries, the instances of generic structs and the operators, at sample data.
use falcon_lib.Base.{
  Bool, true, false, not, ◌||◌, ◌+◌, ◌*◌, ◌%◌, ◌≡◌, ◌≢◌, ◌≤◌, ◌↔◌, inr, refl, some, List, [], ◌∷◌,
  arith,
}
use falcon_lib.Base.Int.{ℤ, pos, negsuc}
use falcon_lib.Base.Maps.{is_some}
use falcon_lib.Base.Text.{text_before}
use falcon_lib.Errors.{ok}
use falcon_lib.Syntax.{
  TypeDescriptor, nil_types, simple, int_type, struct, array, ParamDecl, RoutineDecl, StructDecl,
  BuiltinSignature,
}
use falcon_lib.Value.{int, bool}
use falcon_lib.Int64.{InRange, abs_ℕ, is_negative, div64}
use falcon_lib.Int64.Division.{div64-quotient}
use falcon_lib.Ops.{apply_binary_op}
use falcon_lib.Ops.Laws.{one_of, apply_binary_op-compare}
use falcon_lib.Registry.Types
use falcon_lib.Registry.Types.{TypeRegistry, register_ffi_method, lookup_ffi_method, find_method}
use falcon_lib.Registry.Types.Laws.{lookup_ffi_method-register}
use falcon_lib.Registry.Functions.{
  FunctionRegistry, register_autotuner, find_function, get_signature,
}
use falcon_lib.Registry.Functions.Laws.{created, with_autotuner, register_autotuner_again}
use falcon_lib.Generics.{
  replaced, substitute_type, build_substitution, monomorphize_struct, mono_struct,
}
use falcon_lib.Generics.Laws.{
  argument_of, substitute_type-build_substitution, monomorphize_struct_again,
}
use falcon_lib.Eval.Call.{resolve_function}
use falcon_lib.Eval.Call.Resolve.{resolved_signature}
use falcon_lib.Samples.{natural_floats, num}

lookup_ffi_method-register_example :
    (lookup_ffi_method (register_ffi_method "Array" "Size" 4 Types.empty) "Array" "Size" ≡ some 4)
    × (lookup_ffi_method (register_ffi_method "Array" "Size" 4 Types.empty) "Array<int>" "Size"
        ≡ some 4)
unfolding text_before find_method
lookup_ffi_method-register_example =
    lookup_ffi_method-register Types.empty "Array" "Array<int>" "Size" 4 refl refl

abbrev signature : BuiltinSignature
signature = record {
  qualified_name = "sweep";
  parameters = [];
  return_params = [];
  supports_named_args = true;
}

abbrev no_functions : FunctionRegistry
no_functions = record { functions = []; signatures = []; routines = []; builtin_registry = [] }

resolved_signature_example :
    is_some (get_signature (register_autotuner signature 3 no_functions) "sweep") ≡ true
unfolding resolve_function register_autotuner
resolved_signature_example =
    resolved_signature (register_autotuner signature 3 no_functions)
      (with_autotuner signature 3 no_functions (created [])) "lib::sweep" 3 "sweep" refl

abbrev other_signature : BuiltinSignature
other_signature = record signature { supports_named_args = false }

register_autotuner_again_example :
    (find_function
        (register_autotuner other_signature 8 (register_autotuner signature 3 no_functions))
        "sweep"
      ≡ some 8)
    × (get_signature
          (register_autotuner other_signature 8 (register_autotuner signature 3 no_functions))
          "sweep"
        ≡ some signature)
unfolding register_autotuner get_signature
register_autotuner_again_example =
    register_autotuner_again other_signature signature 8
      (register_autotuner signature 3 no_functions) refl

abbrev box_input : ParamDecl
box_input = record { type = struct "T" nil_types; name = "x"; default_value = some (num 1) }

abbrev put_routine : RoutineDecl
put_routine = record { name = "Put"; input_params = box_input ∷ []; output_params = []; body = [] }

-- struct Box<T> { routine Put(T x = 1) }
abbrev box : StructDecl
box = record {
  name = "Box";
  module_name = "";
  generic_params = "T" ∷ [];
  fields = [];
  routines = put_routine ∷ [];
}

abbrev int_args : List TypeDescriptor
int_args = simple int_type ∷ []

-- "Box<int>"
abbrev box_of_int : StructDecl
box_of_int = mono_struct box "Box<int>" (build_substitution ("T" ∷ []) int_args [])

abbrev boxes : TypeRegistry
boxes = record {
  type_methods = [];
  ffi_methods = [];
  struct_registry = ("Box<int>", box_of_int) ∷ [];
  owned_monomorphized = box_of_int ∷ [];
}

monomorphize_struct_again_example :
    monomorphize_struct box int_args boxes ≡ (ok (some box_of_int), boxes)
unfolding monomorphize_struct
monomorphize_struct_again_example =
    monomorphize_struct_again box int_args Types.empty boxes (some box_of_int) refl

substitute_type-build_substitution_example :
    substitute_type (array (struct "T" nil_types)) (build_substitution ("T" ∷ []) int_args [])
    ≡ array (replaced (argument_of "T" ("T" ∷ []) int_args) (struct "T" nil_types))
substitute_type-build_substitution_example =
    substitute_type-build_substitution "T" nil_types ("T" ∷ []) int_args

-- -7 / 2
div64-quotient_example :
    (q : ℤ) × (div64 (negsuc 6) (pos 2) ≡ ok q)
    × (abs_ℕ (pos 2) * abs_ℕ q + abs_ℕ (negsuc 6) % abs_ℕ (pos 2) ≡ abs_ℕ (negsuc 6))
    × ((is_negative q ≡ true)
        ↔ ((is_negative (negsuc 6) ≢ is_negative (pos 2)) × (abs_ℕ (pos 2) ≤ abs_ℕ (negsuc 6))))
    × InRange q
div64-quotient_example =
    div64-quotient (negsuc 6) (pos 2) (omega arith, omega arith) (omega arith)
      (inr (λ e. absurd cc))

apply_binary_op-compare_example :
    (less : Bool) × (same : Bool) × (greater : Bool) × (apply_binary_op natural_floats "<"
        (int (negsuc 0))
        (int (pos 4))
      ≡ ok (bool less))
    × (apply_binary_op natural_floats "==" (int (negsuc 0)) (int (pos 4)) ≡ ok (bool same))
    × (apply_binary_op natural_floats ">" (int (negsuc 0)) (int (pos 4)) ≡ ok (bool greater))
    × (apply_binary_op natural_floats "<=" (int (negsuc 0)) (int (pos 4))
        ≡ ok (bool (less || same)))
    × (apply_binary_op natural_floats "!=" (int (negsuc 0)) (int (pos 4)) ≡ ok (bool (not same)))
    × (one_of less same greater ≡ true)
apply_binary_op-compare_example = apply_binary_op-compare natural_floats (negsuc 0) (pos 4)
