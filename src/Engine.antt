-- ===== src/Engine.antt =====
-- dsl/src/AutotunerEngine.cpp: the engine that loads source files into the two registries and runs
-- the autotuners and routines of them. Its closures over `this` are data: a handle that the engine
-- puts into the function registry is a position in its list of closures.
pub mod Imports
pub mod Foreign
pub mod Load
pub mod Run
pub mod Bare
use falcon_lib.Base.{
  ℕ, ◌+◌, String, Bool, true, false, Option, none, some, List, [], ◌∷◌, ◌++◌, map, length, str_eq,
  if◌then◌else◌, ◌||◌,
}
use falcon_lib.Base.Text.{◌⊹◌, after_colons}
use falcon_lib.Base.Maps.{Map, in_order, lookup, insert, contains, is_some, keep}
use falcon_lib.Syntax.{
  ParamDecl, AutotunerDecl, RoutineDecl, StructDecl, ParamSpec, BuiltinSignature,
}
use falcon_lib.Registry.Types.{TypeRegistry, register_struct}
use falcon_lib.Registry.Functions.{
  FunctionRegistry, RoutineInfo, register_autotuner, register_routine, has_function,
}

pub record FfImportDecl : Type 0 where
  pub wrapper_file : String
  pub imports : List String
  pub build_libs : List String

pub record Program : Type 0 where
  pub module_name : String
  pub structs : List StructDecl
  pub autotuners : List AutotunerDecl
  pub routines : List RoutineDecl
  pub imports : List String
  pub ff_imports : List FfImportDecl

-- The function objects that the engine registers, by what they capture.
pub data Closure : Type 0 where
  autotuner_function : String → Closure
  inline_routine : String → Closure
  foreign_function : ℕ → Closure

pub record Engine : Type 0 where
  pub functions : FunctionRegistry
  pub types : TypeRegistry
  pub loaded_autotuners : Map AutotunerDecl
  pub routine_declarations : Map RoutineDecl
  pub loaded_programs : List Program
  pub loaded_paths : List String
  pub loaded_programs_by_path : Map Program
  pub import_struct_hints : List String
  pub ffi_handles : List ℕ
  -- The handles below `first_handle` are the builtin functions'.
  pub first_handle : ℕ
  pub closures : List Closure

unfoldable pub has_body : RoutineDecl → Bool
has_body decl = elim decl.body [ [] ↦ false | _ ∷ _ ↦ true ]

-- The name of a declaration of a module.
unfoldable pub qualified_name : String → String → String
qualified_name module_name name = if str_eq module_name "" then name else module_name ⊹ "::" ⊹ name

strip_colons : String → Option String → String
strip_colons qualified none = qualified
strip_colons qualified (some name) = name

unfoldable pub strip_module : String → String
unfolding strip_colons after_colons
strip_module qualified = strip_colons qualified (after_colons qualified)

first_bare : {V : Type 0} → String → Map V → Option V
unfolding strip_module
first_bare name [] = none
first_bare name ((k, v) ∷ m) =
    let rest = first_bare name m in if str_eq (strip_module k) name then some v else rest

any_bare : {V : Type 0} → String → Map V → Bool
unfolding strip_module
any_bare name [] = false
any_bare name ((k, v) ∷ m) = str_eq (strip_module k) name || any_bare name m

or_bare : {V : Type 0} → Option V → Option V → Option V
or_bare none rest = rest
or_bare (some v) rest = some v

-- By the qualified name, or else the first in the order of the qualified names whose name without
-- its module is the one asked for.
unfoldable pub get_autotuner : Engine → String → Option AutotunerDecl
unfolding lookup or_bare first_bare in_order
get_autotuner engine name =
    or_bare (lookup name engine.loaded_autotuners)
      (first_bare name (in_order engine.loaded_autotuners))

unfoldable pub has_autotuner : Engine → String → Bool
unfolding contains any_bare in_order
has_autotuner engine name =
    contains name engine.loaded_autotuners || any_bare name (in_order engine.loaded_autotuners)

keys : {V : Type 0} → Map V → List String
keys [] = []
keys ((k, v) ∷ m) = k ∷ keys m

unfoldable pub get_loaded_autotuners : Engine → List String
unfolding keys in_order
get_loaded_autotuners engine = keys (in_order engine.loaded_autotuners)

unfoldable pub get_declared_routines : Engine → List String
unfolding keys in_order
get_declared_routines engine = keys (in_order engine.routine_declarations)

registered_keys : {V : Type 0} → FunctionRegistry → Map V → List String
unfolding has_function
registered_keys r [] = []
registered_keys r ((k, v) ∷ m) =
    let rest = registered_keys r m in if has_function r k then k ∷ rest else rest

unfoldable pub get_loaded_routines : Engine → List String
unfolding registered_keys in_order
get_loaded_routines engine = registered_keys engine.functions (in_order engine.routine_declarations)

unfoldable pub param_specs : Bool → List ParamDecl → List ParamSpec
param_specs required ps = map (λ p. record { name = p.name; type = p.type; required = required }) ps

unfoldable pub signature : String → Bool → List ParamDecl → List ParamDecl → BuiltinSignature
unfolding param_specs
signature name returns_required inputs outputs = record {
  qualified_name = name;
  parameters = param_specs true inputs;
  return_params = param_specs returns_required outputs;
  supports_named_args = false;
}

-- The handle of the next closure.
unfoldable pub next_handle : Engine → ℕ
next_handle engine = engine.first_handle + length engine.closures

unfoldable pub add_closure : Closure → Engine → Engine
add_closure c engine = record engine { closures = engine.closures ++ c ∷ [] }

-- One function object under the bare name and, when there is a module, the qualified one.
unfoldable pub register_autotuner_as_function : String → AutotunerDecl → Engine → Engine
unfolding qualified_name signature next_handle add_closure register_autotuner
register_autotuner_as_function module_name decl engine =
    let qname = qualified_name module_name decl.name in
    let handle = next_handle engine in
    let sig : String → BuiltinSignature =
      λ name. signature name true decl.input_params decl.output_params in
    let bare = register_autotuner (sig decl.name) handle engine.functions in
    record (add_closure (autotuner_function qname) engine) {
      functions =
          if str_eq module_name "" then bare else register_autotuner (sig qname) handle bare;
    }

inline_info : RoutineDecl → ℕ → String → RoutineInfo
unfolding signature
inline_info decl handle name = record {
  name = name;
  library_path = "<inline>";
  function = handle;
  signature = signature name true decl.input_params decl.output_params;
}

unfoldable pub register_inline_routine : String → RoutineDecl → Engine → Engine
unfolding qualified_name inline_info next_handle add_closure register_routine
register_inline_routine module_name decl engine =
    let qname = qualified_name module_name decl.name in
    let handle = next_handle engine in
    let info = inline_info decl handle in
    let bare = register_routine (info decl.name) engine.functions in
    record (add_closure (inline_routine qname) engine) {
      functions = if str_eq module_name "" then bare else register_routine (info qname) bare;
    }
