-- ===== src/Registry/Functions.antt =====
-- dsl/src/FunctionRegistry.cpp: callable functions with their signatures, and the routines among
-- them. The three registrations of the source; a builtin takes its signature from the parser's
-- registry `BuiltinFunctionRegistry` (dsl/compiler/include/falcon-atc/AST.hpp).
pub mod Laws
use falcon_lib.Base.{ℕ, String, Bool, Option, none, some, []}
use falcon_lib.Base.Maps.{Map, lookup, insert, emplace, contains}
use falcon_lib.Syntax.{BuiltinSignature}
use falcon_lib.Errors.{Result, ok, err, exception, no_signature}

pub record RoutineInfo : Type 0 where
  pub name : String
  pub library_path : String
  pub function : ℕ
  pub signature : BuiltinSignature

pub record FunctionRegistry : Type 0 where
  pub functions : Map ℕ
  pub signatures : Map BuiltinSignature
  pub routines : Map RoutineInfo
  pub builtin_registry : Map BuiltinSignature

-- `functions_[name] = func; signatures_.emplace(name, sig)`
add_function : String → ℕ → BuiltinSignature → FunctionRegistry → FunctionRegistry
unfolding insert emplace
add_function name func sig r = record r {
  functions = insert name func r.functions;
  signatures = emplace name sig r.signatures;
}

with_signature : Option BuiltinSignature → String → ℕ → FunctionRegistry → Result FunctionRegistry
unfolding add_function
with_signature none name func r = err (exception (no_signature name))
with_signature (some sig) name func r = ok (add_function name func sig r)

unfoldable pub register_builtin : String → ℕ → FunctionRegistry → Result FunctionRegistry
unfolding with_signature lookup
register_builtin name func r = with_signature (lookup name r.builtin_registry) name func r

unfoldable pub register_autotuner : BuiltinSignature → ℕ → FunctionRegistry → FunctionRegistry
unfolding add_function
register_autotuner sig func r = add_function sig.qualified_name func sig r

unfoldable pub register_routine : RoutineInfo → FunctionRegistry → FunctionRegistry
unfolding add_function emplace
register_routine info r =
    let added = add_function info.name info.function info.signature r in
    record added { routines = emplace info.name info r.routines }

unfoldable pub find_function : FunctionRegistry → String → Option ℕ
unfolding lookup
find_function r name = lookup name r.functions

unfoldable pub get_signature : FunctionRegistry → String → Option BuiltinSignature
unfolding lookup
get_signature r name = lookup name r.signatures

unfoldable pub get_routine_info : FunctionRegistry → String → Option RoutineInfo
unfolding lookup
get_routine_info r name = lookup name r.routines

unfoldable pub has_function : FunctionRegistry → String → Bool
unfolding contains
has_function r name = contains name r.functions
