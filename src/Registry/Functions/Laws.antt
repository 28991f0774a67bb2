-- ===== src/Registry/Functions/Laws.antt =====
-- What the function registry holds after any registrations.
use falcon_lib.Base.{ℕ, String, true, ◌≡◌, Option, none, some, [], arith, eq_refl}
use mathlib.Core.Path.{subst}
use falcon_lib.Base.Maps.{
  Map, lookup, is_some, present_or, contains-insert, lookup-insert, lookup-emplace,
}
use falcon_lib.Syntax.{BuiltinSignature}
use falcon_lib.Errors.{ok}
use falcon_lib.Registry.Functions.{
  RoutineInfo, FunctionRegistry, add_function, with_signature, register_builtin, register_autotuner,
  register_routine, find_function, get_signature, has_function,
}

-- The registries that registrations build from the registry of a new interpreter.
pub data Registered : FunctionRegistry → Type 0 where
  created :
      (builtins : Map BuiltinSignature)
      → Registered
          (record { functions = []; signatures = []; routines = []; builtin_registry = builtins })
  with_builtin :
      (name : String) (f : ℕ) (r r' : FunctionRegistry)
      → Registered r
      → register_builtin name f r ≡ ok r'
      → Registered r'
  with_autotuner :
      (sig : BuiltinSignature) (f : ℕ) (r : FunctionRegistry)
      → Registered r
      → Registered (register_autotuner sig f r)
  with_routine :
      (info : RoutineInfo) (r : FunctionRegistry)
      → Registered r
      → Registered (register_routine info r)

HasSignature : FunctionRegistry → String → Type 0
HasSignature r name = has_function r name ≡ true → is_some (get_signature r name) ≡ true

add_function-HasSignature :
    (key name : String) (f : ℕ) (sig : BuiltinSignature) (r : FunctionRegistry)
    → HasSignature r name
    → HasSignature (add_function key f sig r) name
unfolding HasSignature has_function get_signature add_function
add_function-HasSignature key name f sig r keeps h = ground (
  arith,
  keeps,
  h,
  contains-insert key name f r.functions,
  lookup-emplace key name sig r.signatures,
)

with_signature-HasSignature :
    (found : Option BuiltinSignature) (key name : String) (f : ℕ) (r r' : FunctionRegistry)
    → with_signature found key f r ≡ ok r'
    → HasSignature r name
    → HasSignature r' name
unfolding with_signature
with_signature-HasSignature none key name f r r' e keeps = cc
with_signature-HasSignature (some sig) key name f r r' e keeps =
    let same : add_function key f sig r ≡ r' = cc in
    subst (λ s. HasSignature s name) same (add_function-HasSignature key name f sig r keeps)

Registered-HasSignature :
    (r : FunctionRegistry) → Registered r → (name : String) → HasSignature r name
unfolding register_autotuner register_routine HasSignature has_function register_builtin
    get_signature
Registered-HasSignature r (created builtins) name = λ h. cc
Registered-HasSignature r' (with_builtin key f r _ before e) name =
    with_signature-HasSignature (lookup key r.builtin_registry) key name f r r' e
      (Registered-HasSignature r before name)
Registered-HasSignature _ (with_autotuner sig f r before) name =
    add_function-HasSignature sig.qualified_name name f sig r
      (Registered-HasSignature r before name)
Registered-HasSignature _ (with_routine info r before) name =
    add_function-HasSignature info.name name info.function info.signature r
      (Registered-HasSignature r before name)

-- Every function of such a registry has a signature.
pub Registered-get_signature :
    (r : FunctionRegistry)
    → Registered r
    → (name : String) → has_function r name ≡ true
    → is_some (get_signature r name) ≡ true
unfolding HasSignature
Registered-get_signature r reg name h = Registered-HasSignature r reg name h

-- Registering an autotuner under a name that has a signature replaces the function, and leaves the
-- old signature: calls go to the new function with the old one's parameters.
pub register_autotuner_again :
    (sig old : BuiltinSignature) (f : ℕ) (r : FunctionRegistry)
    → get_signature r sig.qualified_name ≡ some old
    → (find_function (register_autotuner sig f r) sig.qualified_name ≡ some f)
      × (get_signature (register_autotuner sig f r) sig.qualified_name ≡ some old)
unfolding find_function get_signature register_autotuner add_function present_or
register_autotuner_again sig old f r e = (
  ground (
    arith,
    lookup-insert sig.qualified_name sig.qualified_name f r.functions,
    eq_refl sig.qualified_name,
  ),
  ground (
    arith,
    lookup-emplace sig.qualified_name sig.qualified_name sig r.signatures,
    eq_refl sig.qualified_name,
    e,
  ),
)
