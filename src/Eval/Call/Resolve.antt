-- ===== src/Eval/Call/Resolve.antt =====
-- Which function a call finds.
use falcon_lib.Base.{ℕ, String, true, ◌≡◌, Option, none, some, arith}
use falcon_lib.Base.Text.{after_colons}
use falcon_lib.Base.Maps.{is_some, contains-eq-is_some}
use falcon_lib.Registry.Functions.{FunctionRegistry, find_function, has_function, get_signature}
use falcon_lib.Registry.Functions.Laws.{Registered, Registered-get_signature}
use falcon_lib.Eval.Call.{resolve_function, resolved_bare}

find_function-has_function :
    (r : FunctionRegistry) (name : String) (f : ℕ)
    → find_function r name ≡ some f
    → has_function r name ≡ true
unfolding find_function has_function
find_function-has_function r name f e = ground (arith, contains-eq-is_some name r.functions, e)

resolved_bare-has_function :
    (r : FunctionRegistry) (bare : Option String) (f : ℕ) (resolved : String)
    → resolved_bare bare r ≡ some (f, resolved)
    → has_function r resolved ≡ true
unfolding resolved_bare
resolved_bare-has_function r none f resolved e = cc
resolved_bare-has_function r (some bare) f resolved e =
    ground (arith, e, find_function-has_function r bare f)

-- In a registry that registrations built, a function that a call finds, by its name or by the name
-- behind the module prefix, has a signature under the name it was found by: the error "no
-- signature" of a call does not happen.
pub resolved_signature :
    (r : FunctionRegistry)
    → Registered r
    → (name : String) (f : ℕ) (resolved : String) → resolve_function r name ≡ some (f, resolved)
    → is_some (get_signature r resolved) ≡ true
unfolding resolve_function
resolved_signature r reg name f resolved e = Registered-get_signature r reg resolved (
    ground (
      arith,
      e,
      find_function-has_function r name f,
      resolved_bare-has_function r (after_colons name) f resolved,
    ))
