-- ===== src/Engine/Run/Calls.antt =====
-- The lookups of autotuners, and the calls of a loaded autotuner through the function registry.
use falcon_lib.Base.{
  ℕ, suc, ◌+◌, ◌-◌, String, Bool, true, false, ◌≡◌, refl, sym, ap, ◌∙◌, ◌||◌, Option, none, some,
  List, [], ◌∷◌, ◌++◌, get_elem?, length, eq_refl, str_eq, arith, ltb, if◌then◌else◌, Bool-cases,
  inl, inr,
}
use falcon_lib.Base.Maps.{Map, in_order, lookup, is_some, lookup-insert, contains-eq-is_some}
use falcon_lib.Syntax.{AutotunerDecl, BuiltinSignature}
use falcon_lib.Base.Text.{◌⊹◌}
use falcon_lib.Value.{ParameterMap, Heap}
use falcon_lib.Registry.Functions.{FunctionRegistry, find_function, register_autotuner}
use falcon_lib.Eval.{Native}
use falcon_lib.Engine.{
  autotuner_function, Engine, qualified_name, get_autotuner, has_autotuner, first_bare, any_bare,
  or_bare, next_handle, add_closure, register_autotuner_as_function, signature,
}
use falcon_lib.Engine.Load.Registering.{load_autotuner, replace}
use falcon_lib.Engine.Run.{
  Call, call_autotuner, call_closure, call_found, call_handle, engine_native, linked, interpret,
  run_routine, run_function, run_loaded, run_found, world_with,
}

any_bare-first_bare :
    {V : Type 0} (name : String) (m : Map V) → any_bare name m ≡ is_some (first_bare name m)
unfolding any_bare first_bare
any_bare-first_bare name [] = refl
any_bare-first_bare name ((k, v) ∷ m) = ground (arith, any_bare-first_bare name m)

is_some-or_bare : {V : Type 0} (a b : Option V) → is_some (or_bare a b) ≡ (is_some a || is_some b)
unfolding or_bare
is_some-or_bare none b = refl
is_some-or_bare (some v) b = refl

-- `has_autotuner` and `get_autotuner` agree: the one says yes exactly when the other finds a
-- declaration, by the qualified name or by the name without its module.
pub has_autotuner-get_autotuner :
    (engine : Engine) (name : String)
    → has_autotuner engine name ≡ is_some (get_autotuner engine name)
unfolding has_autotuner get_autotuner
has_autotuner-get_autotuner engine name =
    rw
      (
        is_some-or_bare (lookup name engine.loaded_autotuners)
            (first_bare name (in_order engine.loaded_autotuners)),
        contains-eq-is_some name engine.loaded_autotuners,
        any_bare-first_bare name (in_order engine.loaded_autotuners),
      )
      refl

get_elem?-append_last :
    {A : Type 0} (xs : List A) (x : A) → get_elem? (xs ++ x ∷ []) (length xs) ≡ some x
get_elem?-append_last [] x = refl
get_elem?-append_last (y ∷ xs) x = get_elem?-append_last xs x

-- The autotuner is the value of its closure's name, and the closure that of its two names.
record IsCallable (module_name : String) (decl : AutotunerDecl) (engine after : Engine)
    : Type 0 where
  declared : lookup (qualified_name module_name decl.name) after.loaded_autotuners ≡ some decl
  bare : find_function after.functions decl.name ≡ some (next_handle engine)
  qualified :
      find_function after.functions (qualified_name module_name decl.name)
      ≡ some (next_handle engine)
  first : after.first_handle ≡ engine.first_handle
  closure :
      get_elem? after.closures (length engine.closures)
      ≡ some (autotuner_function (qualified_name module_name decl.name))

find_function-register :
    (r : FunctionRegistry) (decl : AutotunerDecl) (name asked : String) (h : ℕ)
    → find_function
        (register_autotuner (signature name true decl.input_params decl.output_params) h r)
        asked
      ≡ (if str_eq name asked then some h else find_function r asked)
unfolding find_function register_autotuner signature
find_function-register r decl name asked h = lookup-insert name asked h r.functions

-- The registry after both registrations.
register_both : Bool → FunctionRegistry → AutotunerDecl → String → ℕ → FunctionRegistry
register_both no_module r decl qname h =
    let sig : String → BuiltinSignature =
      λ name. signature name true decl.input_params decl.output_params in
    let bare = register_autotuner (sig decl.name) h r in
    if no_module then bare else register_autotuner (sig qname) h bare

find_function-register_bare :
    (no_module : Bool) (r : FunctionRegistry) (decl : AutotunerDecl) (qname : String) (h : ℕ)
    → find_function (register_both no_module r decl qname h) decl.name ≡ some h
unfolding register_both
find_function-register_bare true r decl qname h =
    find_function-register r decl decl.name decl.name h ∙ ground (arith, eq_refl decl.name)
find_function-register_bare false r decl qname h =
    find_function-register _ decl qname decl.name h
    ∙ rw (find_function-register r decl decl.name decl.name h) (ground (arith, eq_refl decl.name))

find_function-register_qualified :
    (module_name : String) (r : FunctionRegistry) (decl : AutotunerDecl) (h : ℕ)
    → find_function
        (register_both (str_eq module_name "") r decl (qualified_name module_name decl.name) h)
        (qualified_name module_name decl.name)
      ≡ some h
unfolding register_both qualified_name
find_function-register_qualified module_name r decl h = elim (Bool-cases (str_eq module_name "")) [
  | inl empty ↦ rw empty (find_function-register_bare true r decl decl.name h)
  | inr named ↦
      let qname = module_name ⊹ "::" ⊹ decl.name in
      rw named (find_function-register _ decl qname qname h ∙ ground (arith, eq_refl qname))
]

load_autotuner-IsCallable :
    (module_name : String) (decl : AutotunerDecl) (engine : Engine)
    → IsCallable module_name decl engine (load_autotuner module_name decl engine)
unfolding load_autotuner register_autotuner_as_function add_closure replace register_both
load_autotuner-IsCallable module_name decl engine =
    let qname = qualified_name module_name decl.name in
    record {
      declared = lookup-insert qname qname decl _ ∙ ground (arith, eq_refl qname);
      bare =
          find_function-register_bare (str_eq module_name "") engine.functions decl qname
            (next_handle engine);
      qualified =
          find_function-register_qualified module_name engine.functions decl (next_handle engine);
      first = refl;
      closure = get_elem?-append_last engine.closures (autotuner_function qname);
    }

ltb_add : (f n : ℕ) → ltb (f + n) f ≡ false
ltb_add f n = ground arith

add_sub : (f n : ℕ) → f + n - f ≡ n
add_sub f n = omega arith

-- The call of a handle of the engine's whose closure is the autotuner's.
run_function-IsCallable :
    (foreign : ℕ → Call) (rounds fuel : ℕ) (native : Native) (module_name : String)
    (decl : AutotunerDecl) (engine after : Engine) (name : String) (inputs : ParameterMap)
    (heap : Heap)
    → IsCallable module_name decl engine after
    → find_function after.functions name ≡ some (next_handle engine)
    → run_routine foreign after rounds native (suc fuel) name inputs heap
      ≡ interpret
          (engine_native foreign after rounds native fuel)
          fuel
          rounds
          decl
          inputs
          (world_with foreign after rounds heap)
unfolding run_routine run_function engine_native linked call_handle call_found call_closure
    call_autotuner next_handle
run_function-IsCallable foreign rounds fuel native module_name decl engine after name inputs heap c
      found =
    let n = length engine.closures in
    let at : find_function after.functions name ≡ some (after.first_handle + n) =
      found ∙ ap (λ first. some (first + n)) (sym c.first) in
    rw (at, ltb_add after.first_handle n, add_sub after.first_handle n, c.closure, c.declared) refl

-- An autotuner that is loaded can be run by its qualified name, and called as a function by its bare
-- and by its qualified name, whatever was registered under these names before: each time the
-- interpreter runs the declaration that was loaded, with the engine's own functions.
pub load_autotuner_runs :
    (foreign : ℕ → Call) (rounds fuel : ℕ) (native : Native) (module_name : String)
    (decl : AutotunerDecl) (engine : Engine) (inputs : ParameterMap) (heap : Heap)
    → let after = load_autotuner module_name decl engine in
      let qname = qualified_name module_name decl.name in
      let result =
        interpret
          (engine_native foreign after rounds native fuel)
          fuel
          rounds
          decl
          inputs
          (world_with foreign after rounds heap) in
      (run_loaded foreign after rounds native fuel qname inputs heap ≡ result)
      × (run_routine foreign after rounds native (suc fuel) decl.name inputs heap ≡ result)
      × (run_routine foreign after rounds native (suc fuel) qname inputs heap ≡ result)
unfolding run_loaded run_found get_autotuner or_bare
load_autotuner_runs foreign rounds fuel native module_name decl engine inputs heap =
    let c = load_autotuner-IsCallable module_name decl engine in
    let after = load_autotuner module_name decl engine in
    (
      rw c.declared refl,
      run_function-IsCallable foreign rounds fuel native module_name decl engine after decl.name
          inputs heap c c.bare,
      run_function-IsCallable foreign rounds fuel native module_name decl engine after
          (qualified_name module_name decl.name) inputs heap c c.qualified,
    )
