-- ===== src/Eval/Call.antt =====
-- dsl/src/ExprEvaluator.cpp, `eval_call`: a call of a registered function. Each parameter of the
-- signature takes the argument of its name, or else the first argument with no name that no
-- parameter has taken; required parameters come first.
pub mod Frame
pub mod Fuel
pub mod Resolve
use falcon_lib.Base.{
  ℕ, zero, suc, ◌+◌, String, Bool, true, false, not, ◌&&◌, Option, none, some, List, [], ◌∷◌,
  length, replicate, set, str_eq, if◌then◌else◌,
}
use falcon_lib.Base.Text.{after_colons}
use falcon_lib.Base.Maps.{insert}
use falcon_lib.Errors.{evaluation, unknown_function, no_signature, missing_argument}
use falcon_lib.Syntax.{Expr, CallArg, ParamSpec, BuiltinSignature}
use falcon_lib.Value.{RuntimeValue, nil, ParameterMap}
use falcon_lib.Registry.Functions.{FunctionRegistry, find_function, get_signature}
use falcon_lib.Eval.{
  Native, Eval, Runner, pure, throw, gets, on_world, require, pack_outputs, ◌>>=◌,
}
use falcon_lib.Eval.Simple.{strip_module_prefix}

abbrev is_name : Option String → String → Bool
is_name none name = false
is_name (some n) name = str_eq n name

abbrev is_unnamed : Option String → Bool
is_unnamed none = true
is_unnamed (some n) = false

-- The first argument of this name, whether or not it was taken; `i` is the index of the list's head.
unfoldable pub find_named : String → ℕ → List CallArg → Option (ℕ × Expr)
find_named name i [] = none
find_named name i (a ∷ rest) =
    let later = find_named name (suc i) rest in
    if is_name a.name name then some (i, a.value) else later

-- The first argument with no name that was not taken.
unfoldable pub find_positional : ℕ → List CallArg → List Bool → Option (ℕ × Expr)
find_positional i [] taken = none
find_positional i (a ∷ rest) [] = none
find_positional i (a ∷ rest) (t ∷ taken) =
    let later = find_positional (suc i) rest taken in
    if is_unnamed a.name && not t then some (i, a.value) else later

either : Option (ℕ × Expr) → Option (ℕ × Expr) → Option (ℕ × Expr)
either none b = b
either (some a) b = some a

unfoldable pub choose_arg : String → List CallArg → List Bool → Option (ℕ × Expr)
unfolding find_named find_positional either
choose_arg name call_args taken =
    either (find_named name 0 call_args) (find_positional 0 call_args taken)

-- The parameters that are bound, and which arguments were taken.
pub record Bindings : Type 0 where
  pub params : ParameterMap
  pub assigned : List Bool

unfoldable pub bind_value : String → ℕ → RuntimeValue → Bindings → Bindings
unfolding insert
bind_value name i v b = record { params = insert name v b.params; assigned = set b.assigned i true }

module _ (run : Runner) (call_args : List CallArg) where
  bind_chosen : String → Option (ℕ × Expr) → Eval Bindings → Bindings → Eval Bindings
  unfolding bind_value ◌>>=◌
  bind_chosen name none missing b = missing
  bind_chosen name (some (i, e)) missing b = do
    v ← run.evaluate none e
    pure (bind_value name i v b)

  bind_required : ParamSpec → Bindings → Eval Bindings
  unfolding bind_chosen choose_arg
  bind_required spec b =
      bind_chosen spec.name (choose_arg spec.name call_args b.assigned)
        (throw (evaluation (missing_argument spec.name))) b

  -- An optional parameter with no argument is nil.
  bind_optional : ParamSpec → Bindings → Eval Bindings
  unfolding bind_chosen choose_arg insert
  bind_optional spec b =
      bind_chosen spec.name (choose_arg spec.name call_args b.assigned)
        (pure (record b { params = insert spec.name nil b.params })) b

  bind_all_required : List ParamSpec → Bindings → Eval Bindings
  unfolding bind_required ◌>>=◌
  bind_all_required [] b = pure b
  bind_all_required (spec ∷ specs) b =
      (if spec.required then bind_required spec b else pure b) >>= bind_all_required specs

  bind_all_optional : List ParamSpec → Bindings → Eval Bindings
  unfolding bind_optional ◌>>=◌
  bind_all_optional [] b = pure b
  bind_all_optional (spec ∷ specs) b =
      (if spec.required then pure b else bind_optional spec b) >>= bind_all_optional specs

  unfoldable pub bind_arguments : List ParamSpec → Eval Bindings
  unfolding bind_all_required bind_all_optional ◌>>=◌
  bind_arguments specs =
      bind_all_required specs
        (record { params = []; assigned = replicate (length call_args) false })
      >>= bind_all_optional specs

resolved_bare : Option String → FunctionRegistry → Option (ℕ × String)
unfolding find_function
resolved_bare none r = none
resolved_bare (some bare) r = elim (find_function r bare) [ none ↦ none | some f ↦ some (f, bare) ]

-- The function of this name, or of the name behind its module prefix, with the name it was found by.
unfoldable pub resolve_function : FunctionRegistry → String → Option (ℕ × String)
unfolding find_function resolved_bare after_colons
resolve_function r name = elim (find_function r name) [
  | none ↦ resolved_bare (after_colons name) r
  | some f ↦ some (f, name)
]

module _ (native : Native) (run : Runner) where
  unfoldable pub eval_call : String → List CallArg → Eval RuntimeValue
  unfolding ◌>>=◌ require resolve_function get_signature bind_arguments pack_outputs
  eval_call name call_args = do
    functions ← gets (λ s. s.functions)
    (f, resolved) ← require (resolve_function functions name) (evaluation (unknown_function name))
    sig ← require (get_signature functions resolved) (evaluation (no_signature name))
    b ← bind_arguments run call_args sig.parameters
    outputs ← on_world (native.call_function f b.params)
    pack_outputs outputs
