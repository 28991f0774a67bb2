-- ===== src/Engine/Run/Outputs.antt =====
-- The outputs of an inline routine.
use falcon_lib.Base.{
  ℕ, String, true, ◌≡◌, refl, sym, ap, ◌∙◌, Option, some, List, [], ◌∷◌, map, eq_refl, arith,
}
use falcon_lib.Base.Maps.{lookup, insert, contains, contains-insert}
use falcon_lib.Errors.{ok}
use falcon_lib.Syntax.{ParamDecl, RoutineDecl}
use falcon_lib.Value.{RuntimeValue, FunctionResult, ParameterMap}
use falcon_lib.Eval.{World, State, Native, ControlFlow}
use falcon_lib.Machine.{runner}
use falcon_lib.Machine.Keys.{execute_block-HasVar}
use falcon_lib.Interpreter.Outputs.{AllSet, AllSet-map, lookup-HasVar}
use falcon_lib.Engine.Run.{
  set_outputs, output_value, collect_outputs, inline_body, inline_env, in_world, run_inline,
  bind_inputs,
}

contains-set_outputs :
    (k : String) (ps : List ParamDecl) (env : ParameterMap)
    → contains k env ≡ true
    → contains k (set_outputs ps env) ≡ true
unfolding set_outputs
contains-set_outputs k [] env h = h
contains-set_outputs k (p ∷ ps) env h =
    contains-set_outputs k ps (insert p.name (output_value p.type) env)
      (contains-insert p.name k (output_value p.type) env ∙ ground (arith, h))

set_outputs-AllSet :
    (ps : List ParamDecl) (env : ParameterMap) (w : World)
    → AllSet ps (record { vars = set_outputs ps env; world = w })
unfolding set_outputs
set_outputs-AllSet [] env w = tt
set_outputs-AllSet (p ∷ ps) env w =
    let next = insert p.name (output_value p.type) env in
    (
      contains-set_outputs p.name ps next (
          contains-insert p.name p.name (output_value p.type) env ∙ ground (arith, eq_refl p.name)),
      set_outputs-AllSet ps next w,
    )

-- What the environment has for the parameters.
abbrev pub values : List ParamDecl → ParameterMap → List (Option RuntimeValue)
values ps env = map (λ p. lookup p.name env) ps

-- Every output has a value, and these are the results.
record IsCollected (name : String) (ps : List ParamDecl) (s : State) : Type 0 where
  results : FunctionResult
  run_eq : collect_outputs name ps s ≡ (ok results, s)
  values_eq : map some results ≡ values ps s.vars

collect_outputs-IsCollected :
    (name : String) (ps : List ParamDecl) (s : State) → AllSet ps s → IsCollected name ps s
unfolding collect_outputs
collect_outputs-IsCollected name [] s h = record { results = []; run_eq = refl; values_eq = refl }
collect_outputs-IsCollected name (p ∷ ps) s h =
    let (v, e) = lookup-HasVar p.name s h.0 in
    let rest = collect_outputs-IsCollected name ps s h.1 in
    record {
      results = v ∷ rest.results;
      run_eq = rw e (rw rest.run_eq refl);
      values_eq = rw e (ap (λ vs. some v ∷ vs) rest.values_eq);
    }

-- An inline routine whose body ends returns the values that its outputs have there, one for each
-- output and in their order, whatever its inputs: the error "did not set output" never occurs, since
-- every output has a value from the start and none is taken away.
pub run_inline-outputs :
    (native : Native) (fuel : ℕ) (name : String) (decl : RoutineDecl) (inputs : ParameterMap)
    (w : World) (flow : ControlFlow) (last : State)
    → (runner native fuel).execute_block decl.body
        (record { vars = inline_env decl inputs; world = w })
      ≡ (ok flow, last)
    → (results : FunctionResult) × (run_inline native fuel name decl inputs w
        ≡ (ok results, last.world))
      × (map some results ≡ values decl.output_params last.vars)
unfolding run_inline inline_body in_world inline_env
run_inline-outputs native fuel name decl inputs w flow last e =
    let start : State = record { vars = inline_env decl inputs; world = w } in
    let set = set_outputs-AllSet decl.output_params (bind_inputs decl.input_params inputs []) w in
    let after =
      AllSet-map decl.output_params start ((runner native fuel).execute_block decl.body start).1
        (λ k h. execute_block-HasVar k native fuel decl.body start h) set in
    let c = collect_outputs-IsCollected name decl.output_params last (
      AllSet-map decl.output_params ((runner native fuel).execute_block decl.body start).1 last
        (λ k h. sym (ap (λ r. contains k r.1.vars) e) ∙ h) after) in
    (c.results, rw e (rw c.run_eq refl), c.values_eq)
