-- ===== src/Interpreter/Fuel.antt =====
-- A run of an autotuner on more fuel and more rounds.
use falcon_lib.Base.{
  ℕ, zero, suc, ◌≤◌, ◌≡◌, ◌≢◌, refl, arith, String, Bool, true, false, Option, none, some, List, [],
  ◌∷◌,
}
use falcon_lib.Base.Maps.{lookup, contains}
use falcon_lib.Errors.{err, timeout, evaluation, unknown_state, output_not_set}
use falcon_lib.Syntax.{Expr, Stmt, ParamDecl, StateDecl, AutotunerDecl}
use falcon_lib.Value.{RuntimeValue, ParameterMap}
use falcon_lib.Eval.{
  State, Native, Runner, Eval, ControlFlow, no_change, to_state, to_end, throw, gets, require,
  set_variable,
}
use falcon_lib.Eval.Fuel.{
  Refines, Refines-same, Refines-bind, Refines-option, Refines-in_env, RunnerRefines, refine_rules,
  Refines-evaluate_list,
}
use falcon_lib.Exec.Fuel.{Refines-execute, Refines-execute_block}
use falcon_lib.Machine.{runner}
use falcon_lib.Machine.Fuel.{runner-refines}
use falcon_lib.Interpreter.{
  initialize_variables, set_input, set_input_parameters, default_output, init_output, init_outputs,
  default_from, default_parameter, bind_parameters, enter_state, execute_state, find_state,
  after_state, run_states, extract_outputs, run_body, run_autotuner,
}

Refines-throw-timeout {ℓ} : {A : Type ℓ} (m : Eval A) → Refines (throw timeout) m
unfolding throw
Refines-throw-timeout m = record { at = λ s h. absurd (h refl) }

module _ (native : Native) (run run' : Runner) (more : RunnerRefines run run') where
  Refines-initialize_variables :
      (body : List Stmt)
      → Refines (initialize_variables native run body) (initialize_variables native run' body)
  unfolding initialize_variables
  Refines-initialize_variables [] = Refines-same _
  Refines-initialize_variables (s ∷ rest) =
      Refines-bind _ _ _ _ (Refines-execute native run run' more s)
        λ _. Refines-initialize_variables rest

  Refines-default_from :
      (state : String) (i : ℕ) (p : ParamDecl) (e : Option Expr)
      → Refines (default_from native run state i p e) (default_from native run' state i p e)
  unfolding default_from
  Refines-default_from state i p none = Refines-same _
  Refines-default_from state i p (some e) = search (refine_rules, more.evaluate)

  Refines-bind_parameters :
      (state : String) (i : ℕ) (ps : List ParamDecl) (vs : List RuntimeValue)
      → Refines
          (bind_parameters native run state i ps vs)
          (bind_parameters native run' state i ps vs)
  unfolding bind_parameters default_parameter
  Refines-bind_parameters state i [] vs = Refines-same _
  Refines-bind_parameters state i (p ∷ ps) (v ∷ vs) =
      Refines-bind _ _ _ _ (Refines-same (set_variable p.name v))
        λ _. Refines-bind_parameters state (suc i) ps vs
  Refines-bind_parameters state i (p ∷ ps) [] =
      Refines-bind _ _ _ _ (Refines-default_from state i p p.default_value)
        λ _. Refines-bind_parameters state (suc i) ps []

  Refines-execute_state :
      (st : StateDecl) (vs : List RuntimeValue)
      → Refines (execute_state native run st vs) (execute_state native run' st vs)
  unfolding execute_state enter_state
  Refines-execute_state st vs =
      search (refine_rules, Refines-bind_parameters, Refines-execute_block native run run' more)
        depth 8

  Refines-after_state :
      (st : StateDecl) (flow : ControlFlow)
      (next next' : String → List RuntimeValue → Eval (Unit {0}))
      → ((target : String) (vs : List RuntimeValue) → Refines (next target vs) (next' target vs))
      → Refines (after_state native run st flow next) (after_state native run' st flow next')
  unfolding after_state
  Refines-after_state st to_end next next' h = Refines-same _
  Refines-after_state st (to_state target vs) next next' h = h target vs
  Refines-after_state st no_change next next' h = Refines-same _

  Refines-run_states :
      (rounds rounds' : ℕ)
      → rounds ≤ rounds'
      → (a : AutotunerDecl) (current : String) (vs : List RuntimeValue)
      → Refines
          (run_states native run rounds a current vs)
          (run_states native run' rounds' a current vs)
  unfolding run_states
  Refines-run_states zero rounds' le a current vs = Refines-throw-timeout _
  Refines-run_states (suc rounds) zero le a current vs = absurd (omega (arith, le))
  Refines-run_states (suc rounds) (suc rounds') le a current vs =
      Refines-bind _ _ _ _
        (Refines-same (require (find_state a current) (evaluation (unknown_state current))))
        λ st. Refines-bind _ _ _ _ (Refines-execute_state st vs) λ flow.
          Refines-after_state st flow _ _ (Refines-run_states rounds rounds' (omega (arith, le)) a)

  Refines-set_input :
      (p : ParamDecl) (found : Option RuntimeValue)
      → Refines (set_input native run p found) (set_input native run' p found)
  unfolding set_input
  Refines-set_input p (some v) = Refines-same _
  Refines-set_input p none =
      Refines-option p.default_value _ _ _ _ (λ e. search (refine_rules, more.evaluate))
        (Refines-same _)

  Refines-set_input_parameters :
      (ps : List ParamDecl) (inputs : ParameterMap)
      → Refines
          (set_input_parameters native run ps inputs)
          (set_input_parameters native run' ps inputs)
  unfolding set_input_parameters
  Refines-set_input_parameters [] inputs = Refines-same _
  Refines-set_input_parameters (p ∷ ps) inputs =
      Refines-bind _ _ _ _ (Refines-set_input p (lookup p.name inputs))
        λ _. Refines-set_input_parameters ps inputs

  Refines-default_output :
      (p : ParamDecl) (e : Option Expr)
      → Refines (default_output native run p e) (default_output native run' p e)
  unfolding default_output
  Refines-default_output p none = Refines-same _
  Refines-default_output p (some e) = search (refine_rules, more.evaluate)

  Refines-init_output :
      (p : ParamDecl) (there : Bool)
      → Refines (init_output native run p there) (init_output native run' p there)
  unfolding init_output
  Refines-init_output p true = Refines-same _
  Refines-init_output p false = Refines-default_output p p.default_value

  Refines-init_outputs :
      (ps : List ParamDecl) → Refines (init_outputs native run ps) (init_outputs native run' ps)
  unfolding init_outputs
  Refines-init_outputs [] = Refines-same _
  Refines-init_outputs (p ∷ ps) = Refines-bind _ _ _ _ (Refines-same (gets (λ s. s.vars))) λ vars.
      Refines-bind _ _ _ _ (Refines-init_output p (contains p.name vars))
        λ _. Refines-init_outputs ps

  Refines-extract_outputs :
      (ps : List ParamDecl)
      → Refines (extract_outputs native run ps) (extract_outputs native run' ps)
  unfolding extract_outputs
  Refines-extract_outputs [] = Refines-same _
  Refines-extract_outputs (p ∷ ps) =
      Refines-bind _ _ _ _ (Refines-same (gets (λ s. s.vars))) λ vars.
        Refines-bind _ _ _ _
          (Refines-same (require (lookup p.name vars) (evaluation (output_not_set p.name))))
          λ v. Refines-bind _ _ _ _ (Refines-extract_outputs ps) λ vs. Refines-same _

  Refines-run_body :
      (rounds rounds' : ℕ)
      → rounds ≤ rounds'
      → (a : AutotunerDecl) (inputs : ParameterMap)
      → Refines (run_body native run rounds a inputs) (run_body native run' rounds' a inputs)
  unfolding run_body
  Refines-run_body rounds rounds' le a inputs =
      Refines-bind _ _ _ _ (Refines-initialize_variables a.autotuner_variables) λ _.
        Refines-bind _ _ _ _ (Refines-set_input_parameters a.input_params inputs) λ _.
          Refines-bind _ _ _ _ (Refines-init_outputs a.output_params) λ _.
            Refines-bind _ _ _ _ (Refines-evaluate_list run run' more a.entry_parameters) λ params.
              Refines-bind _ _ _ _ (Refines-run_states rounds rounds' le a a.entry_state params)
                λ _. Refines-extract_outputs a.output_params

-- A run that does not run out of fuel or rounds has the same result, and leaves the same state, with
-- any fuel and rounds that are at least as great: the bounds have no other effect.
pub run_autotuner-fuel :
    (native : Native) (fuel fuel' rounds rounds' : ℕ) (autotuner : AutotunerDecl)
    (inputs : ParameterMap) (s : State)
    → fuel ≤ fuel'
    → rounds ≤ rounds'
    → (run_autotuner native fuel rounds autotuner inputs s).0 ≢ err timeout
    → run_autotuner native fuel' rounds' autotuner inputs s
      ≡ run_autotuner native fuel rounds autotuner inputs s
unfolding run_autotuner
run_autotuner-fuel native fuel fuel' rounds rounds' a inputs s le le' ends =
    let more = runner-refines native fuel fuel' le in
    (Refines-bind _ _ _ _
        (Refines-in_env [] _ _ (
          Refines-run_body native (runner native fuel) (runner native fuel') more rounds rounds' le'
            a inputs))
        λ r. Refines-same _).at
      s ends
