-- ===== src/Interpreter.antt =====
-- dsl/src/Interpreter.cpp: an autotuner is a state machine. Its variables, inputs and outputs are
-- the global variables of one run; the body of a state runs until a transition or the end, and
-- what it declared is erased.
pub mod Scope
pub mod Outputs
pub mod Fuel
pub mod Trace
use falcon_lib.Base.{
  ℕ, zero, suc, ◌+◌, ◌<◌, ◌==◌, String, Bool, true, false, ◌&&◌, Option, none, some, List, [], ◌∷◌,
  length, ltb, str_eq, if◌then◌else◌,
}
use falcon_lib.Base.Maps.{lookup, insert, contains, keep}
use falcon_lib.Errors.{
  Result, evaluation, timeout, missing_input, state_takes_no_parameters, too_many_parameters,
  missing_state_parameter, unknown_state, state_falls_through, output_not_set,
}
use falcon_lib.Syntax.{Expr, Stmt, ParamDecl, StateDecl, AutotunerDecl}
use falcon_lib.Value.{RuntimeValue, default_value, ParameterMap, FunctionResult}
use falcon_lib.Eval.{
  State, Native, Eval, Runner, ControlFlow, no_change, to_state, to_end, pure, throw, gets, in_env,
  set_variable, require, evaluate_list, ◌>>=◌, ◌>>◌,
}
use falcon_lib.Exec.{execute, execute_block}
use falcon_lib.Machine.{runner, eval_expr}

find_state_in : String → List StateDecl → Option StateDecl
find_state_in name [] = none
find_state_in name (st ∷ rest) = if str_eq st.name name then some st else find_state_in name rest

unfoldable pub find_state : AutotunerDecl → String → Option StateDecl
unfolding find_state_in
find_state autotuner name = find_state_in name autotuner.states

-- The state-local variables go: what was not there before the state ran.
unfoldable pub erase_locals : ParameterMap → ParameterMap → ParameterMap
unfolding keep contains
erase_locals globals vars = keep (λ name. contains name globals) vars

erase_new : ParameterMap → Eval (Unit {0})
unfolding erase_locals
erase_new globals s = (Result.ok tt, record s { vars = erase_locals globals s.vars })

module _ (native : Native) (run : Runner) where
  -- A statement of the list after the other; what a statement does to the control flow is dropped.
  unfoldable pub initialize_variables : List Stmt → Eval (Unit {0})
  unfolding ◌>>=◌ execute
  initialize_variables [] = pure tt
  initialize_variables (s ∷ rest) = do execute native run s; initialize_variables rest

  set_input : ParamDecl → Option RuntimeValue → Eval (Unit {0})
  unfolding ◌>>=◌ set_variable
  set_input p (some v) = set_variable p.name v
  set_input p none = elim p.default_value [
    | none ↦ throw (evaluation (missing_input p.name))
    | some e ↦ do v ← run.evaluate none e; set_variable p.name v
  ]

  unfoldable pub set_input_parameters : List ParamDecl → ParameterMap → Eval (Unit {0})
  unfolding ◌>>=◌ set_input lookup
  set_input_parameters [] inputs = pure tt
  set_input_parameters (p ∷ ps) inputs = do
    set_input p (lookup p.name inputs)
    set_input_parameters ps inputs

  default_output : ParamDecl → Option Expr → Eval (Unit {0})
  unfolding ◌>>=◌ set_variable
  default_output p none = set_variable p.name default_value
  default_output p (some e) = do v ← run.evaluate none e; set_variable p.name v

  init_output : ParamDecl → Bool → Eval (Unit {0})
  unfolding default_output
  init_output p true = pure tt
  init_output p false = default_output p p.default_value

  -- Outputs that the autotuner's variables have not set.
  unfoldable pub init_outputs : List ParamDecl → Eval (Unit {0})
  unfolding ◌>>=◌ init_output contains
  init_outputs [] = pure tt
  init_outputs (p ∷ ps) = do
    vars ← gets (λ s. s.vars)
    init_output p (contains p.name vars)
    init_outputs ps

  default_from : String → ℕ → ParamDecl → Option Expr → Eval (Unit {0})
  unfolding ◌>>=◌ set_variable
  default_from state i p none = throw (evaluation (missing_state_parameter state i p.name))
  default_from state i p (some e) = do v ← run.evaluate none e; set_variable p.name v

  default_parameter : String → ℕ → ParamDecl → Eval (Unit {0})
  unfolding default_from
  default_parameter state i p = default_from state i p p.default_value

  -- Parameter `i` and the later ones.
  bind_parameters : String → ℕ → List ParamDecl → List RuntimeValue → Eval (Unit {0})
  unfolding ◌>>=◌ set_variable default_parameter
  bind_parameters state i [] vs = pure tt
  bind_parameters state i (p ∷ ps) (v ∷ vs) = do
    set_variable p.name v
    bind_parameters state (suc i) ps vs
  bind_parameters state i (p ∷ ps) [] = do
    default_parameter state i p
    bind_parameters state (suc i) ps []

  unfoldable pub enter_state : StateDecl → List RuntimeValue → Eval (Unit {0})
  unfolding bind_parameters
  enter_state state input_params =
      let param_count = length state.input_parameters in
      let input_count = length input_params in
      if param_count == 0 && ltb 0 input_count
      then throw (evaluation (state_takes_no_parameters state.name input_count))
      else if ltb param_count input_count
      then throw (evaluation (too_many_parameters state.name param_count input_count))
      else bind_parameters state.name 0 state.input_parameters input_params

  -- The variables are erased only when the body ends; a throw leaves them to `run_autotuner`.
  unfoldable pub execute_state : StateDecl → List RuntimeValue → Eval ControlFlow
  unfolding ◌>>=◌ enter_state execute_block erase_new
  execute_state state input_params = do
    globals ← gets (λ s. s.vars)
    enter_state state input_params
    flow ← execute_block native run state.body
    erase_new globals
    pure flow

  -- A state has to end by a transition or by the end of the run.
  after_state :
      StateDecl → ControlFlow → (String → List RuntimeValue → Eval (Unit {0})) → Eval (Unit {0})
  after_state state to_end next = pure tt
  after_state state (to_state target params) next = next target params
  after_state state no_change next = throw (evaluation (state_falls_through state.name))

  -- The loop over the states, one unit of `rounds` for each state entered.
  unfoldable pub run_states : ℕ → AutotunerDecl → String → List RuntimeValue → Eval (Unit {0})
  unfolding ◌>>=◌ require find_state execute_state after_state
  run_states zero autotuner current state_params = throw timeout
  run_states (suc rounds) autotuner current state_params = do
    state ← require (find_state autotuner current) (evaluation (unknown_state current))
    flow ← execute_state state state_params
    after_state state flow (run_states rounds autotuner)

  unfoldable pub extract_outputs : List ParamDecl → Eval FunctionResult
  unfolding ◌>>=◌ require lookup
  extract_outputs [] = pure []
  extract_outputs (p ∷ ps) = do
    vars ← gets (λ s. s.vars)
    v ← require (lookup p.name vars) (evaluation (output_not_set p.name))
    vs ← extract_outputs ps
    pure (v ∷ vs)

  unfoldable pub run_body : ℕ → AutotunerDecl → ParameterMap → Eval FunctionResult
  unfolding ◌>>=◌ initialize_variables set_input_parameters init_outputs run_states extract_outputs
      evaluate_list
  run_body rounds autotuner inputs = do
    initialize_variables autotuner.autotuner_variables
    set_input_parameters autotuner.input_params inputs
    init_outputs autotuner.output_params
    params ← evaluate_list run autotuner.entry_parameters
    run_states rounds autotuner autotuner.entry_state params
    extract_outputs autotuner.output_params

-- `Interpreter::run`, with fuel for the evaluator and rounds for the state machine. The variables
-- of the caller are put back whatever happens.
unfoldable pub run_autotuner : Native → ℕ → ℕ → AutotunerDecl → ParameterMap → Eval FunctionResult
unfolding ◌>>=◌ run_body runner
run_autotuner native fuel rounds autotuner inputs = do
  (outputs, left) ← in_env [] (run_body native (runner native fuel) rounds autotuner inputs)
  pure outputs
