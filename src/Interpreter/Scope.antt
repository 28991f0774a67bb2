-- ===== src/Interpreter/Scope.antt =====
-- The variables of a state and of a run.
use falcon_lib.Base.{
  ℕ, suc, String, true, ◌≡◌, sym, ap, ◌∙◌, Option, none, some, List, [], ◌∷◌, Bool-cases, inl, inr,
}
use falcon_lib.Base.Maps.{contains, contains-keep}
use falcon_lib.Errors.{Result, ok}
use falcon_lib.Syntax.{ParamDecl, StateDecl, AutotunerDecl, Expr}
use falcon_lib.Value.{RuntimeValue, ParameterMap, FunctionResult}
use falcon_lib.Eval.{State, Native, Runner, ControlFlow, pure, ◌>>=◌, ◌>>◌}
use falcon_lib.Eval.Frame.{
  RunnerKeepsVars, KeepsVars-throw, KeepsVars-pure, KeepsVars-bind, KeepsVars-in_env,
}
use falcon_lib.Eval.Keys.{
  HasVar, KeepsVar, KeepsVar-frame, KeepsVar-set_variable, KeepsVar-bind, KeepsVar-if, >>=-eq-ok,
}
use falcon_lib.Exec.{execute_block}
use falcon_lib.Exec.Keys.{KeepsVar-execute_block}
use falcon_lib.Machine.{runner}
use falcon_lib.Machine.Frame.{runner-RunnerKeepsVars}
use falcon_lib.Machine.Keys.{runner-BlocksKeepVar}
use falcon_lib.Interpreter.{
  erase_locals, erase_new, default_parameter, default_from, bind_parameters, enter_state,
  execute_state, run_body, run_autotuner,
}

module _ (k : String) (native : Native) (run : Runner) (frame : RunnerKeepsVars run) where
  KeepsVar-default_from :
      (state : String) (i : ℕ) (p : ParamDecl) (e : Option Expr)
      → KeepsVar k (default_from native run state i p e)
  unfolding default_from
  KeepsVar-default_from state i p none = KeepsVar-frame k _ (KeepsVars-throw _)
  KeepsVar-default_from state i p (some e) =
      KeepsVar-bind k _ _ (KeepsVar-frame k _ (frame.evaluate none e))
        (KeepsVar-set_variable k p.name)

  KeepsVar-bind_parameters :
      (state : String) (i : ℕ) (ps : List ParamDecl) (vs : List RuntimeValue)
      → KeepsVar k (bind_parameters native run state i ps vs)
  unfolding bind_parameters default_parameter
  KeepsVar-bind_parameters state i [] vs = KeepsVar-frame k _ (KeepsVars-pure tt)
  KeepsVar-bind_parameters state i (p ∷ ps) (v ∷ vs) =
      KeepsVar-bind k _ _ (KeepsVar-set_variable k p.name v)
        λ _. KeepsVar-bind_parameters state (suc i) ps vs
  KeepsVar-bind_parameters state i (p ∷ ps) [] =
      KeepsVar-bind k _ _ (KeepsVar-default_from state i p p.default_value)
        λ _. KeepsVar-bind_parameters state (suc i) ps []

  KeepsVar-enter_state :
      (st : StateDecl) (vs : List RuntimeValue) → KeepsVar k (enter_state native run st vs)
  unfolding enter_state
  KeepsVar-enter_state st vs =
      search (KeepsVar-if, KeepsVar-frame, KeepsVars-throw, KeepsVar-bind_parameters)

contains-erase_locals :
    (k : String) (globals vars : ParameterMap)
    → (contains k globals ≡ true → contains k vars ≡ true)
    → contains k (erase_locals globals vars) ≡ contains k globals
unfolding erase_locals
contains-erase_locals k globals vars h = elim (Bool-cases (contains k globals)) [
  | inl e ↦ rw contains-keep (rw e (h e))
  | inr e ↦ rw contains-keep (rw e)
]

module _ (native : Native) (fuel : ℕ) where
  body-HasVar :
      (k : String) (st : StateDecl) (vs : List RuntimeValue) (s : State)
      → HasVar k s
      → HasVar k
          (execute_block native
            (runner native fuel)
            st.body
            (enter_state native (runner native fuel) st vs s).1).1
  body-HasVar k st vs s h =
      (KeepsVar-execute_block native (runner native fuel) (runner-RunnerKeepsVars native fuel) k
          (runner-BlocksKeepVar k native fuel) st.body).at
        _
        ((KeepsVar-enter_state k native (runner native fuel) (runner-RunnerKeepsVars native fuel) st
            vs).at
          s h)

  -- A state that ends leaves exactly the variables that were there when it was entered: none is
  -- lost, and neither its parameters nor what it declared stays, unless the name was in use.
  pub execute_state-scope :
      (st : StateDecl) (vs : List RuntimeValue) (s s' : State) (flow : ControlFlow) (k : String)
      → execute_state native (runner native fuel) st vs s ≡ (ok flow, s')
      → contains k s'.vars ≡ contains k s.vars
  unfolding execute_state erase_new
  execute_state-scope st vs s s' flow k h =
      let run = runner native fuel in
      let finish = λ (fl : ControlFlow). erase_new s.vars >> pure fl in
      let (_, _, h₁) =
        >>=-eq-ok (enter_state native run st vs) (λ _. execute_block native run st.body >>= finish)
          s h in
      let (_, _, h₂) =
        >>=-eq-ok (execute_block native run st.body) finish (enter_state native run st vs s).1 h₁ in
      sym (ap (λ (r : Result ControlFlow × State). contains k r.1.vars) h₂)
      ∙ contains-erase_locals k s.vars _ (body-HasVar k st vs s)

  -- A run of an autotuner gives its caller back the variables that it had, with their values,
  -- whether the run returns or throws.
  pub run_autotuner-vars :
      (rounds : ℕ) (autotuner : AutotunerDecl) (inputs : ParameterMap) (s : State)
      → (run_autotuner native fuel rounds autotuner inputs s).1.vars ≡ s.vars
  unfolding run_autotuner
  run_autotuner-vars rounds autotuner inputs =
      (KeepsVars-bind _ (λ (r : FunctionResult × ParameterMap). pure r.0)
        (KeepsVars-in_env [] (run_body native (runner native fuel) rounds autotuner inputs))
        (λ r. KeepsVars-pure r.0)).at
