-- ===== src/Interpreter/Outputs.antt =====
-- The outputs of a run.
use falcon_lib.Base.{
  ℕ, zero, suc, String, Bool, true, false, ◌≡◌, refl, sym, ap, ◌∙◌, Option, none, some, List, [],
  ◌∷◌, length, Option-cases, inl, inr, eq_refl,
}
use falcon_lib.Base.Maps.{lookup, contains, contains-insert, contains-eq-is_some}
use falcon_lib.Errors.{Result, ok, evaluation, unknown_state}
use falcon_lib.Syntax.{ParamDecl, StateDecl, AutotunerDecl, Expr}
use falcon_lib.Value.{RuntimeValue, FunctionResult, default_value}
use falcon_lib.Eval.{
  State, Native, Eval, Runner, ControlFlow, no_change, to_state, to_end, set_variable, pure, throw,
  evaluate_list, ◌>>=◌,
}
use falcon_lib.Eval.Frame.{RunnerKeepsVars, KeepsVars-pure, KeepsVars-gets, KeepsVars-evaluate_list}
use falcon_lib.Eval.Keys.{
  HasVar, KeepsVar, KeepsVar-frame, KeepsVar-set_variable, KeepsVar-bind, >>=-eq-ok, require-eq-ok,
}
use falcon_lib.Machine.{runner}
use falcon_lib.Machine.Frame.{runner-RunnerKeepsVars}
use falcon_lib.Interpreter.{
  default_output, init_output, init_outputs, find_state, execute_state, after_state, run_states,
  extract_outputs,
}
use falcon_lib.Interpreter.Scope.{execute_state-scope}

-- Every one of these parameters is a variable with a value.
abbrev pub AllSet : List ParamDecl → State → Type 0
AllSet [] s = Unit
AllSet (p ∷ ps) s = HasVar p.name s × AllSet ps s

pub AllSet-map :
    (ps : List ParamDecl) (s s' : State)
    → ((k : String) → HasVar k s → HasVar k s')
    → AllSet ps s
    → AllSet ps s'
AllSet-map [] s s' f h = tt
AllSet-map (p ∷ ps) s s' f h = (f p.name h.0, AllSet-map ps s s' f h.1)

pub lookup-HasVar :
    (k : String) (s : State) → HasVar k s → (v : RuntimeValue) × (lookup k s.vars ≡ some v)
lookup-HasVar k s h = elim (Option-cases (lookup k s.vars)) [
  | inl e ↦ cc (contains-eq-is_some k s.vars, h, e)
  | inr found ↦ found
]

-- The variable is there after a write, and after what keeps it.
HasVar-insert : (k : String) (v : RuntimeValue) (s : State) → HasVar k (set_variable k v s).1
unfolding set_variable
HasVar-insert k v s = rw (contains-insert, eq_refl)

final_HasVar :
    (k : String) {r r' : Result (Unit {0})} {s s' : State}
    → ◌≡◌ {A = Result (Unit {0}) × State} (r, s) (r', s')
    → HasVar k s
    → HasVar k s'
final_HasVar k h has = sym (ap (λ (r : Result (Unit {0}) × State). contains k r.1.vars) h) ∙ has

module _ (native : Native) (run : Runner) (frame : RunnerKeepsVars run) where
  default_output-HasVar :
      (p : ParamDecl) (init : Option Expr) (s s' : State)
      → default_output native run p init s ≡ (ok tt, s')
      → HasVar p.name s'
  unfolding default_output
  default_output-HasVar p none s s' h = final_HasVar p.name h (HasVar-insert p.name default_value s)
  default_output-HasVar p (some e) s s' h =
      let (v, _, h₁) = >>=-eq-ok (run.evaluate none e) (set_variable p.name) s h in
      final_HasVar p.name h₁ (HasVar-insert p.name v (run.evaluate none e s).1)

  init_output-HasVar :
      (p : ParamDecl) (known : Bool) (s s' : State)
      → contains p.name s.vars ≡ known
      → init_output native run p known s ≡ (ok tt, s')
      → HasVar p.name s'
  unfolding init_output
  init_output-HasVar p true s s' e h = final_HasVar p.name h e
  init_output-HasVar p false s s' e h = default_output-HasVar p p.default_value s s' h

  KeepsVar-default_output :
      (k : String) (p : ParamDecl) (init : Option Expr)
      → KeepsVar k (default_output native run p init)
  unfolding default_output
  KeepsVar-default_output k p none = KeepsVar-set_variable k p.name default_value
  KeepsVar-default_output k p (some e) =
      KeepsVar-bind k _ _ (KeepsVar-frame k _ (frame.evaluate none e))
        (KeepsVar-set_variable k p.name)

  KeepsVar-init_output :
      (k : String) (p : ParamDecl) (known : Bool) → KeepsVar k (init_output native run p known)
  unfolding init_output
  KeepsVar-init_output k p true = KeepsVar-frame k _ (KeepsVars-pure tt)
  KeepsVar-init_output k p false = KeepsVar-default_output k p p.default_value

  KeepsVar-init_outputs :
      (k : String) (ps : List ParamDecl) → KeepsVar k (init_outputs native run ps)
  unfolding init_outputs
  KeepsVar-init_outputs k [] = KeepsVar-frame k _ (KeepsVars-pure tt)
  KeepsVar-init_outputs k (p ∷ ps) =
      KeepsVar-bind k _ _ (KeepsVar-frame k _ (KeepsVars-gets (λ s. s.vars))) λ vars.
        KeepsVar-bind k _ _ (KeepsVar-init_output k p (contains p.name vars))
          λ _. KeepsVar-init_outputs k ps

  init_outputs-AllSet :
      (ps : List ParamDecl) (s s' : State)
      → init_outputs native run ps s ≡ (ok tt, s')
      → AllSet ps s'
  unfolding init_outputs
  init_outputs-AllSet [] s s' h = tt
  init_outputs-AllSet (p ∷ ps) s s' h =
      let first = init_output native run p (contains p.name s.vars) in
      let (_, e, h₁) = >>=-eq-ok first (λ _. init_outputs native run ps) s h in
      let set =
        init_output-HasVar p (contains p.name s.vars) s (first s).1 refl
          (λ i. (e i, (first s).1)) in
      (
        final_HasVar p.name h₁ ((KeepsVar-init_outputs p.name ps).at (first s).1 set),
        init_outputs-AllSet ps (first s).1 s' h₁,
      )

module _ (native : Native) (fuel : ℕ) where
  after_state-HasVar :
      (k : String) (state : StateDecl) (flow : ControlFlow)
      (next : String → List RuntimeValue → Eval (Unit {0})) (s s' : State)
      → ((target : String) (vs : List RuntimeValue) → next target vs s ≡ (ok tt, s') → HasVar k s')
      → HasVar k s
      → after_state native (runner native fuel) state flow next s ≡ (ok tt, s')
      → HasVar k s'
  unfolding after_state throw pure
  after_state-HasVar k state no_change next s s' f has h = cc
  after_state-HasVar k state (to_state target vs) next s s' f has h = f target vs h
  after_state-HasVar k state to_end next s s' f has h = final_HasVar k h has

  run_states-HasVar :
      (k : String) (rounds : ℕ) (autotuner : AutotunerDecl) (current : String)
      (vs : List RuntimeValue) (s s' : State)
      → HasVar k s
      → run_states native (runner native fuel) rounds autotuner current vs s ≡ (ok tt, s')
      → HasVar k s'
  unfolding run_states
  run_states-HasVar k zero autotuner current vs s s' has h = cc
  run_states-HasVar k (suc rounds) autotuner current vs s s' has h =
      let run = runner native fuel in
      let go = λ (state : StateDecl) (flow : ControlFlow).
        after_state native run state flow (run_states native run rounds autotuner) in
      let (state, found, h₁) =
        require-eq-ok (find_state autotuner current) (evaluation (unknown_state current))
          (λ state. execute_state native run state vs >>= go state) s h in
      let ran = execute_state native run state vs s in
      let (flow, e, h₂) = >>=-eq-ok (execute_state native run state vs) (go state) s h₁ in
      let scope = execute_state-scope native fuel state vs s ran.1 flow k (λ i. (e i, ran.1)) in
      after_state-HasVar k state flow (run_states native run rounds autotuner) ran.1 s'
        (λ target params. run_states-HasVar k rounds autotuner target params ran.1 s' (scope ∙ has))
        (scope ∙ has) h₂

  extract_outputs-ok :
      (ps : List ParamDecl) (s : State)
      → AllSet ps s
      → (outputs : FunctionResult) × (extract_outputs native (runner native fuel) ps s
          ≡ (ok outputs, s))
        × (length outputs ≡ length ps)
  unfolding extract_outputs
  extract_outputs-ok [] s h = ([], refl, refl)
  extract_outputs-ok (p ∷ ps) s h =
      let (v, e) = lookup-HasVar p.name s h.0 in
      let (vs, done, n) = extract_outputs-ok ps s h.1 in (v ∷ vs, rw e (rw done), ap suc n)

  -- When the outputs are initialized, the entry arguments are evaluated and the state machine
  -- reaches its end, the results are there, one for each output: the error "Output parameter not
  -- set" never occurs.
  pub outputs_are_set :
      (rounds : ℕ) (autotuner : AutotunerDecl) (params : List RuntimeValue) (s s₁ s₂ s₃ : State)
      → init_outputs native (runner native fuel) autotuner.output_params s ≡ (ok tt, s₁)
      → evaluate_list (runner native fuel) autotuner.entry_parameters s₁ ≡ (ok params, s₂)
      → run_states native (runner native fuel) rounds autotuner autotuner.entry_state params s₂
        ≡ (ok tt, s₃)
      → (outputs : FunctionResult) × (extract_outputs native
            (runner native fuel)
            autotuner.output_params
            s₃
          ≡ (ok outputs, s₃))
        × (length outputs ≡ length autotuner.output_params)
  outputs_are_set rounds autotuner params s s₁ s₂ s₃ h₁ h₂ h₃ =
      let run = runner native fuel in
      let frame = runner-RunnerKeepsVars native fuel in
      let set₁ = init_outputs-AllSet native run frame autotuner.output_params s s₁ h₁ in
      let same =
        sym (ap (λ (r : Result (List RuntimeValue) × State). r.1.vars) h₂)
        ∙ (KeepsVars-evaluate_list run frame autotuner.entry_parameters).at s₁ in
      let set₂ = AllSet-map autotuner.output_params s₁ s₂ (λ k h. rw same h) set₁ in
      let set₃ =
        AllSet-map autotuner.output_params s₂ s₃
          (λ k h. run_states-HasVar k rounds autotuner autotuner.entry_state params s₂ s₃ h h₃)
          set₂ in
      extract_outputs-ok autotuner.output_params s₃ set₃
