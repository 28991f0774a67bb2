-- ===== src/Interpreter/Trace.antt =====
-- The runs of the state machine as a relation: one state after another, until one ends the run.
use falcon_lib.Base.{ℕ, zero, suc, ◌≡◌, refl, String, some, List}
use falcon_lib.Errors.{ok, evaluation, unknown_state}
use falcon_lib.Syntax.{StateDecl, AutotunerDecl}
use falcon_lib.Value.{RuntimeValue}
use falcon_lib.Eval.{
  State, Native, Runner, ControlFlow, no_change, to_state, to_end, throw, pure, require, ◌>>=◌,
}
use falcon_lib.Eval.Keys.{>>=-eq-ok, require-eq-ok}
use falcon_lib.Interpreter.{find_state, execute_state, after_state, run_states}

-- From a state's name with its arguments, in `s`, to the end of the run in `s'`.
pub data Trace (native : Native) (run : Runner) (a : AutotunerDecl)
    : String → List RuntimeValue → State → State → Type 0 where
  last_state :
      (current : String) (vs : List RuntimeValue) (st : StateDecl) (s s' : State)
      → find_state a current ≡ some st
      → execute_state native run st vs s ≡ (ok to_end, s')
      → Trace native run a current vs s s'
  next_state :
      (current target : String) (vs ws : List RuntimeValue) (st : StateDecl) (s s₁ s' : State)
      → find_state a current ≡ some st
      → execute_state native run st vs s ≡ (ok (to_state target ws), s₁)
      → Trace native run a target ws s₁ s'
      → Trace native run a current vs s s'

-- The number of states that a trace enters.
pub entered :
    {native : Native} {run : Runner} {a : AutotunerDecl} {current : String} {vs : List RuntimeValue}
    {s s' : State}
    → Trace native run a current vs s s'
    → ℕ
entered (last_state current vs st s s' found ran) = 1
entered (next_state current target vs ws st s s₁ s' found ran rest) = suc (entered rest)

module _ (native : Native) (run : Runner) (a : AutotunerDecl) where
  after_state-Trace :
      (current : String) (vs : List RuntimeValue) (st : StateDecl) (flow : ControlFlow) (rounds : ℕ)
      (s s₁ s' : State)
      → find_state a current ≡ some st
      → execute_state native run st vs s ≡ (ok flow, s₁)
      → ((target : String) (ws : List RuntimeValue)
          → run_states native run rounds a target ws s₁ ≡ (ok tt, s')
          → Trace native run a target ws s₁ s')
      → after_state native run st flow (run_states native run rounds a) s₁ ≡ (ok tt, s')
      → Trace native run a current vs s s'
  unfolding after_state throw pure
  after_state-Trace current vs st no_change rounds s s₁ s' found ran later e = absurd cc
  after_state-Trace current vs st to_end rounds s s₁ s' found ran later e =
      let same : s₁ ≡ s' = cc in last_state current vs st s s' found (rw same at ran)
  after_state-Trace current vs st (to_state target ws) rounds s s₁ s' found ran later e =
      next_state current target vs ws st s s₁ s' found ran (later target ws e)

  -- A run of the loop that returns went through a trace of states: each is declared under the name
  -- that it was reached by, and ends by a transition to the next, the last by the end of the run.
  pub run_states-Trace :
      (rounds : ℕ) (current : String) (vs : List RuntimeValue) (s s' : State)
      → run_states native run rounds a current vs s ≡ (ok tt, s')
      → Trace native run a current vs s s'
  unfolding run_states throw
  run_states-Trace zero current vs s s' e = absurd cc
  run_states-Trace (suc rounds) current vs s s' e =
      let go = λ (st : StateDecl) (flow : ControlFlow).
        after_state native run st flow (run_states native run rounds a) in
      let (st, found, e₁) =
        require-eq-ok (find_state a current) (evaluation (unknown_state current))
          (λ st. execute_state native run st vs >>= go st) s e in
      let (flow, r, e₂) = >>=-eq-ok (execute_state native run st vs) (go st) s e₁ in
      let ran = execute_state native run st vs s in
      after_state-Trace current vs st flow rounds s ran.1 s' found (λ i. (r i, ran.1))
        (λ target ws. run_states-Trace rounds target ws ran.1 s') e₂

  -- A trace of states is run to its end by as many rounds as it enters states.
  pub Trace-run_states :
      (current : String) (vs : List RuntimeValue) (s s' : State)
      (trace : Trace native run a current vs s s')
      → run_states native run (entered trace) a current vs s ≡ (ok tt, s')
  unfolding run_states entered after_state require pure ◌>>=◌
  Trace-run_states current vs s s' (last_state _ _ st _ _ found ran) = rw found (rw ran refl)
  Trace-run_states current vs s s' (next_state _ target _ ws st _ s₁ _ found ran rest) =
      rw found (rw ran (Trace-run_states target ws s₁ s' rest))
