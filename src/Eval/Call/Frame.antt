-- ===== src/Eval/Call/Frame.antt =====
-- The caller's variables during a call.
use falcon_lib.Base.{ℕ, String, Option, none, some, List, [], ◌∷◌}
use falcon_lib.Syntax.{Expr, CallArg, ParamSpec}
use falcon_lib.Eval.{Native, Eval, Runner}
use falcon_lib.Eval.Call.{
  Bindings, bind_chosen, bind_required, bind_optional, bind_all_required, bind_all_optional,
  bind_arguments, eval_call,
}
use falcon_lib.Eval.Frame.{KeepsVars, RunnerKeepsVars, frame_rules, KeepsVars-pack_outputs}

module _ (run : Runner) (frame : RunnerKeepsVars run) (call_args : List CallArg) where
  KeepsVars-bind_chosen :
      (name : String) (chosen : Option (ℕ × Expr)) (missing : Eval Bindings) (b : Bindings)
      → KeepsVars missing
      → KeepsVars (bind_chosen run call_args name chosen missing b)
  unfolding bind_chosen
  KeepsVars-bind_chosen name none missing b h = h
  KeepsVars-bind_chosen name (some (i, e)) missing b h = search (frame_rules, frame.evaluate)

  KeepsVars-bind_required :
      (spec : ParamSpec) (b : Bindings) → KeepsVars (bind_required run call_args spec b)
  unfolding bind_required
  KeepsVars-bind_required spec b = search (KeepsVars-bind_chosen, frame_rules)

  KeepsVars-bind_optional :
      (spec : ParamSpec) (b : Bindings) → KeepsVars (bind_optional run call_args spec b)
  unfolding bind_optional
  KeepsVars-bind_optional spec b = search (KeepsVars-bind_chosen, frame_rules)

  KeepsVars-bind_all_required :
      (specs : List ParamSpec) (b : Bindings) → KeepsVars (bind_all_required run call_args specs b)
  unfolding bind_all_required
  KeepsVars-bind_all_required [] b = search frame_rules
  KeepsVars-bind_all_required (spec ∷ specs) b =
      search (frame_rules, KeepsVars-bind_required, KeepsVars-bind_all_required specs)

  KeepsVars-bind_all_optional :
      (specs : List ParamSpec) (b : Bindings) → KeepsVars (bind_all_optional run call_args specs b)
  unfolding bind_all_optional
  KeepsVars-bind_all_optional [] b = search frame_rules
  KeepsVars-bind_all_optional (spec ∷ specs) b =
      search (frame_rules, KeepsVars-bind_optional, KeepsVars-bind_all_optional specs)

  KeepsVars-bind_arguments :
      (specs : List ParamSpec) → KeepsVars (bind_arguments run call_args specs)
  unfolding bind_arguments
  KeepsVars-bind_arguments specs =
      search (frame_rules, KeepsVars-bind_all_required, KeepsVars-bind_all_optional)

module _ (native : Native) (run : Runner) (frame : RunnerKeepsVars run) where
  pub KeepsVars-eval_call :
      (name : String) (call_args : List CallArg) → KeepsVars (eval_call native run name call_args)
  unfolding eval_call
  KeepsVars-eval_call name call_args =
      search (frame_rules, KeepsVars-bind_arguments run frame, KeepsVars-pack_outputs) depth 12
