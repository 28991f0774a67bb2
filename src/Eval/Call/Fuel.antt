-- ===== src/Eval/Call/Fuel.antt =====
-- Calls of functions on more fuel.
use falcon_lib.Base.{ℕ, String, Option, none, some, List, [], ◌∷◌}
use falcon_lib.Syntax.{Expr, CallArg, ParamSpec}
use falcon_lib.Eval.{Native, Eval, Runner}
use falcon_lib.Eval.Call.{
  Bindings, bind_chosen, bind_required, bind_optional, bind_all_required, bind_all_optional,
  bind_arguments, eval_call,
}
use falcon_lib.Eval.Fuel.{Refines-same, Refines, RunnerRefines, refine_rules}

module _ (run run' : Runner) (more : RunnerRefines run run') (call_args : List CallArg) where
  Refines-bind_chosen :
      (name : String) (chosen : Option (ℕ × Expr)) (missing : Eval Bindings) (b : Bindings)
      → Refines
          (bind_chosen run call_args name chosen missing b)
          (bind_chosen run' call_args name chosen missing b)
  unfolding bind_chosen
  Refines-bind_chosen name none missing b = Refines-same missing
  Refines-bind_chosen name (some (i, e)) missing b = search (refine_rules, more.evaluate)

  Refines-bind_required :
      (spec : ParamSpec) (b : Bindings)
      → Refines (bind_required run call_args spec b) (bind_required run' call_args spec b)
  unfolding bind_required
  Refines-bind_required spec b = search (Refines-bind_chosen, refine_rules)

  Refines-bind_optional :
      (spec : ParamSpec) (b : Bindings)
      → Refines (bind_optional run call_args spec b) (bind_optional run' call_args spec b)
  unfolding bind_optional
  Refines-bind_optional spec b = search (Refines-bind_chosen, refine_rules)

  Refines-bind_all_required :
      (specs : List ParamSpec) (b : Bindings)
      → Refines (bind_all_required run call_args specs b) (bind_all_required run' call_args specs b)
  unfolding bind_all_required
  Refines-bind_all_required [] b = search refine_rules
  Refines-bind_all_required (spec ∷ specs) b =
      search (refine_rules, Refines-bind_required, Refines-bind_all_required specs)

  Refines-bind_all_optional :
      (specs : List ParamSpec) (b : Bindings)
      → Refines (bind_all_optional run call_args specs b) (bind_all_optional run' call_args specs b)
  unfolding bind_all_optional
  Refines-bind_all_optional [] b = search refine_rules
  Refines-bind_all_optional (spec ∷ specs) b =
      search (refine_rules, Refines-bind_optional, Refines-bind_all_optional specs)

  Refines-bind_arguments :
      (specs : List ParamSpec)
      → Refines (bind_arguments run call_args specs) (bind_arguments run' call_args specs)
  unfolding bind_arguments
  Refines-bind_arguments specs =
      search (refine_rules, Refines-bind_all_required, Refines-bind_all_optional)

module _ (native : Native) (run run' : Runner) (more : RunnerRefines run run') where
  pub Refines-eval_call :
      (name : String) (call_args : List CallArg)
      → Refines (eval_call native run name call_args) (eval_call native run' name call_args)
  unfolding eval_call
  Refines-eval_call name call_args =
      search (refine_rules, Refines-bind_arguments run run' more) depth 12
