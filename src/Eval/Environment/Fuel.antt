-- ===== src/Eval/Environment/Fuel.antt =====
-- The environment of a routine on more fuel.
use falcon_lib.Base.{ℕ, String, Option, none, some, List, [], ◌∷◌}
use falcon_lib.Base.Maps.{lookup}
use falcon_lib.Syntax.{struct, TypeDescriptor, Expr, VarDecl, ParamDecl, RoutineDecl, StructDecl}
use falcon_lib.Value.{RuntimeValue, ParameterMap}
use falcon_lib.Eval.{Runner, deref}
use falcon_lib.Eval.Environment.{
  bind_evaluated, bind_field_default, bind_field, bind_fields, bind_default_input, bind_inputs,
  output_field, output_fields, fill_output, struct_output, default_output, init_output,
  init_outputs, routine_env,
}
use falcon_lib.Eval.Fuel.{
  Refines-same, Refines, Refines-option, Refines-bind, RunnerRefines, refine_rules,
}

module _ (run run' : Runner) (more : RunnerRefines run run') where
  Refines-bind_evaluated :
      (name : String) (e : Expr) (env : ParameterMap)
      → Refines (bind_evaluated run name e env) (bind_evaluated run' name e env)
  unfolding bind_evaluated
  Refines-bind_evaluated name e env = search (refine_rules, more.evaluate)

  Refines-bind_field_default :
      (f : VarDecl) (env : ParameterMap)
      → Refines (bind_field_default run f env) (bind_field_default run' f env)
  unfolding bind_field_default
  Refines-bind_field_default f env =
      Refines-option f.initializer _ _ _ _ (λ e. Refines-bind_evaluated f.name e env)
        (search refine_rules)

  Refines-bind_field :
      (receiver : ℕ) (f : VarDecl) (env : ParameterMap)
      → Refines (bind_field run receiver f env) (bind_field run' receiver f env)
  unfolding bind_field
  Refines-bind_field receiver f env = Refines-bind _ _ _ _ (Refines-same (deref receiver)) λ this.
      Refines-option (lookup f.name this.fields) _ _ _ _ (λ v. Refines-same _)
        (Refines-bind_field_default f env)

  Refines-bind_fields :
      (receiver : ℕ) (fs : List VarDecl) (env : ParameterMap)
      → Refines (bind_fields run receiver fs env) (bind_fields run' receiver fs env)
  unfolding bind_fields
  Refines-bind_fields receiver [] env = search refine_rules
  Refines-bind_fields receiver (f ∷ fs) env =
      search (refine_rules, Refines-bind_field, Refines-bind_fields receiver fs)

  Refines-bind_default_input :
      (name : String) (p : ParamDecl) (env : ParameterMap)
      → Refines (bind_default_input run name p env) (bind_default_input run' name p env)
  unfolding bind_default_input
  Refines-bind_default_input name p env =
      Refines-option p.default_value _ _ _ _ (λ e. Refines-bind_evaluated p.name e env)
        (search refine_rules)

  Refines-bind_inputs :
      (name : String) (ps : List ParamDecl) (vs : List RuntimeValue) (env : ParameterMap)
      → Refines (bind_inputs run name ps vs env) (bind_inputs run' name ps vs env)
  unfolding bind_inputs
  Refines-bind_inputs name [] vs env = search refine_rules
  Refines-bind_inputs name (p ∷ ps) (v ∷ vs) env = Refines-bind_inputs name ps vs _
  Refines-bind_inputs name (p ∷ ps) [] env =
      search (refine_rules, Refines-bind_default_input, Refines-bind_inputs name ps [])

  Refines-output_field :
      (fresh : ℕ) (f : VarDecl) (env : ParameterMap)
      → Refines (output_field run fresh f env) (output_field run' fresh f env)
  unfolding output_field
  Refines-output_field fresh f env =
      Refines-option f.initializer _ _ _ _ (λ e. search (refine_rules, more.evaluate))
        (Refines-same _)

  Refines-output_fields :
      (fresh : ℕ) (fs : List VarDecl) (env : ParameterMap)
      → Refines (output_fields run fresh fs env) (output_fields run' fresh fs env)
  unfolding output_fields
  Refines-output_fields fresh [] env = search refine_rules
  Refines-output_fields fresh (f ∷ fs) env =
      search (refine_rules, Refines-output_field, Refines-output_fields fresh fs)

  Refines-fill_output :
      (fresh : ℕ) (decl : Option StructDecl) (env : ParameterMap)
      → Refines (fill_output run fresh decl env) (fill_output run' fresh decl env)
  unfolding fill_output
  Refines-fill_output fresh none env = Refines-same _
  Refines-fill_output fresh (some d) env = Refines-output_fields fresh d.fields env

  Refines-struct_output :
      (name type_name : String) (env : ParameterMap)
      → Refines (struct_output run name type_name env) (struct_output run' name type_name env)
  unfolding struct_output
  Refines-struct_output name type_name env = search (refine_rules, Refines-fill_output) depth 10

  Refines-default_output :
      (p : ParamDecl) (env : ParameterMap)
      → Refines (default_output run p env) (default_output run' p env)
  unfolding default_output
  Refines-default_output p env =
      Refines-option p.default_value _ _ _ _ (λ e. Refines-bind_evaluated p.name e env)
        (Refines-same _)

  Refines-init_output :
      (p : ParamDecl) (td : TypeDescriptor) (env : ParameterMap)
      → Refines (init_output run p td env) (init_output run' p td env)
  unfolding init_output
  Refines-init_output p (struct n ts) env = Refines-struct_output p.name n env
  Refines-init_output p _ env = Refines-default_output p env

  Refines-init_outputs :
      (ps : List ParamDecl) (env : ParameterMap)
      → Refines (init_outputs run ps env) (init_outputs run' ps env)
  unfolding init_outputs
  Refines-init_outputs [] env = search refine_rules
  Refines-init_outputs (p ∷ ps) env =
      search (refine_rules, Refines-init_output, Refines-init_outputs ps)

  pub Refines-routine_env :
      (receiver : ℕ) (decl : StructDecl) (routine : RoutineDecl) (vs : List RuntimeValue)
      → Refines
          (routine_env run receiver decl routine vs)
          (routine_env run' receiver decl routine vs)
  unfolding routine_env
  Refines-routine_env receiver decl routine vs =
      search (refine_rules, Refines-bind_fields, Refines-bind_inputs, Refines-init_outputs)
