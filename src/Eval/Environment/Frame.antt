-- ===== src/Eval/Environment/Frame.antt =====
-- The caller's variables while the environment of a routine is built.
use falcon_lib.Base.{ℕ, String, Option, none, some, List, [], ◌∷◌}
use falcon_lib.Base.Maps.{lookup}
use falcon_lib.Syntax.{struct, TypeDescriptor, Expr, VarDecl, ParamDecl, RoutineDecl, StructDecl}
use falcon_lib.Value.{RuntimeValue, ParameterMap}
use falcon_lib.Eval.{Runner}
use falcon_lib.Eval.Environment.{
  bind_evaluated, bind_field_default, bind_field, bind_fields, bind_default_input, bind_inputs,
  output_field, output_fields, fill_output, struct_output, default_output, init_output,
  init_outputs, routine_env,
}
use falcon_lib.Eval.Frame.{
  KeepsVars, KeepsVars-option, KeepsVars-bind, KeepsVars-pure, KeepsVars-deref, RunnerKeepsVars,
  frame_rules,
}

module _ (run : Runner) (frame : RunnerKeepsVars run) where
  KeepsVars-bind_evaluated :
      (name : String) (e : Expr) (env : ParameterMap) → KeepsVars (bind_evaluated run name e env)
  unfolding bind_evaluated
  KeepsVars-bind_evaluated name e env = search frame_rules

  KeepsVars-bind_field_default :
      (f : VarDecl) (env : ParameterMap) → KeepsVars (bind_field_default run f env)
  unfolding bind_field_default
  KeepsVars-bind_field_default f env =
      KeepsVars-option f.initializer _ _ (λ e. KeepsVars-bind_evaluated f.name e env)
        (search frame_rules)

  KeepsVars-bind_field :
      (receiver : ℕ) (f : VarDecl) (env : ParameterMap) → KeepsVars (bind_field run receiver f env)
  unfolding bind_field
  KeepsVars-bind_field receiver f env = KeepsVars-bind _ _ (KeepsVars-deref receiver) λ this.
      KeepsVars-option (lookup f.name this.fields) _ _ (λ v. KeepsVars-pure _)
        (KeepsVars-bind_field_default f env)

  KeepsVars-bind_fields :
      (receiver : ℕ) (fs : List VarDecl) (env : ParameterMap)
      → KeepsVars (bind_fields run receiver fs env)
  unfolding bind_fields
  KeepsVars-bind_fields receiver [] env = search frame_rules
  KeepsVars-bind_fields receiver (f ∷ fs) env =
      search (frame_rules, KeepsVars-bind_field, KeepsVars-bind_fields receiver fs)

  KeepsVars-bind_default_input :
      (name : String) (p : ParamDecl) (env : ParameterMap)
      → KeepsVars (bind_default_input run name p env)
  unfolding bind_default_input
  KeepsVars-bind_default_input name p env =
      KeepsVars-option p.default_value _ _ (λ e. KeepsVars-bind_evaluated p.name e env)
        (search frame_rules)

  KeepsVars-bind_inputs :
      (name : String) (ps : List ParamDecl) (vs : List RuntimeValue) (env : ParameterMap)
      → KeepsVars (bind_inputs run name ps vs env)
  unfolding bind_inputs
  KeepsVars-bind_inputs name [] vs env = search frame_rules
  KeepsVars-bind_inputs name (p ∷ ps) (v ∷ vs) env = KeepsVars-bind_inputs name ps vs _
  KeepsVars-bind_inputs name (p ∷ ps) [] env =
      search (frame_rules, KeepsVars-bind_default_input, KeepsVars-bind_inputs name ps [])

  KeepsVars-output_field :
      (fresh : ℕ) (f : VarDecl) (env : ParameterMap) → KeepsVars (output_field run fresh f env)
  unfolding output_field
  KeepsVars-output_field fresh f env =
      KeepsVars-option f.initializer _ _ (λ e. search frame_rules) (search frame_rules)

  KeepsVars-output_fields :
      (fresh : ℕ) (fs : List VarDecl) (env : ParameterMap)
      → KeepsVars (output_fields run fresh fs env)
  unfolding output_fields
  KeepsVars-output_fields fresh [] env = search frame_rules
  KeepsVars-output_fields fresh (f ∷ fs) env =
      search (frame_rules, KeepsVars-output_field, KeepsVars-output_fields fresh fs)

  KeepsVars-fill_output :
      (fresh : ℕ) (decl : Option StructDecl) (env : ParameterMap)
      → KeepsVars (fill_output run fresh decl env)
  unfolding fill_output
  KeepsVars-fill_output fresh none env = KeepsVars-pure env
  KeepsVars-fill_output fresh (some d) env = KeepsVars-output_fields fresh d.fields env

  KeepsVars-struct_output :
      (name type_name : String) (env : ParameterMap)
      → KeepsVars (struct_output run name type_name env)
  unfolding struct_output
  KeepsVars-struct_output name type_name env = search (frame_rules, KeepsVars-fill_output) depth 10

  KeepsVars-default_output :
      (p : ParamDecl) (env : ParameterMap) → KeepsVars (default_output run p env)
  unfolding default_output
  KeepsVars-default_output p env =
      KeepsVars-option p.default_value _ _ (λ e. KeepsVars-bind_evaluated p.name e env)
        (KeepsVars-pure env)

  KeepsVars-init_output :
      (p : ParamDecl) (td : TypeDescriptor) (env : ParameterMap)
      → KeepsVars (init_output run p td env)
  unfolding init_output
  KeepsVars-init_output p (struct n ts) env = KeepsVars-struct_output p.name n env
  KeepsVars-init_output p _ env = KeepsVars-default_output p env

  KeepsVars-init_outputs :
      (ps : List ParamDecl) (env : ParameterMap) → KeepsVars (init_outputs run ps env)
  unfolding init_outputs
  KeepsVars-init_outputs [] env = search frame_rules
  KeepsVars-init_outputs (p ∷ ps) env =
      search (frame_rules, KeepsVars-init_output, KeepsVars-init_outputs ps)

  pub KeepsVars-routine_env :
      (receiver : ℕ) (decl : StructDecl) (routine : RoutineDecl) (vs : List RuntimeValue)
      → KeepsVars (routine_env run receiver decl routine vs)
  unfolding routine_env
  KeepsVars-routine_env receiver decl routine vs =
      search (frame_rules, KeepsVars-bind_fields, KeepsVars-bind_inputs, KeepsVars-init_outputs)
