-- ===== src/Eval/Method/Fuel.antt =====
-- Method calls on more fuel.
use falcon_lib.Base.{ℕ, String, Option, none, some, List, [], ◌∷◌}
use falcon_lib.Syntax.{TypeDescriptor, struct, Expr, variable, VarDecl, StructDecl}
use falcon_lib.Value
use falcon_lib.Value.{RuntimeValue}
use falcon_lib.Value.Memory.{set_field}
use falcon_lib.Eval.{Native, Runner, modify_heap}
use falcon_lib.Eval.Routine.Fuel.{Refines-exec_struct_routine}
use falcon_lib.Eval.Method.{
  call_through_name, injected_args, default_field, field_value, init_receiver, static_call,
  instance_call, legacy_call, call_on, dynamic_call, eval_method_call,
}
use falcon_lib.Eval.Fuel.{
  Refines-same, Refines, Refines-option, Refines-bind, RunnerRefines, refine_rules,
  Refines-evaluate_list,
}

module _ (native : Native) (run run' : Runner) (more : RunnerRefines run run') where
  Refines-default_field :
      (td : TypeDescriptor) → Refines (default_field native run td) (default_field native run' td)
  unfolding default_field
  Refines-default_field (struct n ts) = Refines-same _
  Refines-default_field _ = Refines-same _

  Refines-field_value :
      (f : VarDecl) → Refines (field_value native run f) (field_value native run' f)
  unfolding field_value
  Refines-field_value f =
      Refines-option f.initializer _ _ _ _ (more.evaluate none) (Refines-default_field f.type)

  Refines-init_receiver :
      (a : ℕ) (fs : List VarDecl)
      → Refines (init_receiver native run a fs) (init_receiver native run' a fs)
  unfolding init_receiver
  Refines-init_receiver a [] = Refines-same _
  Refines-init_receiver a (f ∷ fs) = Refines-bind _ _ _ _ (Refines-field_value f) λ v.
      Refines-bind _ _ _ _ (Refines-same (modify_heap (set_field a f.name v)))
        λ _. Refines-init_receiver a fs

  ruleset call_rules = (refine_rules, Refines-init_receiver)

  Refines-static_call :
      (template : StructDecl) (ts : List TypeDescriptor) (method : String) (es : List Expr)
      → Refines
          (static_call native run template ts method es)
          (static_call native run' template ts method es)
  unfolding static_call
  Refines-static_call template ts method es =
      search
        (
          call_rules,
          Refines-evaluate_list run run' more,
          Refines-exec_struct_routine native run run' more,
        )
        depth 16

  Refines-instance_call :
      (a : ℕ) (method : String) (es : List Expr)
      → Refines (instance_call native run a method es) (instance_call native run' a method es)
  unfolding instance_call
  Refines-instance_call a method es =
      search
        (
          call_rules,
          Refines-evaluate_list run run' more,
          Refines-exec_struct_routine native run run' more,
        )
        depth 16

  Refines-legacy_call :
      (object : RuntimeValue) (method : String) (es : List Expr)
      → Refines (legacy_call native run object method es) (legacy_call native run' object method es)
  unfolding legacy_call
  Refines-legacy_call object method es =
      search (call_rules, Refines-evaluate_list run run' more) depth 16

  Refines-call_on :
      (object : RuntimeValue) (method : String) (es : List Expr)
      → Refines (call_on native run object method es) (call_on native run' object method es)
  unfolding call_on
  Refines-call_on (Value.struct none) method es = Refines-same _
  Refines-call_on (Value.struct (some a)) method es = Refines-instance_call a method es
  Refines-call_on object method es = Refines-legacy_call object method es

  Refines-dynamic_call :
      (object : Expr) (method : String) (es : List Expr)
      → Refines
          (dynamic_call native run object method es)
          (dynamic_call native run' object method es)
  unfolding dynamic_call
  Refines-dynamic_call object method es =
      search (refine_rules, more.evaluate, Refines-call_on) depth 8

  Refines-call_through_name :
      (decl : Option StructDecl) (inferred : Option TypeDescriptor) (name method : String)
      (es : List Expr)
      → Refines
          (call_through_name native run decl inferred name method es)
          (call_through_name native run' decl inferred name method es)
  unfolding call_through_name
  Refines-call_through_name none inferred name method es =
      Refines-dynamic_call (variable name) method es
  Refines-call_through_name (some decl) inferred name method es =
      Refines-static_call decl (injected_args inferred) method es

  pub Refines-eval_method_call :
      (inferred : Option TypeDescriptor) (object : Expr) (method : String) (es : List Expr)
      → Refines
          (eval_method_call native run inferred object method es)
          (eval_method_call native run' inferred object method es)
  unfolding eval_method_call
  Refines-eval_method_call inferred (variable name) method es =
      search (refine_rules, Refines-call_through_name)
  Refines-eval_method_call inferred object method es = Refines-dynamic_call object method es
