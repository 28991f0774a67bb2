-- ===== src/Eval/Method/Frame.antt =====
-- The caller's variables during a method call.
use falcon_lib.Base.{ℕ, String, Option, none, some, List, [], ◌∷◌}
use falcon_lib.Syntax.{TypeDescriptor, struct, Expr, variable, VarDecl, StructDecl}
use falcon_lib.Value
use falcon_lib.Value.{RuntimeValue}
use falcon_lib.Value.Memory.{set_field}
use falcon_lib.Eval.{Native, Runner}
use falcon_lib.Eval.Routine.Frame.{KeepsVars-exec_struct_routine}
use falcon_lib.Eval.Method.{
  call_through_name, injected_args, instantiate, default_field, field_value, init_receiver,
  static_call, instance_call, legacy_call, call_on, dynamic_call, eval_method_call,
}
use falcon_lib.Eval.Frame.{
  KeepsVars, KeepsVars-option, KeepsVars-bind, KeepsVars-modify_heap, KeepsVars-pure,
  RunnerKeepsVars, frame_rules, KeepsVars-pack_outputs, KeepsVars-evaluate_list,
}

KeepsVars-instantiate :
    (decl : StructDecl) (ts : List TypeDescriptor) → KeepsVars (instantiate decl ts)
unfolding instantiate
KeepsVars-instantiate decl [] = search frame_rules
KeepsVars-instantiate decl (t ∷ ts) = search frame_rules

module _ (native : Native) (run : Runner) (frame : RunnerKeepsVars run) where
  KeepsVars-default_field : (td : TypeDescriptor) → KeepsVars (default_field native run td)
  unfolding default_field
  KeepsVars-default_field (struct n ts) = search frame_rules
  KeepsVars-default_field _ = KeepsVars-pure _

  KeepsVars-field_value : (f : VarDecl) → KeepsVars (field_value native run f)
  unfolding field_value
  KeepsVars-field_value f =
      KeepsVars-option f.initializer _ _ (frame.evaluate none) (KeepsVars-default_field f.type)

  KeepsVars-init_receiver : (a : ℕ) (fs : List VarDecl) → KeepsVars (init_receiver native run a fs)
  unfolding init_receiver
  KeepsVars-init_receiver a [] = KeepsVars-pure _
  KeepsVars-init_receiver a (f ∷ fs) = KeepsVars-bind _ _ (KeepsVars-field_value f) λ v.
      KeepsVars-bind _ _ (KeepsVars-modify_heap (set_field a f.name v))
        λ _. KeepsVars-init_receiver a fs

  ruleset call_rules = (frame_rules, KeepsVars-init_receiver, KeepsVars-pack_outputs)

  KeepsVars-static_call :
      (template : StructDecl) (ts : List TypeDescriptor) (method : String) (es : List Expr)
      → KeepsVars (static_call native run template ts method es)
  unfolding static_call
  KeepsVars-static_call template ts method es =
      search
        (
          call_rules,
          KeepsVars-instantiate,
          KeepsVars-evaluate_list run frame,
          KeepsVars-exec_struct_routine native run frame,
        )
        depth 16

  KeepsVars-instance_call :
      (a : ℕ) (method : String) (es : List Expr) → KeepsVars (instance_call native run a method es)
  unfolding instance_call
  KeepsVars-instance_call a method es =
      search
        (
          call_rules,
          KeepsVars-evaluate_list run frame,
          KeepsVars-exec_struct_routine native run frame,
        )
        depth 16

  KeepsVars-legacy_call :
      (object : RuntimeValue) (method : String) (es : List Expr)
      → KeepsVars (legacy_call native run object method es)
  unfolding legacy_call
  KeepsVars-legacy_call object method es =
      search (call_rules, KeepsVars-evaluate_list run frame) depth 16

  KeepsVars-call_on :
      (object : RuntimeValue) (method : String) (es : List Expr)
      → KeepsVars (call_on native run object method es)
  unfolding call_on
  KeepsVars-call_on (Value.struct none) method es = search frame_rules
  KeepsVars-call_on (Value.struct (some a)) method es = KeepsVars-instance_call a method es
  KeepsVars-call_on object method es = KeepsVars-legacy_call object method es

  KeepsVars-dynamic_call :
      (object : Expr) (method : String) (es : List Expr)
      → KeepsVars (dynamic_call native run object method es)
  unfolding dynamic_call
  KeepsVars-dynamic_call object method es =
      search (frame_rules, frame.evaluate, KeepsVars-call_on) depth 8

  KeepsVars-call_through_name :
      (decl : Option StructDecl) (inferred : Option TypeDescriptor) (name method : String)
      (es : List Expr)
      → KeepsVars (call_through_name native run decl inferred name method es)
  unfolding call_through_name
  KeepsVars-call_through_name none inferred name method es =
      KeepsVars-dynamic_call (variable name) method es
  KeepsVars-call_through_name (some decl) inferred name method es =
      KeepsVars-static_call decl (injected_args inferred) method es

  pub KeepsVars-eval_method_call :
      (inferred : Option TypeDescriptor) (object : Expr) (method : String) (es : List Expr)
      → KeepsVars (eval_method_call native run inferred object method es)
  unfolding eval_method_call
  KeepsVars-eval_method_call inferred (variable name) method es =
      search (frame_rules, KeepsVars-call_through_name)
  KeepsVars-eval_method_call inferred object method es = KeepsVars-dynamic_call object method es
