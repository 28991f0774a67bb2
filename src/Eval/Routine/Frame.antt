-- ===== src/Eval/Routine/Frame.antt =====
-- The caller's variables during a routine of a struct.
use falcon_lib.Base.{ℕ, String, List, [], ◌∷◌}
use falcon_lib.Syntax.{Stmt, ParamDecl, RoutineDecl, StructDecl}
use falcon_lib.Value.{RuntimeValue, ParameterMap}
use falcon_lib.Eval.{Native, Runner}
use falcon_lib.Eval.Environment.Frame.{KeepsVars-routine_env}
use falcon_lib.Eval.Routine.{
  call_native, exec_ffi_routine, collect_outputs, finish_routine, exec_fal_routine,
  exec_struct_routine, exec_with_body,
}
use falcon_lib.Eval.Frame.{KeepsVars, RunnerKeepsVars, frame_rules}

KeepsVars-collect_outputs :
    (name : String) (ps : List ParamDecl) (env : ParameterMap)
    → KeepsVars (collect_outputs name ps env)
unfolding collect_outputs
KeepsVars-collect_outputs name [] env = search frame_rules
KeepsVars-collect_outputs name (p ∷ ps) env =
    search (frame_rules, KeepsVars-collect_outputs name ps)

KeepsVars-finish_routine :
    (receiver : ℕ) (decl : StructDecl) (routine : RoutineDecl) (env : ParameterMap)
    → KeepsVars (finish_routine receiver decl routine env)
unfolding finish_routine
KeepsVars-finish_routine receiver decl routine env =
    search (frame_rules, KeepsVars-collect_outputs) depth 8

module _ (native : Native) where
  KeepsVars-call_native :
      (method receiver : ℕ) (routine : RoutineDecl) (vs : List RuntimeValue)
      → KeepsVars (call_native native method receiver routine vs)
  unfolding call_native
  KeepsVars-call_native method receiver routine vs = search frame_rules

  KeepsVars-exec_ffi_routine :
      (receiver : ℕ) (decl : StructDecl) (routine : RoutineDecl) (vs : List RuntimeValue)
      → KeepsVars (exec_ffi_routine native receiver decl routine vs)
  unfolding exec_ffi_routine
  KeepsVars-exec_ffi_routine receiver decl routine vs =
      search (frame_rules, KeepsVars-call_native) depth 8

module _ (native : Native) (run : Runner) (frame : RunnerKeepsVars run) where
  KeepsVars-exec_with_body :
      (body : List Stmt) (receiver : ℕ) (decl : StructDecl) (routine : RoutineDecl)
      (vs : List RuntimeValue)
      → KeepsVars (exec_with_body native run body receiver decl routine vs)
  unfolding exec_with_body exec_fal_routine
  KeepsVars-exec_with_body [] receiver decl routine vs =
      KeepsVars-exec_ffi_routine native receiver decl routine vs
  KeepsVars-exec_with_body (s ∷ rest) receiver decl routine vs =
      search (frame_rules, KeepsVars-routine_env run frame, KeepsVars-finish_routine) depth 8

  pub KeepsVars-exec_struct_routine :
      (receiver : ℕ) (decl : StructDecl) (routine : RoutineDecl) (vs : List RuntimeValue)
      → KeepsVars (exec_struct_routine native run receiver decl routine vs)
  unfolding exec_struct_routine
  KeepsVars-exec_struct_routine receiver decl routine vs =
      KeepsVars-exec_with_body routine.body receiver decl routine vs
