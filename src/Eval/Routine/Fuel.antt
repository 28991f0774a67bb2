-- ===== src/Eval/Routine/Fuel.antt =====
-- Routines of structs on more fuel.
use falcon_lib.Base.{ℕ, List, [], ◌∷◌}
use falcon_lib.Syntax.{Stmt, RoutineDecl, StructDecl}
use falcon_lib.Value.{RuntimeValue}
use falcon_lib.Eval.{Native, Runner}
use falcon_lib.Eval.Environment.Fuel.{Refines-routine_env}
use falcon_lib.Eval.Routine.{exec_fal_routine, exec_struct_routine, exec_with_body}
use falcon_lib.Eval.Fuel.{Refines-same, Refines, RunnerRefines, refine_rules}

module _ (native : Native) (run run' : Runner) (more : RunnerRefines run run') where
  Refines-exec_with_body :
      (body : List Stmt) (receiver : ℕ) (decl : StructDecl) (routine : RoutineDecl)
      (vs : List RuntimeValue)
      → Refines
          (exec_with_body native run body receiver decl routine vs)
          (exec_with_body native run' body receiver decl routine vs)
  unfolding exec_with_body exec_fal_routine
  Refines-exec_with_body [] receiver decl routine vs = Refines-same _
  Refines-exec_with_body (s ∷ rest) receiver decl routine vs =
      search (refine_rules, more.execute_block, Refines-routine_env run run' more) depth 8

  pub Refines-exec_struct_routine :
      (receiver : ℕ) (decl : StructDecl) (routine : RoutineDecl) (vs : List RuntimeValue)
      → Refines
          (exec_struct_routine native run receiver decl routine vs)
          (exec_struct_routine native run' receiver decl routine vs)
  unfolding exec_struct_routine
  Refines-exec_struct_routine receiver decl routine vs =
      Refines-exec_with_body routine.body receiver decl routine vs
