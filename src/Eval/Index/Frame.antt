-- ===== src/Eval/Index/Frame.antt =====
-- The variables during an indexing.
use falcon_lib.Base.{ℕ, String, Option, none, some, List, [], ◌∷◌}
use falcon_lib.Base.Int.{ℤ, pos, negsuc}
use falcon_lib.Syntax.{Expr, StructDecl, find_routine}
use falcon_lib.Value.{RuntimeValue, int, struct, array, ArrayValue}
use falcon_lib.Eval.{Native, Runner}
use falcon_lib.Eval.Routine.Frame.{KeepsVars-exec_struct_routine}
use falcon_lib.Eval.Index.{
  element_at, index_array, index_natively, index_by_routine, index_struct, index_value, eval_index,
}
use falcon_lib.Eval.Frame.{
  KeepsVars, KeepsVars-option, KeepsVars-bind, RunnerKeepsVars, frame_rules, KeepsVars-pack_outputs,
}

KeepsVars-element_at : (vs : List RuntimeValue) (i : ℤ) → KeepsVars (element_at vs i)
unfolding element_at
KeepsVars-element_at vs (negsuc n) = search frame_rules
KeepsVars-element_at vs (pos n) = search frame_rules

KeepsVars-index_array : (arr : ArrayValue) (v : RuntimeValue) → KeepsVars (index_array arr v)
unfolding index_array
KeepsVars-index_array arr (int i) = KeepsVars-element_at arr.elements i
KeepsVars-index_array arr _ = search frame_rules

module _ (native : Native) (run : Runner) (frame : RunnerKeepsVars run) where
  KeepsVars-index_natively :
      (a : ℕ) (type_name : String) (i : RuntimeValue)
      → KeepsVars (index_natively native run a type_name i)
  unfolding index_natively
  KeepsVars-index_natively a type_name i = search (frame_rules, KeepsVars-pack_outputs) depth 8

  KeepsVars-index_by_routine :
      (a : ℕ) (type_name : String) (decl : Option StructDecl) (i : RuntimeValue)
      → KeepsVars (index_by_routine native run a type_name decl i)
  unfolding index_by_routine
  KeepsVars-index_by_routine a type_name none i = KeepsVars-index_natively a type_name i
  KeepsVars-index_by_routine a type_name (some decl) i =
      KeepsVars-option (find_routine decl "GetIndex") _ _
        (λ routine.
          KeepsVars-bind _ _
            (KeepsVars-exec_struct_routine native run frame a decl routine (i ∷ []))
            KeepsVars-pack_outputs)
        (KeepsVars-index_natively a type_name i)

  KeepsVars-index_struct : (a : ℕ) (i : RuntimeValue) → KeepsVars (index_struct native run a i)
  unfolding index_struct
  KeepsVars-index_struct a i = search (frame_rules, KeepsVars-index_by_routine) depth 8

  KeepsVars-index_value : (v i : RuntimeValue) → KeepsVars (index_value native run v i)
  unfolding index_value
  KeepsVars-index_value (struct none) i = search frame_rules
  KeepsVars-index_value (struct (some a)) i = KeepsVars-index_struct a i
  KeepsVars-index_value (array none) i = search frame_rules
  KeepsVars-index_value (array (some a)) i = search (frame_rules, KeepsVars-index_array) depth 8
  KeepsVars-index_value _ i = search frame_rules

  pub KeepsVars-eval_index : (object at : Expr) → KeepsVars (eval_index native run object at)
  unfolding eval_index
  KeepsVars-eval_index object at =
      search (frame_rules, frame.evaluate, KeepsVars-index_value) depth 8
