-- ===== src/Eval/Index/Fuel.antt =====
-- Indexing on more fuel.
use falcon_lib.Base.{ℕ, String, Option, none, some, [], ◌∷◌}
use falcon_lib.Syntax.{Expr, StructDecl, find_routine}
use falcon_lib.Value.{RuntimeValue, struct, array}
use falcon_lib.Eval.{Native, Runner}
use falcon_lib.Eval.Routine.Fuel.{Refines-exec_struct_routine}
use falcon_lib.Eval.Index.{index_natively, index_by_routine, index_struct, index_value, eval_index}
use falcon_lib.Eval.Fuel.{
  Refines-same, Refines, Refines-option, Refines-bind, RunnerRefines, refine_rules,
}

module _ (native : Native) (run run' : Runner) (more : RunnerRefines run run') where
  Refines-index_natively :
      (a : ℕ) (type_name : String) (i : RuntimeValue)
      → Refines (index_natively native run a type_name i) (index_natively native run' a type_name i)
  unfolding index_natively
  Refines-index_natively a type_name i = Refines-same _

  Refines-index_by_routine :
      (a : ℕ) (type_name : String) (decl : Option StructDecl) (i : RuntimeValue)
      → Refines
          (index_by_routine native run a type_name decl i)
          (index_by_routine native run' a type_name decl i)
  unfolding index_by_routine
  Refines-index_by_routine a type_name none i = Refines-index_natively a type_name i
  Refines-index_by_routine a type_name (some decl) i =
      Refines-option (find_routine decl "GetIndex") _ _ _ _
        (λ routine.
          Refines-bind _ _ _ _
            (Refines-exec_struct_routine native run run' more a decl routine (i ∷ []))
            λ vs. Refines-same _)
        (Refines-index_natively a type_name i)

  Refines-index_struct :
      (a : ℕ) (i : RuntimeValue)
      → Refines (index_struct native run a i) (index_struct native run' a i)
  unfolding index_struct
  Refines-index_struct a i = search (refine_rules, Refines-index_by_routine) depth 8

  Refines-index_value :
      (v i : RuntimeValue) → Refines (index_value native run v i) (index_value native run' v i)
  unfolding index_value
  Refines-index_value (struct none) i = Refines-same _
  Refines-index_value (struct (some a)) i = Refines-index_struct a i
  Refines-index_value (array none) i = Refines-same _
  Refines-index_value (array (some a)) i = Refines-same _
  Refines-index_value _ i = Refines-same _

  pub Refines-eval_index :
      (object at : Expr)
      → Refines (eval_index native run object at) (eval_index native run' object at)
  unfolding eval_index
  Refines-eval_index object at = search (refine_rules, more.evaluate, Refines-index_value) depth 8
