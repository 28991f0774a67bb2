-- ===== src/Eval/Index.antt =====
-- dsl/src/ExprEvaluator.cpp, `eval_index`: `object[index]` is a call of the routine GetIndex of an
-- instance's struct, or of its native method, or reads an element of a native array.
pub mod Frame
pub mod Fuel
use falcon_lib.Base.{
  ℕ, ◌≤◌, String, Option, none, some, List, [], ◌∷◌, length, get_elem?, leb, if◌then◌else◌,
}
use falcon_lib.Base.Int.{ℤ, pos, negsuc}
use falcon_lib.Errors.{
  evaluation, undefined, null_index, no_get_index, index_not_integer, index_negative,
  index_out_of_bounds, not_indexable,
}
use falcon_lib.Syntax.{Expr, StructDecl, find_routine}
use falcon_lib.Value.{RuntimeValue, int, struct, array, ArrayValue}
use falcon_lib.Value.Memory.{runtime_type_name}
use falcon_lib.Registry.Types.{lookup_struct}
use falcon_lib.Eval.{
  Native, Eval, Runner, pure, throw, gets, on_world, deref, require, pack_outputs, ◌>>=◌,
}
use falcon_lib.Eval.Routine.{find_ffi, exec_struct_routine}

element_at : List RuntimeValue → ℤ → Eval RuntimeValue
unfolding require
element_at elements (negsuc n) = throw (evaluation (index_negative (negsuc n)))
element_at elements (pos n) =
    require (get_elem? elements n) (evaluation (index_out_of_bounds (pos n) (length elements)))

-- An element of a native array, at an integer in its bounds.
unfoldable pub index_array : ArrayValue → RuntimeValue → Eval RuntimeValue
unfolding ◌>>=◌ element_at runtime_type_name
index_array arr (int i) = element_at arr.elements i
index_array arr v = do
  type_name ← gets (λ s. runtime_type_name s.heap v)
  throw (evaluation (index_not_integer type_name))

module _ (native : Native) (run : Runner) where
  index_natively : ℕ → String → RuntimeValue → Eval RuntimeValue
  unfolding ◌>>=◌ find_ffi require pack_outputs
  index_natively a type_name i = do
    types ← gets (λ s. s.types)
    m ← require (find_ffi types type_name "GetIndex") (evaluation (no_get_index type_name))
    outputs ←
        on_world
          (native.call_method m (struct (some a)) (("this", struct (some a)) ∷ ("index", i) ∷ []))
    pack_outputs outputs

  index_by_routine : ℕ → String → Option StructDecl → RuntimeValue → Eval RuntimeValue
  unfolding ◌>>=◌ find_routine index_natively exec_struct_routine pack_outputs
  index_by_routine a type_name none i = index_natively a type_name i
  index_by_routine a type_name (some decl) i = elim (find_routine decl "GetIndex") [
    | none ↦ index_natively a type_name i
    | some routine ↦ do
      outputs ← exec_struct_routine native run a decl routine (i ∷ [])
      pack_outputs outputs
  ]

  index_struct : ℕ → RuntimeValue → Eval RuntimeValue
  unfolding ◌>>=◌ deref lookup_struct index_by_routine
  index_struct a i = do
    this ← deref a
    types ← gets (λ s. s.types)
    index_by_routine a this.type_name (lookup_struct types this.type_name) i

  unfoldable pub index_value : RuntimeValue → RuntimeValue → Eval RuntimeValue
  unfolding ◌>>=◌ index_struct index_array require runtime_type_name
  index_value (struct none) i = throw (evaluation null_index)
  index_value (struct (some a)) i = index_struct a i
  index_value (array none) i = throw (evaluation null_index)
  index_value (array (some a)) i = do
    heap ← gets (λ s. s.heap)
    arr ← require (get_elem? heap.arrays a) undefined
    index_array arr i
  index_value v i = do
    type_name ← gets (λ s. runtime_type_name s.heap v)
    throw (evaluation (not_indexable type_name))

  unfoldable pub eval_index : Expr → Expr → Eval RuntimeValue
  unfolding ◌>>=◌ index_value
  eval_index object at = do v ← run.evaluate none object; i ← run.evaluate none at; index_value v i
