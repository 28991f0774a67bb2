-- ===== src/Eval.antt =====
-- dsl/src/ExprEvaluator.cpp: the evaluator. Its state is the variable environment (`variables_`)
-- and the world that every evaluator shares: the heap and the two registries. What was written
-- before a throw stays written, so the state comes back beside an error too.
-- The evaluator and the statement executor call one another. Each member function takes the two
-- entry points as a `Runner`; module Machine ties the knot on fuel.
pub mod Simple
pub mod Call
pub mod Environment
pub mod Routine
pub mod Method
pub mod Index
pub mod Frame
pub mod Keys
pub mod Fuel
pub mod Ends
use falcon_lib.Base.{ℕ, String, Bool, Option, none, some, List, [], ◌∷◌, get_elem?}
use falcon_lib.Base.Maps.{insert}
use falcon_lib.Errors.{Failure, Result, ok, err, undefined}
use falcon_lib.Syntax.{TypeDescriptor, Expr, Stmt}
use falcon_lib.Value.{
  Floats, RuntimeValue, nil, tuple, ParameterMap, FunctionResult, StructInstance, Heap,
}
use falcon_lib.Value.Memory.{new_tuple}
use falcon_lib.Registry.Types.{TypeRegistry}
use falcon_lib.Registry.Functions.{FunctionRegistry}

pub record World : Type 0 where
  pub heap : Heap
  pub types : TypeRegistry
  pub functions : FunctionRegistry

pub record State : Type 0 where
  pub vars : ParameterMap
  pub world : World
  pub open world use *

-- What the interpreter does not implement: IEEE arithmetic, and the native code behind the handles
-- of the registries (a function of named parameters, and a method of an object).
pub record Native : Type 0 where
  pub floats : Floats
  pub call_function : ℕ → ParameterMap → World → Result FunctionResult × World
  pub call_method : ℕ → RuntimeValue → ParameterMap → World → Result FunctionResult × World

abbrev pub Eval {ℓ} : Type ℓ → Type ℓ
Eval A = State → Result A × State

module _ {ℓ} {A : Type ℓ} where
  unfoldable pub pure : A → Eval A
  pure a s = (ok a, s)

  unfoldable pub throw : Failure → Eval A
  throw e s = (err e, s)

  unfoldable pub lift : Result A → Eval A
  lift r s = (r, s)

  unfoldable pub gets : (State → A) → Eval A
  gets f s = (ok (f s), s)

  -- An action on the shared world.
  unfoldable pub on_world : (World → Result A × World) → Eval A
  on_world f s = let (r, w) = f s.world in (r, record s { world = w })

  -- Runs `m` over another environment, and gives that back as it was left. The environment of the
  -- caller is untouched.
  unfoldable pub in_env : ParameterMap → Eval A → Eval (A × ParameterMap)
  in_env env m s =
      let (r, s') = m (record s { vars = env }) in
      (elim r [ ok a ↦ ok (a, s'.vars) | err e ↦ err e ], record s' { vars = s.vars })

abbrev pub continue {ℓ κ} : {A : Type ℓ} {B : Type κ} → Result A → (A → Eval B) → Eval B
continue (ok a) f s = f a s
continue (err e) f s = (err e, s)

infixl 10 ◌>>=◌ ◌>>◌
unfoldable pub ◌>>=◌ {ℓ κ} : {A : Type ℓ} {B : Type κ} → Eval A → (A → Eval B) → Eval B
unfolding pure throw lift gets on_world in_env
◌>>=◌ m f s = let (r, s') = m s in continue r f s'

abbrev pub ◌>>◌ {ℓ κ} : {A : Type ℓ} {B : Type κ} → Eval A → Eval B → Eval B
m >> n = m >>= λ _. n

-- The value of an optional, or a failure.
unfoldable pub require {ℓ} : {A : Type ℓ} → Option A → Failure → Eval A
unfolding pure throw
require none e = throw e
require (some a) e = pure a

-- The instance at an address; a `shared_ptr` never dangles.
unfoldable pub deref : ℕ → Eval StructInstance
unfolding require
deref a s = require (get_elem? s.heap.structs a) undefined s

unfoldable pub modify_heap : (Heap → Heap) → Eval (Unit {0})
modify_heap f s = (ok tt, record s { world = record s.world { heap = f s.heap } })

-- An action on the heap that gives a value, such as an allocation.
unfoldable pub on_heap {ℓ} : {A : Type ℓ} → (Heap → A × Heap) → Eval A
on_heap f s = let (a, h) = f s.heap in (ok a, record s { world = record s.world { heap = h } })

-- An action on the type registry.
unfoldable pub on_types {ℓ} : {A : Type ℓ} → (TypeRegistry → Result A × TypeRegistry) → Eval A
on_types f s =
    let (r, types) = f s.types in (r, record s { world = record s.world { types = types } })

-- `variables_[name] = v`
unfoldable pub set_variable : String → RuntimeValue → Eval (Unit {0})
unfolding insert
set_variable name v s = (ok tt, record s { vars = insert name v s.vars })

-- The elements of the tuple at an address.
unfoldable pub get_tuple : ℕ → Eval (List RuntimeValue)
unfolding require
get_tuple a s = require (get_elem? s.heap.tuples a) undefined s

-- How a block of statements ends (`ControlFlow`).
pub data ControlFlow : Type 0 where
  no_change : ControlFlow
  to_state : String → List RuntimeValue → ControlFlow
  to_end : ControlFlow

-- `ExprEvaluator::evaluate`, with the `inferred_type` of the expression, and
-- `StmtExecutor::execute_block`.
pub record Runner : Type 0 where
  pub evaluate : Option TypeDescriptor → Expr → Eval RuntimeValue
  pub execute_block : List Stmt → Eval ControlFlow

-- The results of a call as one value: nil, the value itself, or a new tuple.
unfoldable pub pack_outputs : FunctionResult → Eval RuntimeValue
unfolding ◌>>=◌ on_heap new_tuple
pack_outputs [] = pure nil
pack_outputs (v ∷ []) = pure v
pack_outputs (v ∷ w ∷ vs) = do a ← on_heap (new_tuple (v ∷ w ∷ vs)); pure (tuple (some a))

-- `evaluate_list`, and every loop of the source that evaluates arguments in order.
unfoldable pub evaluate_list : Runner → List Expr → Eval (List RuntimeValue)
unfolding ◌>>=◌
evaluate_list run [] = pure []
evaluate_list run (e ∷ es) = do v ← run.evaluate none e; vs ← evaluate_list run es; pure (v ∷ vs)
