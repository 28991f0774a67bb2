-- ===== src/Engine/Run.antt =====
-- The runs of loaded autotuners and routines (dsl/src/AutotunerEngine.cpp): the bodies of the
-- closures that the engine registers, and the two entry points. A program can call the functions
-- that the engine registered, which run programs again, so a call runs on fuel.
pub mod Outputs
pub mod Calls
use falcon_lib.Base.{
  ℕ, zero, suc, ◌-◌, String, Bool, true, false, Option, none, some, List, [], ◌∷◌, get_elem?, ltb,
  if◌then◌else◌,
}
use falcon_lib.Base.Int.{pos}
use falcon_lib.Base.Maps.{lookup, insert}
use falcon_lib.Errors.{
  Result, err, exception, timeout, autotuner_not_loaded, autotuner_not_found, routine_not_found,
  inline_routine_not_found, inline_output_not_set,
}
use falcon_lib.Syntax.{TypeDescriptor, ParamDecl, AutotunerDecl, RoutineDecl}
use falcon_lib.Syntax.Types.{int_type, float_type, bool_type, string_type, simple}
use falcon_lib.Value.{
  RuntimeValue, int, float, bool, string, nil, zero_float, ParameterMap, FunctionResult, Heap,
}
use falcon_lib.Registry.Functions.{find_function}
use falcon_lib.Eval.{World, State, Native, Eval, pure, gets, require, ◌>>=◌, ◌>>◌}
use falcon_lib.Machine.{runner}
use falcon_lib.Interpreter.{run_autotuner}
use falcon_lib.Engine.{
  Closure, autotuner_function, inline_routine, foreign_function, Engine, get_autotuner,
}

abbrev pub Call : Type 0
Call = ParameterMap → World → Result FunctionResult × World

bind_input : ParamDecl → Option RuntimeValue → ParameterMap → ParameterMap
unfolding insert
bind_input p none env = env
bind_input p (some v) env = insert p.name v env

-- A parameter that no argument names is left unset, also one with a default value.
unfoldable pub bind_inputs : List ParamDecl → ParameterMap → ParameterMap → ParameterMap
unfolding bind_input lookup
bind_inputs [] inputs env = env
bind_inputs (p ∷ ps) inputs env = bind_inputs ps inputs (bind_input p (lookup p.name inputs) env)

output_value : TypeDescriptor → RuntimeValue
output_value (simple int_type) = int (pos 0)
output_value (simple float_type) = float zero_float
output_value (simple bool_type) = bool false
output_value (simple string_type) = string ""
output_value t = nil

unfoldable pub set_outputs : List ParamDecl → ParameterMap → ParameterMap
unfolding output_value insert
set_outputs [] env = env
set_outputs (p ∷ ps) env = set_outputs ps (insert p.name (output_value p.type) env)

unfoldable pub collect_outputs : String → List ParamDecl → Eval FunctionResult
unfolding ◌>>=◌ require lookup
collect_outputs name [] = pure []
collect_outputs name (p ∷ ps) = do
  vars ← gets (λ s. s.vars)
  v ← require (lookup p.name vars) (exception (inline_output_not_set name p.name))
  vs ← collect_outputs name ps
  pure (v ∷ vs)

-- The body in an environment of its own, with the outputs that it leaves there.
inline_body : Native → ℕ → String → RoutineDecl → Eval FunctionResult
unfolding ◌>>=◌ collect_outputs runner
inline_body native fuel name decl = do
  (runner native fuel).execute_block decl.body
  collect_outputs name decl.output_params

unfoldable pub inline_env : RoutineDecl → ParameterMap → ParameterMap
unfolding bind_inputs set_outputs
inline_env decl inputs = set_outputs decl.output_params (bind_inputs decl.input_params inputs [])

-- The result of a computation over an environment of its own, and the world after it.
in_world : Eval FunctionResult → ParameterMap → World → Result FunctionResult × World
in_world m env w = let (r, s) = m (record { vars = env; world = w }) in (r, s.world)

unfoldable pub run_inline : Native → ℕ → String → RoutineDecl → Call
unfolding in_world inline_body inline_env
run_inline native fuel name decl inputs w =
    in_world (inline_body native fuel name decl) (inline_env decl inputs) w

unfoldable pub interpret : Native → ℕ → ℕ → AutotunerDecl → Call
unfolding in_world run_autotuner
interpret native fuel rounds decl inputs w =
    in_world (run_autotuner native fuel rounds decl inputs) [] w

-- The code that a closure runs. Foreign code gets its arguments through the C interface, which is
-- the parameter `foreign`.
module _ (foreign : ℕ → Call) (engine : Engine) (rounds : ℕ) where
  call_autotuner : Native → ℕ → String → Option AutotunerDecl → Call
  unfolding interpret
  call_autotuner native fuel name none inputs w = (err (exception (autotuner_not_found name)), w)
  call_autotuner native fuel name (some decl) inputs w = interpret native fuel rounds decl inputs w

  call_inline : Native → ℕ → String → Option RoutineDecl → Call
  unfolding run_inline
  call_inline native fuel name none inputs w = (err (exception (inline_routine_not_found name)), w)
  call_inline native fuel name (some decl) inputs w = run_inline native fuel name decl inputs w

  unfoldable pub call_closure : Native → ℕ → Closure → Call
  unfolding call_autotuner call_inline lookup
  call_closure native fuel (autotuner_function name) inputs w =
      call_autotuner native fuel name (lookup name engine.loaded_autotuners) inputs w
  call_closure native fuel (inline_routine name) inputs w =
      call_inline native fuel name (lookup name engine.routine_declarations) inputs w
  call_closure native fuel (foreign_function address) inputs w = foreign address inputs w

  -- A handle that no closure has: no such handle is given out.
  call_found : Native → ℕ → Option Closure → Call
  unfolding call_closure
  call_found native fuel none inputs w = (err timeout, w)
  call_found native fuel (some c) inputs w = call_closure native fuel c inputs w

  -- The native code of the program with the engine's closures, which call it in turn.
  unfoldable pub linked : Native → (ℕ → Call) → Native
  linked native call = record native {
    call_function = λ handle inputs w.
        if ltb handle engine.first_handle
        then native.call_function handle inputs w
        else call handle inputs w;
    call_method = λ handle receiver inputs w.
        if ltb handle engine.first_handle
        then native.call_method handle receiver inputs w
        else call handle inputs w;
  }

  unfoldable pub call_handle : Native → ℕ → ℕ → Call
  unfolding linked call_found
  call_handle native zero handle inputs w = (err timeout, w)
  call_handle native (suc fuel) handle inputs w =
      call_found (linked native (call_handle native fuel)) fuel
        (get_elem? engine.closures (handle - engine.first_handle)) inputs w

  unfoldable pub engine_native : Native → ℕ → Native
  unfolding linked call_handle
  engine_native native fuel = linked native (call_handle native fuel)

  unfoldable pub world_with : Heap → World
  world_with heap = record { heap = heap; types = engine.types; functions = engine.functions }

  run_found :
      Native
      → ℕ
      → String
      → Option AutotunerDecl
      → ParameterMap
      → Heap
      → Result FunctionResult × World
  unfolding interpret world_with engine_native
  run_found native fuel name none inputs heap =
      (err (exception (autotuner_not_loaded name)), world_with heap)
  run_found native fuel name (some decl) inputs heap =
      interpret (engine_native native fuel) fuel rounds decl inputs (world_with heap)

  -- `AutotunerEngine::run_autotuner`
  unfoldable pub run_loaded :
      Native → ℕ → String → ParameterMap → Heap → Result FunctionResult × World
  unfolding run_found get_autotuner
  run_loaded native fuel name inputs heap =
      run_found native fuel name (get_autotuner engine name) inputs heap

  run_function :
      Native → ℕ → String → Option ℕ → ParameterMap → Heap → Result FunctionResult × World
  unfolding world_with engine_native
  run_function native fuel name none inputs heap =
      (err (exception (routine_not_found name)), world_with heap)
  run_function native fuel name (some handle) inputs heap =
      (engine_native native fuel).call_function handle inputs (world_with heap)

  unfoldable pub run_routine :
      Native → ℕ → String → ParameterMap → Heap → Result FunctionResult × World
  unfolding run_function find_function
  run_routine native fuel name inputs heap =
      run_function native fuel name (find_function engine.functions name) inputs heap
