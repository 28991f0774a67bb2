-- ===== src/Samples/Interpreting.antt =====
-- Runs of the interpreter, and its theorems at such runs.
use falcon_lib.Base.{◌≢◌, arith, ℕ, ◌≡◌, refl, none, some, [], ◌∷◌, length, if◌then◌else◌}
use falcon_lib.Base.Int.{pos}
use falcon_lib.Base.Maps.{lookup, contains}
use falcon_lib.Errors.{err, timeout, ok}
use falcon_lib.Syntax.{binary, variable, simple, int_type, VarDecl}
use falcon_lib.Value.{int, FunctionResult, ParameterMap}
use falcon_lib.Int64.{add64}
use falcon_lib.Ops.{apply_binary_op}
use falcon_lib.Eval.{to_state}
use falcon_lib.Eval.Keys.{HasVar}
use falcon_lib.Eval.Routine.{write_back}
use falcon_lib.Eval.Routine.WriteBack.{declares, or_value, write_back_fields}
use falcon_lib.Machine.{runner}
use falcon_lib.Machine.Frame.{evaluate-vars}
use falcon_lib.Machine.Keys.{execute_block-HasVar}
use falcon_lib.Interpreter.{
  run_autotuner, run_states, init_outputs, extract_outputs, execute_state, find_state,
}
use falcon_lib.Interpreter.Scope.{execute_state-scope, run_autotuner-vars}
use falcon_lib.Machine.Termination.{execute_block-ends}
use falcon_lib.Machine.CallFree.{CallFreeBlock, CallFreeStmt, block_size, stmt_size}
use falcon_lib.Interpreter.Trace.{
  Trace, last_state, next_state, entered, run_states-Trace, Trace-run_states,
}
use falcon_lib.Interpreter.Outputs.{outputs_are_set}
use falcon_lib.Samples.{
  no_native, empty_state, n_is, num, count_machine, count_body, count_output, count_state,
}

count_machine_runs :
    run_autotuner no_native 9 9 count_machine [] empty_state ≡ (ok (int (pos 2) ∷ []), empty_state)
unfolding run_autotuner apply_binary_op add64
count_machine_runs = refl

execute_state-scope_example : contains "m" (n_is 1).vars ≡ contains "m" (n_is 0).vars
unfolding execute_state runner apply_binary_op add64
execute_state-scope_example =
    execute_state-scope no_native 6 count_state [] (n_is 0) (n_is 1) (to_state "loop" []) "m" refl

run_autotuner-vars_example :
    (run_autotuner no_native 9 9 count_machine [] (n_is 7)).1.vars ≡ (n_is 7).vars
run_autotuner-vars_example = run_autotuner-vars no_native 9 9 count_machine [] (n_is 7)

outputs_are_set_example :
    (outputs : FunctionResult) × (extract_outputs no_native
        (runner no_native 9)
        (count_output ∷ [])
        (n_is 2)
      ≡ (ok outputs, n_is 2))
    × (length outputs ≡ 1)
unfolding run_states init_outputs runner apply_binary_op add64
outputs_are_set_example =
    outputs_are_set no_native 9 9 count_machine [] empty_state (n_is 0) (n_is 0) (n_is 2) refl refl
      refl

evaluate-vars_example :
    ((runner no_native 4).evaluate none (binary "+" (variable "n") (num 1)) (n_is 1)).1.vars
    ≡ (n_is 1).vars
evaluate-vars_example = evaluate-vars no_native 4 none (binary "+" (variable "n") (num 1)) (n_is 1)

execute_block-HasVar_example : HasVar "n" ((runner no_native 6).execute_block count_body (n_is 0)).1
unfolding contains
execute_block-HasVar_example = execute_block-HasVar "n" no_native 6 count_body (n_is 0) refl

abbrev total_field : VarDecl
total_field = record { type = simple int_type; name = "total"; initializer = none }

-- The receiver has total = 1, and the body left 5 under the bare name.
abbrev total_is : ℕ → ParameterMap
total_is i = ("total", int (pos i)) ∷ []

write_back_fields_example :
    lookup "total" (write_back (total_field ∷ []) (total_is 1) (total_is 5)).1 ≡ (
      if declares (total_field ∷ []) "total"
      then or_value (lookup "total" (total_is 1)) (lookup "total" (total_is 5))
      else lookup "total" (total_is 1))
write_back_fields_example = write_back_fields (total_field ∷ []) "total" (total_is 1) (total_is 5)

the_bare_write_is_lost :
    lookup "total" (write_back (total_field ∷ []) (total_is 1) (total_is 5)).1 ≡ some (int (pos 1))
unfolding write_back
the_bare_write_is_lost = refl

count_machine_ends : (run_autotuner no_native 9 9 count_machine [] empty_state).0 ≢ err timeout
unfolding run_autotuner apply_binary_op add64
count_machine_ends = λ (e : ok (int (pos 2) ∷ []) ≡ err timeout). cc

execute_block-ends_example :
    ((runner no_native 30).execute_block count_body (n_is 0)).0 ≢ err timeout
unfolding CallFreeBlock CallFreeStmt block_size stmt_size
execute_block-ends_example =
    execute_block-ends no_native 30 count_body (n_is 0)
      (tt, (((tt, tt), ((tt, (tt, tt)), (tt, tt)), (tt, tt)), tt)) (omega arith)

run_states-Trace_example :
    Trace no_native (runner no_native 9) count_machine "loop" [] (n_is 0) (n_is 2)
unfolding run_states runner apply_binary_op add64
run_states-Trace_example =
    run_states-Trace no_native (runner no_native 9) count_machine 9 "loop" [] (n_is 0) (n_is 2) refl

two_states : Trace no_native (runner no_native 9) count_machine "loop" [] (n_is 1) (n_is 2)
unfolding execute_state find_state runner apply_binary_op add64
two_states =
    next_state "loop" "loop" [] [] count_state (n_is 1) (n_is 2) (n_is 2) refl refl
      (last_state "loop" [] count_state (n_is 2) (n_is 2) refl refl)

Trace-run_states_example :
    run_states no_native (runner no_native 9) (entered two_states) count_machine "loop" [] (n_is 1)
    ≡ (ok tt, n_is 2)
Trace-run_states_example =
    Trace-run_states no_native (runner no_native 9) count_machine "loop" [] (n_is 1) (n_is 2)
      two_states
