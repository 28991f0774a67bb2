-- ===== src/Machine/Termination.antt =====
-- Fuel for programs without calls, which have no loop.
use falcon_lib.Base.{ℕ, zero, suc, ◌≤◌, ◌<◌, ◌≢◌, arith, Option, none, some, List, [], ◌∷◌}
use falcon_lib.Errors.{err, timeout}
use falcon_lib.Syntax.{
  Expr, literal, nil_literal, variable, binary, unary, member, method_call, index, call,
  AssignTarget, to_variable, to_field, VarDecl, Stmt, stmt, StmtForm, var_decl, assign,
  struct_field_assign, expr_stmt, if_stmt, transition, terminal, stmt_list, TypeDescriptor,
}
use falcon_lib.Eval.{State, Native, no_change, to_end, evaluate_list}
use falcon_lib.Eval.Ends.{Ends, Ends-pure, Ends-bind}
use falcon_lib.Eval.Simple.Ends.{
  Ends-eval_variable, Ends-eval_binary, Ends-eval_unary, Ends-eval_member,
}
use falcon_lib.Exec.{exec_form, exec_transition, inferred_type, execute, execute_block}
use falcon_lib.Exec.Ends.{
  InitialEnds, Ends-execute_with_context, Ends-exec_var_decl, Ends-exec_if, Ends-after_stmt,
}
use falcon_lib.Exec.Assign.Ends.{TargetsEnd, Ends-exec_assign, Ends-exec_struct_field_assign}
use falcon_lib.Machine.{eval_expr, runner}
use falcon_lib.Machine.CallFree.{
  CallFree, size, CallFreeAll, size_all, CallFreeTargets, size_targets, CallFreeInitial,
  size_initial, CallFreeForm, form_size, CallFreeStmt, stmt_size, CallFreeBlock, block_size,
  CallFreeBlock-stmt_list, block_size-stmt_list,
}

module _ (native : Native) where
  pub Ends-evaluate :
      (fuel : ℕ) (inferred : Option TypeDescriptor) (e : Expr)
      → CallFree e
      → size e ≤ fuel
      → Ends ((runner native fuel).evaluate inferred e)
  unfolding runner eval_expr CallFree size
  Ends-evaluate zero inferred (binary op l r) free le = absurd (omega (arith, le))
  Ends-evaluate (suc fuel) inferred (binary op l r) free le =
      Ends-eval_binary native (runner native fuel) op l r
        (Ends-evaluate fuel none l free.0 (omega (arith, le)))
        (Ends-evaluate fuel none r free.1 (omega (arith, le)))
  Ends-evaluate zero inferred (unary op e) free le = absurd (omega (arith, le))
  Ends-evaluate (suc fuel) inferred (unary op e) free le =
      Ends-eval_unary native (runner native fuel) op e
        (Ends-evaluate fuel none e free (omega (arith, le)))
  Ends-evaluate zero inferred (member e name) free le = absurd (omega (arith, le))
  Ends-evaluate (suc fuel) inferred (member e name) free le =
      Ends-eval_member (runner native fuel) e name
        (Ends-evaluate fuel none e free (omega (arith, le)))
  Ends-evaluate zero inferred (literal l) free le = absurd (omega (arith, le))
  Ends-evaluate (suc fuel) inferred (literal l) free le = Ends-pure _
  Ends-evaluate zero inferred nil_literal free le = absurd (omega (arith, le))
  Ends-evaluate (suc fuel) inferred nil_literal free le = Ends-pure _
  Ends-evaluate zero inferred (variable name) free le = absurd (omega (arith, le))
  Ends-evaluate (suc fuel) inferred (variable name) free le = Ends-eval_variable name
  Ends-evaluate fuel inferred (method_call e name es) free le = elim free [ ]
  Ends-evaluate fuel inferred (index e i) free le = elim free [ ]
  Ends-evaluate fuel inferred (call loc name es) free le = elim free [ ]

  Ends-evaluate_list :
      (fuel : ℕ) (es : List Expr)
      → CallFreeAll es
      → size_all es ≤ fuel
      → Ends (evaluate_list (runner native fuel) es)
  unfolding evaluate_list CallFreeAll size_all
  Ends-evaluate_list fuel [] free le = Ends-pure _
  Ends-evaluate_list fuel (e ∷ es) free le =
      Ends-bind _ _ (Ends-evaluate fuel none e free.0 (omega (arith, le))) λ v.
        Ends-bind _ _ (Ends-evaluate_list fuel es free.1 (omega (arith, le)))
          λ vs. Ends-pure (v ∷ vs)

  TargetsEnd-runner :
      (fuel : ℕ) (ts : List AssignTarget)
      → CallFreeTargets ts
      → size_targets ts ≤ fuel
      → TargetsEnd (runner native fuel) ts
  unfolding TargetsEnd CallFreeTargets size_targets
  TargetsEnd-runner fuel [] free le = tt
  TargetsEnd-runner fuel (to_variable name ∷ ts) free le = TargetsEnd-runner fuel ts free le
  TargetsEnd-runner fuel (to_field object field ∷ ts) free le = (
    Ends-evaluate fuel none object free.0 (omega (arith, le)),
    TargetsEnd-runner fuel ts free.1 (omega (arith, le)),
  )

  InitialEnds-runner :
      (fuel : ℕ) (d : VarDecl) (init : Option Expr)
      → CallFreeInitial init
      → size_initial init ≤ fuel
      → InitialEnds native (runner native fuel) d init
  unfolding InitialEnds CallFreeInitial size_initial
  InitialEnds-runner fuel d none free le = tt
  InitialEnds-runner fuel d (some e) free le = Ends-evaluate fuel (inferred_type d.type) e free le

  -- A form, when the blocks that are smaller end.
  Ends-exec_form :
      (fuel : ℕ)
      → ((body : List Stmt)
          → CallFreeBlock body
          → block_size body < fuel
          → Ends ((runner native fuel).execute_block body))
      → (form : StmtForm) → CallFreeForm form
      → form_size form < fuel
      → Ends (exec_form native (runner native fuel) form)
  unfolding exec_form exec_transition CallFreeForm form_size
  Ends-exec_form fuel smaller (var_decl d) free le =
      Ends-exec_var_decl native (runner native fuel) d
        (InitialEnds-runner fuel d d.initializer free (omega (arith, le)))
  Ends-exec_form fuel smaller (assign ts e) free le =
      Ends-exec_assign (runner native fuel) ts e
        (TargetsEnd-runner fuel ts free.0 (omega (arith, le)))
        (Ends-evaluate fuel none e free.1 (omega (arith, le)))
  Ends-exec_form fuel smaller (struct_field_assign object field e) free le =
      Ends-exec_struct_field_assign (runner native fuel) object field e
        (Ends-evaluate fuel none e free (omega (arith, le)))
  Ends-exec_form fuel smaller (expr_stmt e) free le =
      Ends-bind _ _ (Ends-evaluate fuel none e free (omega (arith, le))) λ v. Ends-pure no_change
  Ends-exec_form fuel smaller (if_stmt c t e) free le =
      Ends-exec_if native (runner native fuel) c t e
        (Ends-evaluate fuel none c free.0 (omega (arith, le)))
        (smaller (stmt_list t) (CallFreeBlock-stmt_list t free.1)
          (omega (arith, le, block_size-stmt_list t)))
        (smaller (stmt_list e) (CallFreeBlock-stmt_list e free.2)
          (omega (arith, le, block_size-stmt_list e)))
  Ends-exec_form fuel smaller (transition target es) free le =
      Ends-bind _ _ (Ends-evaluate_list fuel es free (omega (arith, le))) λ vs. Ends-pure _
  Ends-exec_form fuel smaller terminal free le = Ends-pure to_end

  Ends-execute_all :
      (fuel : ℕ)
      → ((body : List Stmt)
          → CallFreeBlock body
          → block_size body < fuel
          → Ends ((runner native fuel).execute_block body))
      → (body : List Stmt) → CallFreeBlock body
      → block_size body ≤ fuel
      → Ends (execute_block native (runner native fuel) body)
  unfolding execute_block execute CallFreeBlock block_size CallFreeStmt stmt_size
  Ends-execute_all fuel smaller [] free le = Ends-pure no_change
  Ends-execute_all fuel smaller (stmt loc form ∷ rest) free le =
      Ends-bind _ _
        (Ends-execute_with_context loc _
          (Ends-exec_form fuel smaller form free.0 (omega (arith, le))))
        λ flow.
          Ends-after_stmt native (runner native fuel) flow _
            (Ends-execute_all fuel smaller rest free.1 (omega (arith, le)))

  Ends-execute_block :
      (fuel : ℕ) (body : List Stmt)
      → CallFreeBlock body
      → block_size body < fuel
      → Ends ((runner native fuel).execute_block body)
  unfolding runner
  Ends-execute_block zero body free le = absurd (omega (arith, le))
  Ends-execute_block (suc fuel) body free le =
      Ends-execute_all fuel (Ends-execute_block fuel) body free (omega (arith, le))

-- A block with no call and no index does not run out of fuel when the fuel exceeds its size,
-- whatever the state and the native code are: it returns, or fails in another way.
pub execute_block-ends :
    (native : Native) (fuel : ℕ) (body : List Stmt) (s : State)
    → CallFreeBlock body
    → block_size body < fuel
    → ((runner native fuel).execute_block body s).0 ≢ err timeout
execute_block-ends native fuel body s free le = (Ends-execute_block native fuel body free le).at s
