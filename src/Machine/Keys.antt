-- ===== src/Machine/Keys.antt =====
-- The names of variables during a block of statements, at any fuel.
use falcon_lib.Base.{ℕ, zero, suc, String, List}
use falcon_lib.Syntax.{Stmt}
use falcon_lib.Eval.{State, Native}
use falcon_lib.Eval.Keys.{HasVar}
use falcon_lib.Exec.Keys.{BlocksKeepVar, KeepsVar-execute_block}
use falcon_lib.Machine.{runner}
use falcon_lib.Machine.Frame.{runner-RunnerKeepsVars}

pub runner-BlocksKeepVar :
    (k : String) (native : Native) (fuel : ℕ) → BlocksKeepVar k (runner native fuel)
unfolding runner
runner-BlocksKeepVar k native zero = record { execute_block = λ body. record { at = λ s h. h } }
runner-BlocksKeepVar k native (suc fuel) = record {
  execute_block =
      KeepsVar-execute_block native (runner native fuel) (runner-RunnerKeepsVars native fuel) k
        (runner-BlocksKeepVar k native fuel);
}

-- A variable that has a value before a block of statements runs has one afterwards, also when the
-- block throws.
pub execute_block-HasVar :
    (k : String) (native : Native) (fuel : ℕ) (body : List Stmt) (s : State)
    → HasVar k s
    → HasVar k ((runner native fuel).execute_block body s).1
execute_block-HasVar k native fuel body s =
    ((runner-BlocksKeepVar k native fuel).execute_block body).at s
