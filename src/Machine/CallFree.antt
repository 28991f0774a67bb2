-- ===== src/Machine/CallFree.antt =====
-- Programs without calls, and their sizes.
use falcon_lib.Base.{ℕ, suc, ◌+◌, ◌≡◌, refl, ap, Option, none, some, List, [], ◌∷◌}
use falcon_lib.Syntax.{
  Expr, binary, unary, member, method_call, index, call, AssignTarget, to_variable, to_field, Stmt,
  stmt, StmtForm, var_decl, assign, struct_field_assign, expr_stmt, if_stmt, transition, terminal,
  Stmts, end_stmts, cons_stmt, stmt_list,
}

-- An expression with no call and no index (an index may call native code).
unfoldable pub CallFree : Expr → Type 0
CallFree (binary op l r) = CallFree l × CallFree r
CallFree (unary op e) = CallFree e
CallFree (member e name) = CallFree e
CallFree (method_call e name es) = ⊥
CallFree (index e i) = ⊥
CallFree (call loc name es) = ⊥
CallFree _ = Unit

unfoldable pub size : Expr → ℕ
size (binary op l r) = suc (size l + size r)
size (unary op e) = suc (size e)
size (member e name) = suc (size e)
size _ = 1

-- The same for the parts of a statement.
unfoldable pub CallFreeAll : List Expr → Type 0
CallFreeAll [] = Unit
CallFreeAll (e ∷ es) = CallFree e × CallFreeAll es

unfoldable pub size_all : List Expr → ℕ
size_all [] = 0
size_all (e ∷ es) = size e + size_all es

unfoldable pub CallFreeTargets : List AssignTarget → Type 0
CallFreeTargets [] = Unit
CallFreeTargets (to_variable name ∷ ts) = CallFreeTargets ts
CallFreeTargets (to_field object field ∷ ts) = CallFree object × CallFreeTargets ts

unfoldable pub size_targets : List AssignTarget → ℕ
size_targets [] = 0
size_targets (to_variable name ∷ ts) = size_targets ts
size_targets (to_field object field ∷ ts) = size object + size_targets ts

unfoldable pub CallFreeInitial : Option Expr → Type 0
CallFreeInitial none = Unit
CallFreeInitial (some e) = CallFree e

unfoldable pub size_initial : Option Expr → ℕ
size_initial none = 0
size_initial (some e) = size e

unfoldable mutual
  unfolding CallFree CallFreeAll CallFreeTargets CallFreeInitial

  pub CallFreeStmt : Stmt → Type 0
  CallFreeStmt (stmt loc form) = CallFreeForm form

  pub CallFreeForm : StmtForm → Type 0
  CallFreeForm (var_decl d) = CallFreeInitial d.initializer
  CallFreeForm (assign ts e) = CallFreeTargets ts × CallFree e
  CallFreeForm (struct_field_assign object field e) = CallFree e
  CallFreeForm (expr_stmt e) = CallFree e
  CallFreeForm (if_stmt c t e) = CallFree c × CallFreeStmts t × CallFreeStmts e
  CallFreeForm (transition target es) = CallFreeAll es
  CallFreeForm terminal = Unit

  pub CallFreeStmts : Stmts → Type 0
  CallFreeStmts end_stmts = Unit
  CallFreeStmts (cons_stmt s ss) = CallFreeStmt s × CallFreeStmts ss

unfoldable mutual
  unfolding size size_all size_targets size_initial

  pub stmt_size : Stmt → ℕ
  stmt_size (stmt loc form) = suc (form_size form)

  pub form_size : StmtForm → ℕ
  form_size (var_decl d) = size_initial d.initializer
  form_size (assign ts e) = size_targets ts + size e
  form_size (struct_field_assign object field e) = size e
  form_size (expr_stmt e) = size e
  form_size (if_stmt c t e) = size c + stmts_size t + stmts_size e
  form_size (transition target es) = size_all es
  form_size terminal = 0

  pub stmts_size : Stmts → ℕ
  stmts_size end_stmts = 0
  stmts_size (cons_stmt s ss) = stmt_size s + stmts_size ss

unfoldable pub CallFreeBlock : List Stmt → Type 0
CallFreeBlock [] = Unit
CallFreeBlock (s ∷ ss) = CallFreeStmt s × CallFreeBlock ss

unfoldable pub block_size : List Stmt → ℕ
block_size [] = 0
block_size (s ∷ ss) = stmt_size s + block_size ss

pub CallFreeBlock-stmt_list : (ss : Stmts) → CallFreeStmts ss → CallFreeBlock (stmt_list ss)
unfolding CallFreeBlock CallFreeStmts
CallFreeBlock-stmt_list end_stmts h = h
CallFreeBlock-stmt_list (cons_stmt s ss) h = (h.0, CallFreeBlock-stmt_list ss h.1)

pub block_size-stmt_list : (ss : Stmts) → block_size (stmt_list ss) ≡ stmts_size ss
unfolding block_size stmts_size
block_size-stmt_list end_stmts = refl
block_size-stmt_list (cons_stmt s ss) = ap (λ n. stmt_size s + n) (block_size-stmt_list ss)
