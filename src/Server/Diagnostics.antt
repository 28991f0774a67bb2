-- ===== src/Server/Diagnostics.antt =====
-- `SemanticAnalyzer` of dsl/lsp/src/SemanticAnalyzer.cpp: the calls of a program whose function is
-- not known, or takes another number of arguments. The registry of the builtin functions is the
-- argument `registry`. A message is a constructor with what its text shows.
pub mod Accepts
pub mod Programs
pub mod Known
use falcon_lib.Base.{
  ℕ, suc, ◌-◌, String, Bool, true, false, not, ◌&&◌, Option, none, some, List, [], ◌∷◌, ◌++◌, ltb,
  ◌==◌, if◌then◌else◌,
}
use falcon_lib.Base.Maps.{Map, lookup, insert}
use falcon_lib.Syntax.{
  Location, Expr, literal, nil_literal, variable, binary, unary, member, method_call, index, call,
  Exprs, end_exprs, cons_expr, CallArgs, end_args, cons_arg, Stmt, stmt, StmtForm, var_decl, assign,
  struct_field_assign, expr_stmt, if_stmt, transition, terminal, Stmts, end_stmts, cons_stmt,
  StateDecl, AutotunerDecl, RoutineDecl, StructDecl, ParamSpec, BuiltinSignature,
}
use falcon_lib.Engine.{Program}
use falcon_lib.Server.Symbols.{Symbol, SymbolKind, autotuner, routine}

pub data Problem : Type 0 where
  undefined : String → Problem
  wrong_count : String → ℕ → ℕ → Problem
  too_few : String → ℕ → ℕ → Problem

-- Positions from 0, where the source counts from 1.
pub record Diagnostic : Type 0 where
  pub message : Problem
  pub line : ℕ
  pub column : ℕ

-- `make_semantic_diag`; a position that is 0 stays 0.
unfoldable pub make_semantic_diag : Problem → Location → Diagnostic
make_semantic_diag message loc = record {
  message = message;
  line = loc.line - 1;
  column = loc.column - 1;
}

is_callable : SymbolKind → Bool
is_callable autotuner = true
is_callable routine = true
is_callable _ = false

-- A later symbol of a name takes the place of an earlier one; an inner none stands for -1.
add_known : Symbol → Map (Option ℕ) → Map (Option ℕ)
unfolding insert is_callable
add_known s known = if is_callable s.kind then insert s.name s.required_param_count known else known

add_symbols : List Symbol → Map (Option ℕ) → Map (Option ℕ)
unfolding add_known
add_symbols [] known = known
add_symbols (s ∷ ss) known = add_symbols ss (add_known s known)

unfoldable pub known_callables : List Symbol → Map (Option ℕ)
unfolding add_symbols
known_callables symbols = add_symbols symbols []

-- The required parameters before the first that is not, and whether there is such a one.
unfoldable pub count_required : List ParamSpec → ℕ × Bool
count_required [] = (0, false)
count_required (p ∷ ps) =
    let (n, variadic) = count_required ps in if p.required then (suc n, variadic) else (0, true)

check_builtin : String → ℕ → Location → Option BuiltinSignature → List Diagnostic
unfolding count_required make_semantic_diag
check_builtin name args loc none = make_semantic_diag (undefined name) loc ∷ []
check_builtin name args loc (some sig) =
    let (required, variadic) = count_required sig.parameters in
    if not variadic && ltb args required
    then make_semantic_diag (too_few name required args) loc ∷ []
    else []

module _ (registry : Map BuiltinSignature) where
  unfoldable pub check_known : String → ℕ → Location → Option (Option ℕ) → List Diagnostic
  unfolding check_builtin make_semantic_diag lookup
  check_known name args loc none = check_builtin name args loc (lookup name registry)
  check_known name args loc (some none) = []
  check_known name args loc (some (some expected)) =
      if args == expected then [] else make_semantic_diag (wrong_count name expected args) loc ∷ []

  -- `check_call_extended`
  unfoldable pub check_call : Map (Option ℕ) → String → ℕ → Location → List Diagnostic
  unfolding check_known lookup
  check_call known name args loc = check_known name args loc (lookup name known)

unfoldable pub count_args : CallArgs → ℕ
count_args end_args = 0
count_args (cons_arg n e rest) = suc (count_args rest)

module _ (registry : Map BuiltinSignature) (known : Map (Option ℕ)) where
  unfoldable mutual
    unfolding check_call count_args

    pub walk_expr : Expr → List Diagnostic
    walk_expr (call loc name args) =
        check_call registry known name (count_args args) loc ++ walk_args args
    walk_expr (binary op left right) = walk_expr left ++ walk_expr right
    walk_expr (unary op operand) = walk_expr operand
    walk_expr (method_call object method args) = walk_expr object ++ walk_exprs args
    walk_expr (index object at) = walk_expr object ++ walk_expr at
    walk_expr (member object field) = walk_expr object
    walk_expr _ = []

    pub walk_exprs : Exprs → List Diagnostic
    walk_exprs end_exprs = []
    walk_exprs (cons_expr e es) = walk_expr e ++ walk_exprs es

    pub walk_args : CallArgs → List Diagnostic
    walk_args end_args = []
    walk_args (cons_arg n e rest) = walk_expr e ++ walk_args rest

  unfoldable pub walk_list : List Expr → List Diagnostic
  unfolding walk_expr
  walk_list [] = []
  walk_list (e ∷ es) = walk_expr e ++ walk_list es

  unfoldable pub walk_initializer : Option Expr → List Diagnostic
  unfolding walk_expr
  walk_initializer none = []
  walk_initializer (some e) = walk_expr e

  unfoldable mutual
    unfolding walk_expr walk_list walk_initializer

    pub walk_stmt : Stmt → List Diagnostic
    walk_stmt (stmt loc form) = walk_form form

    -- The targets of an assignment are not walked.
    pub walk_form : StmtForm → List Diagnostic
    walk_form (expr_stmt e) = walk_expr e
    walk_form (assign targets e) = walk_expr e
    walk_form (var_decl d) = walk_initializer d.initializer
    walk_form (if_stmt c then_body else_body) =
        walk_expr c ++ (walk_body then_body ++ walk_body else_body)
    walk_form (transition target params) = walk_list params
    walk_form (struct_field_assign object field e) = walk_expr object ++ walk_expr e
    walk_form terminal = []

    pub walk_body : Stmts → List Diagnostic
    walk_body end_stmts = []
    walk_body (cons_stmt s ss) = walk_stmt s ++ walk_body ss

  -- The results of each in turn.
  unfoldable pub each {ℓ} : {A : Type ℓ} → (A → List Diagnostic) → List A → List Diagnostic
  each f [] = []
  each f (a ∷ rest) = f a ++ each f rest

  unfoldable pub walk_stmts : List Stmt → List Diagnostic
  unfolding each walk_stmt
  walk_stmts = each walk_stmt

  unfoldable pub walk_state : StateDecl → List Diagnostic
  unfolding walk_stmts
  walk_state s = walk_stmts s.body

  unfoldable pub walk_autotuner : AutotunerDecl → List Diagnostic
  unfolding walk_stmts each walk_state
  walk_autotuner at = walk_stmts at.autotuner_variables ++ each walk_state at.states

  unfoldable pub walk_routine : RoutineDecl → List Diagnostic
  unfolding walk_stmts
  walk_routine rt = walk_stmts rt.body

  unfoldable pub walk_struct : StructDecl → List Diagnostic
  unfolding each walk_routine
  walk_struct st = each walk_routine st.routines

  unfoldable pub walk_program : Program → List Diagnostic
  unfolding each walk_autotuner walk_routine walk_struct
  walk_program p =
      each walk_autotuner p.autotuners
      ++ (each walk_routine p.routines ++ each walk_struct p.structs)

-- A document whose text could not be parsed has no program and no semantic diagnostics.
unfoldable pub diagnose : Map BuiltinSignature → List Symbol → Option Program → List Diagnostic
unfolding known_callables walk_program
diagnose registry symbols none = []
diagnose registry symbols (some p) = walk_program registry (known_callables symbols) p
