-- ===== src/Server/Diagnostics/Programs.antt =====
-- The rules for the calls of a whole program, beside the diagnostics of the walk.
use falcon_lib.Base.{ℕ, ◌≡◌, refl, ◌↔◌, Option, none, some, List, [], ◌∷◌}
use falcon_lib.Base.Maps.{Map, lookup}
use falcon_lib.Syntax.{
  Expr, literal, nil_literal, variable, binary, unary, member, method_call, index, call, Exprs,
  end_exprs, cons_expr, CallArgs, end_args, cons_arg, Stmt, stmt, StmtForm, var_decl, assign,
  struct_field_assign, expr_stmt, if_stmt, transition, terminal, Stmts, end_stmts, cons_stmt,
  AutotunerDecl, RoutineDecl, BuiltinSignature,
}
use falcon_lib.Engine.{Program}
use falcon_lib.Server.Diagnostics.{
  check_call, count_args, walk_expr, walk_exprs, walk_args, walk_list, walk_initializer, walk_stmt,
  walk_form, walk_body,
}
use falcon_lib.Server.Diagnostics.Accepts.{FitsKnown, check_known_fits, both}

-- Nothing to find, and nothing found.
trivially {ℓ} : {T : Type ℓ} → Unit {0} ↔ (◌≡◌ {A = List T} [] [])
trivially = (λ u. refl, λ e. tt)

module _ (registry : Map BuiltinSignature) (known : Map (Option ℕ)) where
  -- Every call in the expression has a number of arguments that its function takes.
  mutual
    pub InOrder : Expr → Type 0
    InOrder (call loc name args) =
        FitsKnown registry name (count_args args) (lookup name known) × ArgsInOrder args
    InOrder (binary op left right) = InOrder left × InOrder right
    InOrder (unary op operand) = InOrder operand
    InOrder (method_call object method args) = InOrder object × ExprsInOrder args
    InOrder (index object at) = InOrder object × InOrder at
    InOrder (member object field) = InOrder object
    InOrder _ = Unit

    pub ExprsInOrder : Exprs → Type 0
    ExprsInOrder end_exprs = Unit
    ExprsInOrder (cons_expr e es) = InOrder e × ExprsInOrder es

    pub ArgsInOrder : CallArgs → Type 0
    ArgsInOrder end_args = Unit
    ArgsInOrder (cons_arg n e rest) = InOrder e × ArgsInOrder rest

  pub AllInOrder : List Expr → Type 0
  AllInOrder [] = Unit
  AllInOrder (e ∷ es) = InOrder e × AllInOrder es

  pub InitialInOrder : Option Expr → Type 0
  InitialInOrder none = Unit
  InitialInOrder (some e) = InOrder e

  -- The same for the expressions of a statement, the targets of an assignment left out.
  mutual
    pub StmtInOrder : Stmt → Type 0
    StmtInOrder (stmt loc form) = FormInOrder form

    pub FormInOrder : StmtForm → Type 0
    FormInOrder (expr_stmt e) = InOrder e
    FormInOrder (assign targets e) = InOrder e
    FormInOrder (var_decl d) = InitialInOrder d.initializer
    FormInOrder (if_stmt c then_body else_body) =
        InOrder c × (BodyInOrder then_body × BodyInOrder else_body)
    FormInOrder (transition target params) = AllInOrder params
    FormInOrder (struct_field_assign object field e) = InOrder object × InOrder e
    FormInOrder terminal = Unit

    pub BodyInOrder : Stmts → Type 0
    BodyInOrder end_stmts = Unit
    BodyInOrder (cons_stmt s ss) = StmtInOrder s × BodyInOrder ss

  mutual
    unfolding InOrder walk_expr check_call

    walk_expr-InOrder : (e : Expr) → InOrder e ↔ (walk_expr registry known e ≡ [])
    walk_expr-InOrder (call loc name args) =
        both (check_known_fits registry name (count_args args) loc (lookup name known))
          (walk_args-InOrder args)
    walk_expr-InOrder (binary op left right) =
        both (walk_expr-InOrder left) (walk_expr-InOrder right)
    walk_expr-InOrder (unary op operand) = walk_expr-InOrder operand
    walk_expr-InOrder (method_call object method args) =
        both (walk_expr-InOrder object) (walk_exprs-InOrder args)
    walk_expr-InOrder (index object at) = both (walk_expr-InOrder object) (walk_expr-InOrder at)
    walk_expr-InOrder (member object field) = walk_expr-InOrder object
    walk_expr-InOrder (literal l) = trivially
    walk_expr-InOrder nil_literal = trivially
    walk_expr-InOrder (variable name) = trivially

    walk_exprs-InOrder : (es : Exprs) → ExprsInOrder es ↔ (walk_exprs registry known es ≡ [])
    walk_exprs-InOrder end_exprs = trivially
    walk_exprs-InOrder (cons_expr e es) = both (walk_expr-InOrder e) (walk_exprs-InOrder es)

    walk_args-InOrder : (args : CallArgs) → ArgsInOrder args ↔ (walk_args registry known args ≡ [])
    walk_args-InOrder end_args = trivially
    walk_args-InOrder (cons_arg n e rest) = both (walk_expr-InOrder e) (walk_args-InOrder rest)

  walk_list-InOrder : (es : List Expr) → AllInOrder es ↔ (walk_list registry known es ≡ [])
  unfolding AllInOrder walk_list
  walk_list-InOrder [] = trivially
  walk_list-InOrder (e ∷ es) = both (walk_expr-InOrder e) (walk_list-InOrder es)

  walk_initializer-InOrder :
      (e : Option Expr) → InitialInOrder e ↔ (walk_initializer registry known e ≡ [])
  unfolding InitialInOrder walk_initializer
  walk_initializer-InOrder none = trivially
  walk_initializer-InOrder (some e) = walk_expr-InOrder e

  mutual
    unfolding StmtInOrder walk_stmt

    walk_stmt-InOrder : (s : Stmt) → StmtInOrder s ↔ (walk_stmt registry known s ≡ [])
    walk_stmt-InOrder (stmt loc form) = walk_form-InOrder form

    walk_form-InOrder : (form : StmtForm) → FormInOrder form ↔ (walk_form registry known form ≡ [])
    walk_form-InOrder (expr_stmt e) = walk_expr-InOrder e
    walk_form-InOrder (assign targets e) = walk_expr-InOrder e
    walk_form-InOrder (var_decl d) = walk_initializer-InOrder d.initializer
    walk_form-InOrder (if_stmt c then_body else_body) =
        both (walk_expr-InOrder c)
          (both (walk_body-InOrder then_body) (walk_body-InOrder else_body))
    walk_form-InOrder (transition target params) = walk_list-InOrder params
    walk_form-InOrder (struct_field_assign object field e) =
        both (walk_expr-InOrder object) (walk_expr-InOrder e)
    walk_form-InOrder terminal = trivially

    walk_body-InOrder : (ss : Stmts) → BodyInOrder ss ↔ (walk_body registry known ss ≡ [])
    walk_body-InOrder end_stmts = trivially
    walk_body-InOrder (cons_stmt s ss) = both (walk_stmt-InOrder s) (walk_body-InOrder ss)

  pub Every {ℓ} : {A : Type ℓ} → (A → Type 0) → List A → Type 0
  Every P [] = Unit
  Every P (a ∷ rest) = P a × Every P rest

  pub AutotunerInOrder : AutotunerDecl → Type 0
  AutotunerInOrder at =
      Every StmtInOrder at.autotuner_variables × Every (λ s. Every StmtInOrder s.body) at.states

  pub RoutineInOrder : RoutineDecl → Type 0
  RoutineInOrder rt = Every StmtInOrder rt.body

  -- The calls of autotuners (their variables and states), of routines and of the routines of structs.
  pub ProgramInOrder : Program → Type 0
  ProgramInOrder p =
      Every AutotunerInOrder p.autotuners
      × (Every RoutineInOrder p.routines × Every (λ st. Every RoutineInOrder st.routines) p.structs)
