-- ===== src/Syntax.antt =====
-- dsl/compiler/include/falcon-atc/AST.hpp: the syntax trees that the interpreter walks. An
-- owning vector inside a tree is a list type of the same mutual block; everywhere else it is a
-- `List`. The location of an expression is kept at calls only, where it is read.
pub mod Types
use falcon_lib.Base.{
  ℕ, String, Bool, false, true, Option, none, some, List, [], ◌∷◌, str_eq, if◌then◌else◌,
}
use falcon_lib.Base.Int.{ℤ}
pub use Types.{
  ParamType, int_type, float_type, bool_type, string_type, error_type, nil_type, tuple_type,
  void_type, union_type, struct_type, array_type, TypeDescriptor, TypeDescriptors, simple, error,
  tuple, union, struct, array, array_of_unknown, nil_types, cons_types, type_list, base_type,
  is_generic_struct, type_args, struct_name,
}
unfoldable pub use Types.{type_to_string, instance_name}

pub record Location : Type 0 where
  pub filename : String
  pub line : ℕ
  pub column : ℕ

-- The variant of `LiteralExpr`; a double is its 64 bits.
pub data Literal : Type 0 where
  int_literal : ℤ → Literal
  float_literal : ℕ → Literal
  bool_literal : Bool → Literal
  string_literal : String → Literal

mutual
  pub data Expr : Type 0 where
    literal : Literal → Expr
    nil_literal : Expr
    variable : String → Expr
    binary : String → Expr → Expr → Expr
    unary : String → Expr → Expr
    member : Expr → String → Expr
    method_call : Expr → String → Exprs → Expr
    index : Expr → Expr → Expr
    call : Location → String → CallArgs → Expr

  pub data Exprs : Type 0 where
    end_exprs : Exprs
    cons_expr : Expr → Exprs → Exprs

  -- an argument with its optional name
  pub data CallArgs : Type 0 where
    end_args : CallArgs
    cons_arg : Option String → Expr → CallArgs → CallArgs

pub record CallArg : Type 0 where
  pub name : Option String
  pub value : Expr

abbrev pub expr_list : Exprs → List Expr
expr_list end_exprs = []
expr_list (cons_expr e es) = e ∷ expr_list es

abbrev pub arg_list : CallArgs → List CallArg
arg_list end_args = []
arg_list (cons_arg n e rest) = (record { name = n; value = e }) ∷ arg_list rest

-- `AssignTarget`: a variable, or a field of the object that an expression gives.
pub data AssignTarget : Type 0 where
  to_variable : String → AssignTarget
  to_field : Expr → String → AssignTarget

pub record VarDecl : Type 0 where
  pub type : TypeDescriptor
  pub name : String
  pub initializer : Option Expr

-- A statement is a form with the location that the parser gave it.
mutual
  pub data Stmt : Type 0 where
    stmt : Location → StmtForm → Stmt

  pub data StmtForm : Type 0 where
    var_decl : VarDecl → StmtForm
    assign : List AssignTarget → Expr → StmtForm
    struct_field_assign : Expr → String → Expr → StmtForm
    expr_stmt : Expr → StmtForm
    if_stmt : Expr → Stmts → Stmts → StmtForm
    transition : String → List Expr → StmtForm
    terminal : StmtForm

  pub data Stmts : Type 0 where
    end_stmts : Stmts
    cons_stmt : Stmt → Stmts → Stmts

abbrev pub stmt_list : Stmts → List Stmt
stmt_list end_stmts = []
stmt_list (cons_stmt s ss) = s ∷ stmt_list ss

pub record ParamDecl : Type 0 where
  pub type : TypeDescriptor
  pub name : String
  pub default_value : Option Expr

pub record StateDecl : Type 0 where
  pub name : String
  pub input_parameters : List ParamDecl
  pub body : List Stmt

pub record AutotunerDecl : Type 0 where
  pub name : String
  pub input_params : List ParamDecl
  pub output_params : List ParamDecl
  pub autotuner_variables : List Stmt
  pub entry_state : String
  pub entry_parameters : List Expr
  pub states : List StateDecl

pub record RoutineDecl : Type 0 where
  pub name : String
  pub input_params : List ParamDecl
  pub output_params : List ParamDecl
  pub body : List Stmt

pub record StructDecl : Type 0 where
  pub name : String
  pub module_name : String
  pub generic_params : List String
  pub fields : List VarDecl
  pub routines : List RoutineDecl

abbrev pub is_generic : StructDecl → Bool
is_generic d = elim d.generic_params [ [] ↦ false | _ ∷ _ ↦ true ]

unfoldable pub find_in : String → List RoutineDecl → Option RoutineDecl
find_in n [] = none
find_in n (r ∷ rs) = if str_eq r.name n then some r else find_in n rs

unfoldable pub find_routine : StructDecl → String → Option RoutineDecl
unfolding find_in
find_routine d n = find_in n d.routines

pub record ParamSpec : Type 0 where
  pub name : String
  pub type : TypeDescriptor
  pub required : Bool

pub record BuiltinSignature : Type 0 where
  pub qualified_name : String
  pub parameters : List ParamSpec
  pub return_params : List ParamSpec
  pub supports_named_args : Bool
