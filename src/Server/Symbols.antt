-- ===== src/Server/Symbols.antt =====
-- `TypeChecker` of dsl/lsp/src/TypeChecker.cpp: the table of the symbols of a program, in the order
-- of the source. The positions of symbols are left out.
use falcon_lib.Base.{ℕ, String, Option, none, some, List, [], ◌∷◌, ◌++◌, map, length}
use falcon_lib.Base.Text.{◌⊹◌}
use falcon_lib.Syntax.{
  Stmt, stmt, StmtForm, var_decl, if_stmt, Stmts, end_stmts, cons_stmt, VarDecl, ParamDecl,
  StateDecl, AutotunerDecl, RoutineDecl, StructDecl,
}
use falcon_lib.Syntax.Types.{type_to_string}
use falcon_lib.Engine.{Program}

pub data SymbolKind : Type 0 where
  input_param output_param var state autotuner routine : SymbolKind
  struct struct_field struct_routine import ffimport : SymbolKind

pub record Symbol : Type 0 where
  pub name : String
  pub kind : SymbolKind
  pub type_str : String
  -- the autotuner, routine or struct it belongs to
  pub autotuner_name : String
  pub state_name : String
  pub param_types : List String
  pub return_types : List String
  -- none for -1
  pub required_param_count : Option ℕ

unfoldable pub plain : SymbolKind → String → String → String → String → Symbol
plain kind name type_str owner state_name = record {
  name = name;
  kind = kind;
  type_str = type_str;
  autotuner_name = owner;
  state_name = state_name;
  param_types = [];
  return_types = [];
  required_param_count = none;
}

unfoldable pub described : List ParamDecl → List String
unfolding type_to_string
described ps = map (λ p. type_to_string p.type ⊹ " " ⊹ p.name) ps

-- A symbol that can be called, with its parameters.
unfoldable pub callable :
    SymbolKind → String → String → String → List ParamDecl → List ParamDecl → Symbol
unfolding plain described
callable kind name type_str owner inputs outputs = record (plain kind name type_str owner "") {
  param_types = described inputs;
  return_types = described outputs;
  required_param_count = some (length inputs);
}

unfoldable pub param_symbols : SymbolKind → String → String → List ParamDecl → List Symbol
unfolding plain type_to_string
param_symbols kind owner state_name ps =
    map (λ p. plain kind p.name (type_to_string p.type) owner state_name) ps

unfoldable mutual
  unfolding plain type_to_string

  pub stmt_symbols : String → String → Stmt → List Symbol
  stmt_symbols owner state_name (stmt loc form) = form_symbols owner state_name form

  pub form_symbols : String → String → StmtForm → List Symbol
  form_symbols owner state_name (var_decl d) =
      plain var d.name (type_to_string d.type) owner state_name ∷ []
  form_symbols owner state_name (if_stmt c then_body else_body) =
      body_symbols owner state_name then_body ++ body_symbols owner state_name else_body
  form_symbols owner state_name _ = []

  pub body_symbols : String → String → Stmts → List Symbol
  body_symbols owner state_name end_stmts = []
  body_symbols owner state_name (cons_stmt s ss) =
      stmt_symbols owner state_name s ++ body_symbols owner state_name ss

unfoldable pub all_symbols : String → String → List Stmt → List Symbol
unfolding stmt_symbols
all_symbols owner state_name [] = []
all_symbols owner state_name (s ∷ ss) =
    stmt_symbols owner state_name s ++ all_symbols owner state_name ss

-- `analyze_state`
unfoldable pub state_symbols : String → StateDecl → List Symbol
unfolding plain param_symbols all_symbols
state_symbols owner s =
    plain state s.name "state" owner ""
    ∷ (param_symbols input_param owner s.name s.input_parameters ++ all_symbols owner s.name s.body)

unfoldable pub states_symbols : String → List StateDecl → List Symbol
unfolding state_symbols
states_symbols owner [] = []
states_symbols owner (s ∷ ss) = state_symbols owner s ++ states_symbols owner ss

-- `analyze_autotuner`
unfoldable pub autotuner_symbols : AutotunerDecl → List Symbol
unfolding callable param_symbols all_symbols states_symbols
autotuner_symbols at =
    callable autotuner at.name "autotuner" at.name at.input_params at.output_params
    ∷ (param_symbols input_param at.name "" at.input_params
        ++ (param_symbols output_param at.name "" at.output_params
            ++ (all_symbols at.name "" at.autotuner_variables ++ states_symbols at.name at.states)))

-- `analyze_routine_body`
unfoldable pub body_of_routine : RoutineDecl → String → List Symbol
unfolding param_symbols all_symbols
body_of_routine rt owner =
    param_symbols input_param owner "" rt.input_params
    ++ (param_symbols output_param owner "" rt.output_params ++ all_symbols owner "" rt.body)

unfoldable pub routine_symbols : RoutineDecl → List Symbol
unfolding callable body_of_routine
routine_symbols rt =
    callable routine rt.name "routine" "" rt.input_params rt.output_params
    ∷ body_of_routine rt rt.name

unfoldable pub method_symbols : String → RoutineDecl → List Symbol
unfolding callable body_of_routine
method_symbols owner rt =
    callable struct_routine rt.name "routine" owner rt.input_params rt.output_params
    ∷ body_of_routine rt owner

unfoldable pub methods_symbols : String → List RoutineDecl → List Symbol
unfolding method_symbols
methods_symbols owner [] = []
methods_symbols owner (rt ∷ rts) = method_symbols owner rt ++ methods_symbols owner rts

unfoldable pub field_symbols : String → List VarDecl → List Symbol
unfolding plain type_to_string
field_symbols owner fields =
    map (λ f. plain struct_field f.name (type_to_string f.type) owner "") fields

unfoldable pub struct_symbols : StructDecl → List Symbol
unfolding plain field_symbols methods_symbols
struct_symbols st =
    plain struct st.name "struct" "" ""
    ∷ (field_symbols st.name st.fields ++ methods_symbols st.name st.routines)

-- The symbols of each in turn.
unfoldable pub concat_map {ℓ} : {A : Type ℓ} → (A → List Symbol) → List A → List Symbol
concat_map f [] = []
concat_map f (a ∷ rest) = f a ++ concat_map f rest

unfoldable pub path_symbol : SymbolKind → String → String → Symbol
unfolding plain
path_symbol kind type_str path = plain kind path type_str "" ""

-- `analyze`: the symbols
unfoldable pub analyze : Program → List Symbol
unfolding concat_map struct_symbols autotuner_symbols routine_symbols path_symbol
analyze p =
    concat_map struct_symbols p.structs
    ++ (concat_map autotuner_symbols p.autotuners
        ++ (concat_map routine_symbols p.routines
            ++ (map (path_symbol import "import") p.imports
                ++ map (λ ffi. path_symbol ffimport "ffimport" ffi.wrapper_file) p.ff_imports)))

-- `import_paths` and `ffimport_paths`
unfoldable pub paths : Program → List String × List String
paths p = (p.imports, map (λ ffi. ffi.wrapper_file) p.ff_imports)
