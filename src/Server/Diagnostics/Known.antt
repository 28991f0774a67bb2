-- ===== src/Server/Diagnostics/Known.antt =====
-- The callables that a program's symbols give.
use falcon_lib.Base.{
  ℕ, String, false, ◌≡◌, refl, ap, ◌∙◌, Option, some, List, [], ◌∷◌, ◌++◌, map, length,
}
use falcon_lib.Base.Maps.{Map, insert}
use falcon_lib.Syntax.{
  Stmt, stmt, StmtForm, var_decl, assign, struct_field_assign, expr_stmt, if_stmt, transition,
  terminal, Stmts, end_stmts, cons_stmt, ParamDecl, StateDecl, AutotunerDecl, RoutineDecl,
  StructDecl,
}
use falcon_lib.Engine.{Program}
use falcon_lib.Server.Symbols.{
  Symbol, SymbolKind, input_param, output_param, plain, callable, param_symbols, stmt_symbols,
  form_symbols, body_symbols, all_symbols, state_symbols, states_symbols, autotuner_symbols,
  body_of_routine, routine_symbols, method_symbols, methods_symbols, field_symbols, struct_symbols,
  concat_map, path_symbol, analyze,
}
use falcon_lib.Server.Diagnostics.{is_callable, add_known, add_symbols, known_callables}

-- No symbol of the list can be called.
record IsLocal (ss : List Symbol) : Type 0 where
  same : (known : Map (Option ℕ)) → add_symbols ss known ≡ known

add_symbols-append :
    (ss ts : List Symbol) (known : Map (Option ℕ))
    → add_symbols (ss ++ ts) known ≡ add_symbols ts (add_symbols ss known)
unfolding add_symbols
add_symbols-append [] ts known = refl
add_symbols-append (s ∷ ss) ts known = add_symbols-append ss ts (add_known s known)

IsLocal-nil : IsLocal []
unfolding add_symbols
IsLocal-nil = record { same = λ known. refl }

IsLocal-cons :
    (s : Symbol) (ss : List Symbol) → is_callable s.kind ≡ false → IsLocal ss → IsLocal (s ∷ ss)
unfolding add_symbols add_known
IsLocal-cons s ss e h = record { same = λ known. rw e (h.same known) }

IsLocal-append : (ss ts : List Symbol) → IsLocal ss → IsLocal ts → IsLocal (ss ++ ts)
IsLocal-append ss ts h g = record {
  same =
      λ known. add_symbols-append ss ts known ∙ ap (add_symbols ts) (h.same known) ∙ g.same known;
}

IsLocal-map :
    {A : Type 0} (f : A → Symbol)
    → ((a : A) → is_callable (f a).kind ≡ false)
    → (xs : List A) → IsLocal (map f xs)
IsLocal-map f h [] = IsLocal-nil
IsLocal-map f h (x ∷ xs) = IsLocal-cons (f x) (map f xs) (h x) (IsLocal-map f h xs)

IsLocal-concat_map :
    {A : Type 0} (f : A → List Symbol)
    → ((a : A) → IsLocal (f a))
    → (xs : List A) → IsLocal (concat_map f xs)
unfolding concat_map
IsLocal-concat_map f h [] = IsLocal-nil
IsLocal-concat_map f h (x ∷ xs) =
    IsLocal-append (f x) (concat_map f xs) (h x) (IsLocal-concat_map f h xs)

mutual
  unfolding stmt_symbols is_callable plain

  IsLocal-stmt : (owner state_name : String) (s : Stmt) → IsLocal (stmt_symbols owner state_name s)
  IsLocal-stmt owner state_name (stmt loc form) = IsLocal-form owner state_name form

  IsLocal-form :
      (owner state_name : String) (form : StmtForm) → IsLocal (form_symbols owner state_name form)
  IsLocal-form owner state_name (var_decl d) = IsLocal-cons _ [] refl IsLocal-nil
  IsLocal-form owner state_name (if_stmt c then_body else_body) =
      IsLocal-append (body_symbols owner state_name then_body)
        (body_symbols owner state_name else_body) (IsLocal-body owner state_name then_body)
        (IsLocal-body owner state_name else_body)
  IsLocal-form owner state_name (assign targets e) = IsLocal-nil
  IsLocal-form owner state_name (struct_field_assign object field e) = IsLocal-nil
  IsLocal-form owner state_name (expr_stmt e) = IsLocal-nil
  IsLocal-form owner state_name (transition target params) = IsLocal-nil
  IsLocal-form owner state_name terminal = IsLocal-nil

  IsLocal-body :
      (owner state_name : String) (ss : Stmts) → IsLocal (body_symbols owner state_name ss)
  IsLocal-body owner state_name end_stmts = IsLocal-nil
  IsLocal-body owner state_name (cons_stmt s ss) =
      IsLocal-append (stmt_symbols owner state_name s) (body_symbols owner state_name ss)
        (IsLocal-stmt owner state_name s) (IsLocal-body owner state_name ss)

IsLocal-all :
    (owner state_name : String) (ss : List Stmt) → IsLocal (all_symbols owner state_name ss)
unfolding all_symbols
IsLocal-all owner state_name [] = IsLocal-nil
IsLocal-all owner state_name (s ∷ ss) =
    IsLocal-append (stmt_symbols owner state_name s) (all_symbols owner state_name ss)
      (IsLocal-stmt owner state_name s) (IsLocal-all owner state_name ss)

IsLocal-inputs :
    (owner state_name : String) (ps : List ParamDecl)
    → IsLocal (param_symbols input_param owner state_name ps)
unfolding param_symbols plain is_callable
IsLocal-inputs owner state_name ps = IsLocal-map _ (λ p. refl) ps

IsLocal-outputs :
    (owner : String) (ps : List ParamDecl) → IsLocal (param_symbols output_param owner "" ps)
unfolding param_symbols plain is_callable
IsLocal-outputs owner ps = IsLocal-map _ (λ p. refl) ps

IsLocal-states : (owner : String) (ss : List StateDecl) → IsLocal (states_symbols owner ss)
unfolding states_symbols state_symbols plain is_callable
IsLocal-states owner [] = IsLocal-nil
IsLocal-states owner (s ∷ ss) =
    IsLocal-append (state_symbols owner s) (states_symbols owner ss)
      (IsLocal-cons _ _ refl (
        IsLocal-append (param_symbols input_param owner s.name s.input_parameters)
          (all_symbols owner s.name s.body) (IsLocal-inputs owner s.name s.input_parameters)
          (IsLocal-all owner s.name s.body)))
      (IsLocal-states owner ss)

IsLocal-routine_body : (owner : String) (rt : RoutineDecl) → IsLocal (body_of_routine rt owner)
unfolding body_of_routine
IsLocal-routine_body owner rt =
    IsLocal-append (param_symbols input_param owner "" rt.input_params) _
      (IsLocal-inputs owner "" rt.input_params)
      (IsLocal-append (param_symbols output_param owner "" rt.output_params)
        (all_symbols owner "" rt.body) (IsLocal-outputs owner rt.output_params)
        (IsLocal-all owner "" rt.body))

IsLocal-methods : (owner : String) (rts : List RoutineDecl) → IsLocal (methods_symbols owner rts)
unfolding methods_symbols method_symbols callable plain is_callable
IsLocal-methods owner [] = IsLocal-nil
IsLocal-methods owner (rt ∷ rts) =
    IsLocal-append (method_symbols owner rt) (methods_symbols owner rts)
      (IsLocal-cons _ _ refl (IsLocal-routine_body owner rt)) (IsLocal-methods owner rts)

IsLocal-struct : (st : StructDecl) → IsLocal (struct_symbols st)
unfolding struct_symbols field_symbols plain is_callable
IsLocal-struct st = IsLocal-cons _ _ refl (
    IsLocal-append (field_symbols st.name st.fields) (methods_symbols st.name st.routines)
      (IsLocal-map _ (λ f. refl) st.fields) (IsLocal-methods st.name st.routines))

-- The declarations that a call can name, each with the number of its inputs.
abbrev pub declare : String → List ParamDecl → Map (Option ℕ) → Map (Option ℕ)
declare name inputs known = insert name (some (length inputs)) known

pub declare_autotuners : List AutotunerDecl → Map (Option ℕ) → Map (Option ℕ)
declare_autotuners [] known = known
declare_autotuners (at ∷ ats) known = declare_autotuners ats (declare at.name at.input_params known)

pub declare_routines : List RoutineDecl → Map (Option ℕ) → Map (Option ℕ)
declare_routines [] known = known
declare_routines (rt ∷ rts) known = declare_routines rts (declare rt.name rt.input_params known)

add_symbols-autotuner :
    (at : AutotunerDecl) (known : Map (Option ℕ))
    → add_symbols (autotuner_symbols at) known ≡ declare at.name at.input_params known
unfolding autotuner_symbols add_symbols add_known callable plain is_callable
add_symbols-autotuner at known =
    (IsLocal-append (param_symbols input_param at.name "" at.input_params) _
        (IsLocal-inputs at.name "" at.input_params)
        (IsLocal-append (param_symbols output_param at.name "" at.output_params) _
          (IsLocal-outputs at.name at.output_params)
          (IsLocal-append (all_symbols at.name "" at.autotuner_variables)
            (states_symbols at.name at.states) (IsLocal-all at.name "" at.autotuner_variables)
            (IsLocal-states at.name at.states)))).same
      (declare at.name at.input_params known)

add_symbols-routine :
    (rt : RoutineDecl) (known : Map (Option ℕ))
    → add_symbols (routine_symbols rt) known ≡ declare rt.name rt.input_params known
unfolding routine_symbols add_symbols add_known callable plain is_callable
add_symbols-routine rt known =
    (IsLocal-routine_body rt.name rt).same (declare rt.name rt.input_params known)

add_symbols-autotuners :
    (ats : List AutotunerDecl) (known : Map (Option ℕ))
    → add_symbols (concat_map autotuner_symbols ats) known ≡ declare_autotuners ats known
unfolding concat_map declare_autotuners add_symbols
add_symbols-autotuners [] known = refl
add_symbols-autotuners (at ∷ ats) known =
    add_symbols-append (autotuner_symbols at) (concat_map autotuner_symbols ats) known
    ∙ ap (add_symbols (concat_map autotuner_symbols ats)) (add_symbols-autotuner at known)
    ∙ add_symbols-autotuners ats (declare at.name at.input_params known)

add_symbols-routines :
    (rts : List RoutineDecl) (known : Map (Option ℕ))
    → add_symbols (concat_map routine_symbols rts) known ≡ declare_routines rts known
unfolding concat_map declare_routines add_symbols
add_symbols-routines [] known = refl
add_symbols-routines (rt ∷ rts) known =
    add_symbols-append (routine_symbols rt) (concat_map routine_symbols rts) known
    ∙ ap (add_symbols (concat_map routine_symbols rts)) (add_symbols-routine rt known)
    ∙ add_symbols-routines rts (declare rt.name rt.input_params known)

abbrev import_symbols : Program → List Symbol
import_symbols p =
    map (path_symbol SymbolKind.import "import") p.imports
    ++ map (λ ffi. path_symbol SymbolKind.ffimport "ffimport" ffi.wrapper_file) p.ff_imports

IsLocal-imports : (p : Program) → IsLocal (import_symbols p)
unfolding path_symbol plain is_callable
IsLocal-imports p =
    IsLocal-append (map (path_symbol SymbolKind.import "import") p.imports)
      (map (λ ffi. path_symbol SymbolKind.ffimport "ffimport" ffi.wrapper_file) p.ff_imports)
      (IsLocal-map _ (λ path. refl) p.imports) (IsLocal-map _ (λ ffi. refl) p.ff_imports)

-- The functions that the check of a program's calls knows from its symbols are its autotuners and its
-- top-level routines, each with the number of its inputs, a later one in place of an earlier one of
-- the same name and a routine in place of an autotuner. No variable, state, field or routine of a
-- struct is among them, whatever its name.
pub known_callables-analyze :
    (p : Program)
    → known_callables (analyze p) ≡ declare_routines p.routines (declare_autotuners p.autotuners [])
unfolding known_callables analyze
known_callables-analyze p =
    let ats = concat_map autotuner_symbols p.autotuners in
    let rts = concat_map routine_symbols p.routines in
    let paths = import_symbols p in
    let first = declare_autotuners p.autotuners [] in
    add_symbols-append (concat_map struct_symbols p.structs) (ats ++ (rts ++ paths)) []
    ∙ ap (add_symbols (ats ++ (rts ++ paths)))
        ((IsLocal-concat_map struct_symbols IsLocal-struct p.structs).same [])
    ∙ add_symbols-append ats (rts ++ paths) []
    ∙ ap (add_symbols (rts ++ paths)) (add_symbols-autotuners p.autotuners [])
    ∙ add_symbols-append rts paths first
    ∙ ap (add_symbols paths) (add_symbols-routines p.routines first)
    ∙ (IsLocal-imports p).same (declare_routines p.routines first)
