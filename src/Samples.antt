-- ===== src/Samples.antt =====
-- Sample programs and data that the tests run.
pub mod Interpreting
pub mod Declaring
pub mod Collections
pub mod Packaging
pub mod Projects
pub mod Loading
pub mod Editing
pub mod Texts
use falcon_lib.Base.{
  ℕ, ◌+◌, String, Bool, true, false, Option, none, some, List, [], ◌∷◌, ltb, leb, ◌==◌,
}
use falcon_lib.Base.Int.{ℤ, pos, pos_part}
use falcon_lib.Errors.{Result, ok, err, exception, native_error}
use falcon_lib.Syntax.{
  Location, Expr, literal, variable, binary, int_literal, int_type, simple, Stmt, stmt, StmtForm,
  var_decl, assign, to_variable, if_stmt, transition, terminal, Stmts, cons_stmt, end_stmts,
  ParamDecl, StateDecl, AutotunerDecl,
}
use falcon_lib.Value.{Floats, int}
use falcon_lib.Registry.Types
use falcon_lib.Eval.{World, State, Native}

-- "Doubles" that hold natural numbers.
abbrev pub natural_floats : Floats
natural_floats = record {
  add = λ a b. a + b;
  sub = λ a b. a;
  mul = λ a b. a;
  div = λ a b. a;
  neg = λ a. a;
  lt = ltb;
  le = leb;
  eq = ◌==◌;
  of_int = pos_part;
}

-- No native function is there.
abbrev pub no_native : Native
no_native = record {
  floats = natural_floats;
  call_function = λ f params w. (err (exception (native_error "none")), w);
  call_method = λ m object params w. (err (exception (native_error "none")), w);
}

abbrev pub empty_world : World
empty_world = record {
  heap = record { tuples = []; structs = []; arrays = [] };
  types = Types.empty;
  functions = record { functions = []; signatures = []; routines = []; builtin_registry = [] };
}

abbrev pub empty_state : State
empty_state = record { vars = []; world = empty_world }

abbrev pub nowhere : Location
nowhere = record { filename = ""; line = 0; column = 0 }

abbrev pub at_nowhere : StmtForm → Stmt
at_nowhere = stmt nowhere

abbrev pub num : ℕ → Expr
num n = literal (int_literal (pos n))

-- The environment that has n alone.
abbrev pub n_is : ℕ → State
n_is i = record { vars = ("n", int (pos i)) ∷ []; world = empty_world }

-- int m = n; if (n < 2) { n = n + 1; -> loop; } else { terminal; }
abbrev pub count_body : List Stmt
count_body =
    at_nowhere
      (var_decl (record { type = simple int_type; name = "m"; initializer = some (variable "n") }))
    ∷ at_nowhere (
        if_stmt (binary "<" (variable "n") (num 2))
          (cons_stmt
            (at_nowhere (assign (to_variable "n" ∷ []) (binary "+" (variable "n") (num 1))))
            (cons_stmt (at_nowhere (transition "loop" [])) end_stmts))
          (cons_stmt (at_nowhere terminal) end_stmts))
    ∷ []

abbrev pub count_output : ParamDecl
count_output = record { type = simple int_type; name = "n"; default_value = some (num 0) }

abbrev pub count_state : StateDecl
count_state = record { name = "loop"; input_parameters = []; body = count_body }

abbrev pub count_machine : AutotunerDecl
count_machine = record {
  name = "count";
  input_params = [];
  output_params = count_output ∷ [];
  autotuner_variables = [];
  entry_state = "loop";
  entry_parameters = [];
  states = count_state ∷ [];
}
