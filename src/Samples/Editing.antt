-- ===== src/Samples/Editing.antt =====
-- The language server at a sample program.
use falcon_lib.Base.{◌≡◌, refl, none, some, [], ◌∷◌}
use falcon_lib.Syntax.{RoutineDecl, call, expr_stmt, end_args, cons_arg}
use falcon_lib.Engine.{Program}
use falcon_lib.Server.Symbols.{analyze}
use falcon_lib.Server.Diagnostics.{make_semantic_diag, wrong_count, known_callables, diagnose}
use falcon_lib.Server.Diagnostics.Known.{
  known_callables-analyze, declare_routines, declare_autotuners,
}
use falcon_lib.Samples.{nowhere, num, at_nowhere, count_output, count_machine}

-- routine once() -> int n { once(1); }
abbrev once : RoutineDecl
once = record {
  name = "once";
  input_params = [];
  output_params = count_output ∷ [];
  body = at_nowhere (expr_stmt (call nowhere "once" (cons_arg none (num 1) end_args))) ∷ [];
}

abbrev program : Program
program = record {
  module_name = "";
  structs = [];
  autotuners = count_machine ∷ [];
  routines = once ∷ [];
  imports = [];
  ff_imports = [];
}

-- The call has an argument too many.
program_diagnostics :
    diagnose [] (analyze program) (some program)
    ≡ make_semantic_diag (wrong_count "once" 0 1) nowhere ∷ []
unfolding diagnose analyze
program_diagnostics = refl

known_callables-analyze_example :
    known_callables (analyze program)
    ≡ declare_routines (once ∷ []) (declare_autotuners (count_machine ∷ []) [])
known_callables-analyze_example = known_callables-analyze program
