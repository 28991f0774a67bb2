-- ===== src/Samples/Loading.antt =====
-- The engine at sample programs and files.
use falcon_lib.Base.{
  ℕ, String, true, ◌≡◌, refl, sym, ap, ◌∙◌, ◌⊎◌, inl, inr, Option, none, some, List, [], ◌∷◌, map,
  arith, ◌%◌, ◌^◌,
}
use falcon_lib.Base.Maps.{is_some, keep, earlier, lookup, insert}
use falcon_lib.Base.Text.{has_prefix}
use falcon_lib.Errors.{ok, err, timeout}
use falcon_lib.Syntax.{AutotunerDecl, RoutineDecl, assign, to_variable}
use falcon_lib.Value.{FunctionResult}
use falcon_lib.Eval.{no_change}
use falcon_lib.Machine.{runner}
use falcon_lib.Files.{file, directory, FileSystem, read, canonical_in, create_directories}
use falcon_lib.Files.Paths.{canonical, join, stem, parent_path}
use falcon_lib.Packages.Reply.{Reply, done}
use falcon_lib.Packages.Resolver.{ResolvedImport}
use falcon_lib.Engine.{Engine, Program, qualified_name, strip_module, get_autotuner}
use falcon_lib.Engine.Bare.{IsLeast, get_autotuner_bare}
use falcon_lib.Engine.Foreign.{compute_file_hash}
use falcon_lib.Engine.Foreign.Hash.{base_33, read_hex, read_hex-compute_file_hash}
use falcon_lib.Engine.Load.Registering.{load_autotuner, register_program}
use falcon_lib.Engine.Load.{Outside, Loading, find_imports, load_main, load_fal_file, mem}
use falcon_lib.Engine.Load.Ends.{AllBelow, IsLayered, load_fal_file_ends}
use falcon_lib.Engine.Load.Cycle.{FirstImport, load_fal_file_cycle}
use falcon_lib.Engine.Run.{
  Call, run_inline, inline_env, interpret, engine_native, world_with, run_loaded, run_routine,
}
use falcon_lib.Engine.Run.Outputs.{values, run_inline-outputs}
use falcon_lib.Engine.Run.Calls.{load_autotuner_runs}
use falcon_lib.Samples.{no_native, empty_world, n_is, num, count_machine, count_output, at_nowhere}
use falcon_lib.Samples.Packaging.{tools, files}

abbrev no_engine : Engine
no_engine = record {
  functions = empty_world.functions;
  types = empty_world.types;
  loaded_autotuners = [];
  routine_declarations = [];
  loaded_programs = [];
  loaded_paths = [];
  loaded_programs_by_path = [];
  import_struct_hints = [];
  ffi_handles = [];
  first_handle = 5;
  closures = [];
}

abbrev counting : Engine
counting = load_autotuner "Counter" count_machine no_engine

-- Two autotuners of one name, the later module first.
abbrev idle_machine : AutotunerDecl
idle_machine = record count_machine { states = [] }

abbrev two_modules : Engine
two_modules = load_autotuner "Adder" count_machine (load_autotuner "Counter" idle_machine no_engine)

get_autotuner_bare_example : get_autotuner two_modules "count" ≡ some count_machine
unfolding load_autotuner strip_module lookup keep IsLeast earlier
get_autotuner_bare_example =
    get_autotuner_bare two_modules "count" "Adder::count" count_machine refl refl refl
      (λ e. refl, (λ e. refl, tt))

read_hex-compute_file_hash_example :
    read_hex 0 (compute_file_hash files "/p/a.fal") ≡ base_33 5381 "one" % 2 ^ 64
unfolding read lookup canonical has_prefix
read_hex-compute_file_hash_example = read_hex-compute_file_hash files "/p/a.fal" "one" refl

compute_file_hash_of_text : compute_file_hash files "/p/a.fal" ≡ "000000000b8899a7"
unfolding compute_file_hash read lookup canonical has_prefix
compute_file_hash_of_text = refl

-- routine seven() -> int n { n = 7; }
abbrev seven : RoutineDecl
seven = record {
  name = "seven";
  input_params = [];
  output_params = count_output ∷ [];
  body = at_nowhere (assign (to_variable "n" ∷ []) (num 7)) ∷ [];
}

run_inline-outputs_example :
    (results : FunctionResult) × (run_inline no_native 4 "seven" seven [] empty_world
      ≡ (ok results, empty_world))
    × (map some results ≡ values (count_output ∷ []) (n_is 7).vars)
unfolding runner inline_env
run_inline-outputs_example =
    run_inline-outputs no_native 4 "seven" seven [] empty_world no_change (n_is 7) refl

abbrev no_foreign : ℕ → Call
no_foreign address inputs w = (err timeout, w)

load_autotuner_runs_example :
    let after = counting in
    let result =
      interpret
        (engine_native no_foreign after 9 no_native 9)
        9
        9
        count_machine
        []
        (world_with no_foreign after 9 empty_world.heap) in
    (run_loaded no_foreign after 9 no_native 9
        (qualified_name "Counter" "count")
        []
        empty_world.heap
      ≡ result)
    × (run_routine no_foreign after 9 no_native 10 "count" [] empty_world.heap ≡ result)
    × (run_routine no_foreign after 9 no_native 10
          (qualified_name "Counter" "count")
          []
          empty_world.heap
        ≡ result)
load_autotuner_runs_example =
    load_autotuner_runs no_foreign 9 9 no_native "Counter" count_machine no_engine []
      empty_world.heap

abbrev no_program : Program
no_program = record {
  module_name = "";
  structs = [];
  autotuners = [];
  routines = [];
  imports = [];
  ff_imports = [];
}

abbrev outside : Outside
outside = record {
  tools = tools;
  yaml = record { parse = λ text. none; emit = λ d. "" };
  host = record { system = λ command fs. (1, fs); dlopen = λ fs p. none; dlsym = λ l name. none };
  parse_file = λ hints fs p. some no_program;
}

-- a.fal imports b.fal, which is in the cache already; c.fal imports itself.
abbrev project : FileSystem
project = record {
  cwd = "/p";
  nodes =
      ("/p", directory)
      ∷ ("/p/.falcon", directory)
      ∷ ("/p/.falcon/cache", directory)
      ∷ ("/p/a.fal", file "import \"b.fal\";")
      ∷ ("/p/b.fal", file "one")
      ∷ ("/p/c.fal", file "import \"c.fal\";")
      ∷ ("/p/.falcon/cache/11.fal", file "one")
      ∷ ("/p/.falcon/cache/ff.fal", file "import \"c.fal\";")
      ∷ ("/p/.falcon/cache/index.json", file "{}")
      ∷ [];
}

abbrev with_engine : Engine → Loading
with_engine engine = record { engine = engine; files = project }

abbrev import_b : ResolvedImport
import_b = record {
  absolute_path = "/p/b.fal";
  cached_path = "/p/.falcon/cache/11.fal";
  module_name = "b";
  sha256 = "11";
}

imports_a :
    (engine : Engine)
    → find_imports outside "/p/a.fal" (with_engine engine)
      ≡ some (done (import_b ∷ []), with_engine engine)
unfolding find_imports canonical lookup join has_prefix parent_path create_directories insert stem
imports_a engine = refl

imports_b :
    (engine : Engine)
    → find_imports outside "/p/b.fal" (with_engine engine) ≡ some (done [], with_engine engine)
unfolding find_imports canonical lookup join has_prefix parent_path create_directories insert stem
imports_b engine = refl

-- The depths of a.fal and b.fal in the project.
record Depth (n : ℕ) (path : String) (fs : FileSystem) : Type 0 where
  fs_eq : fs ≡ project
  which : ((n ≡ 1) × (path ≡ "/p/a.fal")) ⊎ ((n ≡ 0) × (path ≡ "/p/b.fal"))

abbrev Found : Type 0
Found = Option (Reply (List ResolvedImport) × Loading)

abbrev found_imports : Found → List ResolvedImport
found_imports (some (done imports, after)) = imports
found_imports _ = []

abbrev found_files : Found → FileSystem
found_files (some (reply, after)) = after.files
found_files none = project

below_found :
    (n : ℕ) (result : Found) {imports : List ResolvedImport} {after : Loading}
    → AllBelow outside Depth n (found_imports result) (found_files result)
    → result ≡ some (done imports, after)
    → AllBelow outside Depth n imports after.files
below_found n result h e = rw e at h

Depth-b : Depth 0 "/p/b.fal" project
Depth-b = record { fs_eq = refl; which = inr (refl, refl) }

-- The imports that the load of a file of the project finds; no file is changed.
record Finds (n : ℕ) (path : String) (l : Loading) : Type 0 where
  known : List ResolvedImport
  run_eq :
      find_imports outside (canonical_in l.files path) l ≡ some (done known, with_engine l.engine)
  smaller : AllBelow outside Depth n known project

finds : (n : ℕ) (path : String) (l : Loading) → Depth n path l.files → Finds n path l
unfolding canonical has_prefix
finds n path l good = elim good.which [
  | inl (n_eq, path_eq) ↦ record {
    known = import_b ∷ [];
    run_eq = rw (path_eq, good.fs_eq) (imports_a l.engine);
    smaller = rw n_eq ((0, omega arith, Depth-b), tt);
  }
  | inr (n_eq, path_eq) ↦ record {
    known = [];
    run_eq = rw (path_eq, good.fs_eq) (imports_b l.engine);
    smaller = tt;
  }
]

project_IsLayered : IsLayered outside Depth
unfolding load_main register_program
project_IsLayered = record {
  below = λ {n} {path} l after imports good e.
      let f = finds n path l good in
      below_found n (some (done f.known, with_engine l.engine)) {after = after} f.smaller
        (sym f.run_eq ∙ e);
  resolving = λ {n} {m} {path} l after reply good other e. record {
    fs_eq = sym (ap found_files (sym (finds n path l good).run_eq ∙ e));
    which = other.which;
  };
  loading = λ l abs good other. other;
}

load_fal_file_ends_example :
    is_some (load_fal_file outside 2 "/p/a.fal" (with_engine no_engine)).0 ≡ true
load_fal_file_ends_example =
    load_fal_file_ends outside Depth project_IsLayered 2 1 "/p/a.fal" (with_engine no_engine)
      (omega arith) (record { fs_eq = refl; which = inl (refl, refl) })

-- The load of c.fal, before it or c.fal again is loaded.
record Waiting (path : String) (l : Loading) : Type 0 where
  path_eq : path ≡ "/p/c.fal"
  loading_eq : l ≡ with_engine no_engine

abbrev import_c : ResolvedImport
import_c = record {
  absolute_path = "/p/c.fal";
  cached_path = "/p/.falcon/cache/ff.fal";
  module_name = "c";
  sha256 = "ff";
}

imports_c :
    find_imports outside "/p/c.fal" (with_engine no_engine)
    ≡ some (done (import_c ∷ []), with_engine no_engine)
unfolding find_imports canonical lookup join has_prefix parent_path create_directories insert stem
imports_c = refl

first_import :
    (path : String) (l : Loading)
    → Waiting path l
    → (i : FirstImport outside path l) × Waiting i.first.absolute_path i.after
unfolding canonical has_prefix lookup mem
first_import path l w =
    rw (w.path_eq, w.loading_eq)
      (
        record {
          there = refl;
          first = import_c;
          others = [];
          after = with_engine no_engine;
          found = imports_c;
          new = refl;
        },
        record { path_eq = refl; loading_eq = refl },
      )

load_fal_file_cycle_example : (load_fal_file outside 9 "/p/c.fal" (with_engine no_engine)).0 ≡ none
load_fal_file_cycle_example =
    load_fal_file_cycle outside Waiting first_import 9 "/p/c.fal" (with_engine no_engine)
      (record { path_eq = refl; loading_eq = refl })
