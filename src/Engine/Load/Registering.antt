-- ===== src/Engine/Load/Registering.antt =====
-- The registration of a parsed program, in the order of `load_fal_file`: structs, native code,
-- autotuners, routines.
use falcon_lib.Base.{String, Bool, true, false, not, List, [], ◌∷◌, str_eq, if◌then◌else◌}
use falcon_lib.Base.Maps.{Map, insert, keep}
use falcon_lib.Syntax.{AutotunerDecl, RoutineDecl, StructDecl}
use falcon_lib.Registry.Types.{TypeRegistry, register_struct}
use falcon_lib.Files.{FileSystem}
use falcon_lib.Engine.{
  FfImportDecl, Program, Engine, has_body, qualified_name, register_autotuner_as_function,
  register_inline_routine,
}
use falcon_lib.Engine.Foreign.{Host, process_ff_import}

-- `erase` followed by `insert`
unfoldable pub replace : {V : Type 0} → String → V → Map V → Map V
replace k v m = insert k v (keep (λ j. not (str_eq j k)) m)

register_structs : String → List StructDecl → TypeRegistry → TypeRegistry
unfolding register_struct
register_structs module_name [] types = types
register_structs module_name (s ∷ ss) types =
    register_structs module_name ss (register_struct (record s { module_name = module_name }) types)

-- A foreign import that fails ends the load; the earlier ones stay.
after_foreign :
    Bool × Engine × FileSystem
    → (Engine → FileSystem → Bool × Engine × FileSystem)
    → Bool × Engine × FileSystem
after_foreign (false, engine, fs) next = (false, engine, fs)
after_foreign (true, engine, fs) next = next engine fs

module _ (host : Host) (abs : String) (program : Program) where
  process_ff_imports : List FfImportDecl → Engine → FileSystem → Bool × Engine × FileSystem
  unfolding after_foreign process_ff_import
  process_ff_imports [] engine fs = (true, engine, fs)
  process_ff_imports (ffi ∷ ffis) engine fs =
      after_foreign (process_ff_import host ffi program abs engine fs) (process_ff_imports ffis)

unfoldable pub load_autotuner : String → AutotunerDecl → Engine → Engine
unfolding replace qualified_name register_autotuner_as_function
load_autotuner module_name decl engine =
    register_autotuner_as_function module_name decl (record engine {
      loaded_autotuners =
          replace (qualified_name module_name decl.name) decl engine.loaded_autotuners;
    })

unfoldable pub load_autotuners : String → List AutotunerDecl → Engine → Engine
unfolding load_autotuner
load_autotuners module_name [] engine = engine
load_autotuners module_name (d ∷ ds) engine =
    load_autotuners module_name ds (load_autotuner module_name d engine)

load_routine : String → RoutineDecl → Engine → Engine
unfolding has_body replace qualified_name register_inline_routine
load_routine module_name decl engine =
    let after = if has_body decl then register_inline_routine module_name decl engine else engine in
    record after {
      routine_declarations =
          replace (qualified_name module_name decl.name) decl after.routine_declarations;
    }

unfoldable pub load_routines : String → List RoutineDecl → Engine → Engine
unfolding load_routine
load_routines module_name [] engine = engine
load_routines module_name (d ∷ ds) engine =
    load_routines module_name ds (load_routine module_name d engine)

unfoldable pub register_program :
    Host → String → Program → Engine → FileSystem → Bool × Engine × FileSystem
unfolding register_structs process_ff_imports after_foreign load_autotuners load_routines
register_program host abs program engine fs =
    let typed = record engine {
      types = register_structs program.module_name program.structs engine.types;
    } in
    after_foreign (process_ff_imports host abs program program.ff_imports typed fs) (λ after files.
      (
        true,
        load_routines program.module_name program.routines
            (load_autotuners program.module_name program.autotuners after),
        files,
      ))
