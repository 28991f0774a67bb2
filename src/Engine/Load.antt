-- ===== src/Engine/Load.antt =====
-- `AutotunerEngine::load_fal_file` of dsl/src/AutotunerEngine.cpp: the imports of a file are loaded
-- before the file itself. The compiler front end is a parameter. A load calls itself for each
-- import that was not loaded yet, and so runs on fuel: one unit for a file inside another.
pub mod Registering
pub mod Ends
pub mod Cycle
use mathlib.Core.Option
use falcon_lib.Base.{
  ℕ, zero, suc, String, Bool, true, false, Option, none, some, List, [], ◌∷◌, ◌++◌, str_eq,
  if◌then◌else◌, ◌||◌,
}
use falcon_lib.Base.Text.{◌⊹◌}
use falcon_lib.Base.Maps.{Map, lookup, insert, keep}
use falcon_lib.Syntax.{StructDecl}
use falcon_lib.Files.{FileSystem, exists, canonical_in}
use falcon_lib.Packages.Reply.{Reply, done, thrown}
use falcon_lib.Packages.Cache.{Tools}
use falcon_lib.Packages.Manifest.{Yaml}
use falcon_lib.Packages.Resolver.{ResolvedImport}
use falcon_lib.Packages.Manager.{Session, open_manager, resolve_imports}
use falcon_lib.Engine.{Program, Engine}
use falcon_lib.Engine.Imports.{extract_imports_from_file}
use falcon_lib.Engine.Foreign.{Host}
use falcon_lib.Engine.Load.Registering.{register_program}

-- What a load calls: the libraries of the package manager, the host, and the parser, which takes
-- the struct names that it is to accept.
pub record Outside : Type 0 where
  pub tools : Tools
  pub yaml : Yaml
  pub host : Host
  pub parse_file : List String → FileSystem → String → Option Program

pub record Loading : Type 0 where
  pub engine : Engine
  pub files : FileSystem

-- The value that was returned, or none when the fuel ran out.
abbrev pub Outcome : Type 0
Outcome = Option Bool × Loading

unfoldable pub mem : String → List String → Bool
mem p [] = false
mem p (q ∷ qs) = str_eq q p || mem p qs

-- `insert` into a set
add : String → List String → List String
unfolding mem
add p set = if mem p set then set else p ∷ set

add_hints : String → List StructDecl → List String → List String
unfolding add
add_hints module_name [] hints = hints
add_hints module_name (s ∷ ss) hints =
    add_hints module_name ss (add (module_name ⊹ "::" ⊹ s.name) (add s.name hints))

hints_of : ResolvedImport → Option Program → List String → List String
unfolding add_hints
hints_of imp none hints = hints
hints_of imp (some program) hints = add_hints imp.module_name program.structs hints

with_hints : ResolvedImport → Loading → Loading
unfolding hints_of lookup
with_hints imp l = record l {
  engine = record l.engine {
    import_struct_hints =
        hints_of imp (lookup imp.absolute_path l.engine.loaded_programs_by_path)
          l.engine.import_struct_hints;
  };
}

is_empty : List String → Bool
is_empty [] = true
is_empty (s ∷ ss) = false

-- The session of the package manager and the imports it resolved; an exception ends the load.
resolved : Loading → Reply (List ResolvedImport) × Session → Reply (List ResolvedImport) × Loading
resolved l (reply, session) = (reply, record l { files = session.world.files })

opened :
    Outside → String → List String → Loading → Reply Session → Reply (List ResolvedImport) × Loading
unfolding resolve_imports resolved is_empty
opened out abs imports l (thrown e) = (thrown e, l)
opened out abs imports l (done session) =
    let here = record l { files = session.world.files } in
    if is_empty imports
    then (done [], here)
    else resolved here (resolve_imports out.tools abs imports session)

-- The package manager of the file, and the imports that it resolves. None when the search for its
-- manifest ran out of fuel.
unfoldable pub find_imports :
    Outside → String → Loading → Option (Reply (List ResolvedImport) × Loading)
unfolding opened open_manager extract_imports_from_file
find_imports out abs l =
    Option.map (λ reply. opened out abs (extract_imports_from_file l.files abs) l reply)
      (open_manager out.tools out.yaml l.files abs)

-- The imports in order, with `load` for a file that was not loaded yet. The first that fails ends it.
after_import : Outcome → (Loading → Outcome) → Outcome
after_import (none, l) next = (none, l)
after_import (some false, l) next = (some false, l)
after_import (some true, l) next = next l

module _ (load : String → Loading → Outcome) where
  load_import : ResolvedImport → Loading → Outcome
  unfolding mem
  load_import imp l =
      if mem imp.absolute_path l.engine.loaded_paths
      then (some true, l)
      else load imp.absolute_path l

  unfoldable pub load_imports : List ResolvedImport → Loading → Outcome
  unfolding after_import load_import with_hints
  load_imports [] l = (some true, l)
  load_imports (imp ∷ imps) l =
      after_import (load_import imp l) (λ after. load_imports imps (with_hints imp after))

-- The program is kept, and its path marked as loaded.
remember : String → Program → Loading → Loading
unfolding add
remember abs program l = record l {
  engine = record l.engine {
    loaded_paths = add abs l.engine.loaded_paths;
    loaded_programs_by_path = insert abs program l.engine.loaded_programs_by_path;
    loaded_programs = l.engine.loaded_programs ++ program ∷ [];
  };
}

registered : String → Program → Bool × Engine × FileSystem → Outcome
unfolding remember
registered abs program (false, engine, fs) = (some false, record { engine = engine; files = fs })
registered abs program (true, engine, fs) =
    (some true, remember abs program (record { engine = engine; files = fs }))

parsed : Outside → String → Loading → Option Program → Outcome
unfolding registered register_program
parsed out abs l none = (some false, l)
parsed out abs l (some program) =
    registered abs program (register_program out.host abs program l.engine l.files)

unfoldable pub load_main : Outside → String → Loading → Outcome
unfolding parsed
load_main out abs l = parsed out abs l (out.parse_file l.engine.import_struct_hints l.files abs)

module _ (out : Outside) (load : String → Loading → Outcome) where
  imports_found : String → Loading → Option (Reply (List ResolvedImport) × Loading) → Outcome
  unfolding after_import load_imports load_main
  imports_found abs l none = (none, l)
  imports_found abs l (some (thrown e, after)) = (some false, after)
  imports_found abs l (some (done imports, after)) =
      after_import (load_imports load imports after) (load_main out abs)

  -- The body of the function, with `load` for its calls of itself.
  unfoldable pub load_step : String → Loading → Outcome
  unfolding imports_found find_imports
  load_step path l =
      let abs = canonical_in l.files path in
      if exists l.files path then imports_found abs l (find_imports out abs l) else (some false, l)

unfoldable pub load_fal_file : Outside → ℕ → String → Loading → Outcome
unfolding load_step
load_fal_file out zero path l = (none, l)
load_fal_file out (suc fuel) path l = load_step out (load_fal_file out fuel) path l
