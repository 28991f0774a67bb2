-- ===== src/Engine/Foreign.antt =====
-- Native code for the engine (dsl/src/AutotunerEngine.cpp): the hash of a wrapper's source, its
-- compilation, the symbols that it gives, and the routines registered with them. The shell, the
-- dynamic loader and the compiled code are parameters.
pub mod Hash
use Prim.Native.Char.{Char, code}
use Prim.Native.String.{[], ◌∷◌}
use mathlib.Core.List
use falcon_lib.Base.{
  ℕ, zero, suc, ◌+◌, ◌*◌, ◌/◌, ◌%◌, ◌^◌, ◌-◌, ltb, String, Bool, true, false, Option, none, some,
  List, ◌++◌, str_eq, ◌==◌, if◌then◌else◌,
}
use falcon_lib.Base.Text.{◌⊹◌, take_text, text_length}
use falcon_lib.Base.Maps.{lookup}
use falcon_lib.Syntax.{RoutineDecl, StructDecl}
use falcon_lib.Registry.Types.{TypeRegistry, register_ffi_method}
use falcon_lib.Registry.Functions.{FunctionRegistry, RoutineInfo, register_routine}
use falcon_lib.Files.{FileSystem, read, exists, create_directories}
use falcon_lib.Files.Paths.{join, parent_path, stem}
use falcon_lib.Engine.{
  FfImportDecl, Program, foreign_function, Engine, has_body, signature, next_handle, add_closure,
}

-- `((h << 5) + h) + c` on 64 bits, over the bytes of a text.
djb2 : ℕ → String → ℕ
djb2 h [] = h
djb2 h (x ∷ s) = djb2 ((h * 33 + code x) % 2 ^ 64) s

nth_char : ℕ → String → Char
nth_char n [] = "0"
nth_char zero (x ∷ s) = x
nth_char (suc n) (x ∷ s) = nth_char n s

hex_digit : ℕ → Char
unfolding nth_char
hex_digit n = nth_char n "0123456789abcdef"

-- The hexadecimal digits of n in front of `done`; there are at most n + 1.
hex : ℕ → ℕ → String → String
unfolding hex_digit
hex zero n done = done
hex (suc fuel) n done = elim (ltb n 16) [
  | true ↦ hex_digit n ∷ done
  | false ↦ hex fuel (n / 16) (hex_digit (n % 16) ∷ done)
]

zeros : ℕ → String
zeros zero = ""
zeros (suc n) = "0" ∷ zeros n

-- `std::setw(w)` with `std::setfill('0')`: a least width
pad : ℕ → String → String
unfolding zeros
pad w s = zeros (w - text_length s) ⊹ s

hash_text : Option String → String
unfolding djb2 hex pad
hash_text none = "00000000000000000000000000000000"
hash_text (some text) = let h = djb2 5381 text in pad 16 (hex (suc h) h "")

unfoldable pub compute_file_hash : FileSystem → String → String
unfolding hash_text
compute_file_hash fs path = hash_text (read fs path)

-- `std::system` with the exit status, `dlopen` and `dlsym` with the addresses they give.
pub record Host : Type 0 where
  pub system : String → FileSystem → ℕ × FileSystem
  pub dlopen : FileSystem → String → Option ℕ
  pub dlsym : ℕ → String → Option ℕ

-- The words, each after a space.
spaced : List String → String
spaced List.[] = ""
spaced (List.◌∷◌ w ws) = " " ⊹ w ⊹ spaced ws

compile_command : FfImportDecl → String → String → String
unfolding spaced
compile_command ffi so_path wrapper =
    "clang++ -std=c++17 -fPIC -shared -O2 -o \""
    ⊹ so_path
    ⊹ "\""
    ⊹ spaced ffi.imports
    ⊹ " \""
    ⊹ wrapper
    ⊹ "\""
    ⊹ spaced ffi.build_libs

unfoldable pub so_name : FileSystem → String → String
unfolding compute_file_hash take_text stem
so_name fs wrapper = stem wrapper ⊹ "_" ⊹ take_text 16 (compute_file_hash fs wrapper) ⊹ ".so"

-- The library is compiled only when it is not there; none when the compiler fails.
build_library : Host → FfImportDecl → String → String → FileSystem → Option FileSystem
unfolding compile_command
build_library host ffi so_path wrapper fs =
    if exists fs so_path
    then some fs
    else (let (status, after) = host.system (compile_command ffi so_path wrapper) fs in
        if status == 0 then some after else none)

-- A method under the plain name of its struct.
bind_method : String → String → Option ℕ → Engine → Engine
unfolding next_handle add_closure register_ffi_method
bind_method type_name method none engine = engine
bind_method type_name method (some address) engine =
    record (add_closure (foreign_function address) engine) {
      types = register_ffi_method type_name method (next_handle engine) engine.types;
    }

register_methods : Host → ℕ → String → List RoutineDecl → Engine → Engine
unfolding has_body bind_method
register_methods host library type_name List.[] engine = engine
register_methods host library type_name (List.◌∷◌ r rs) engine =
    register_methods host library type_name rs (
      if has_body r
      then engine
      else bind_method type_name r.name (host.dlsym library ("STRUCT" ⊹ type_name ⊹ r.name)) engine)

unfoldable pub register_structs_methods : Host → ℕ → List StructDecl → Engine → Engine
unfolding register_methods
register_structs_methods host library List.[] engine = engine
register_structs_methods host library (List.◌∷◌ s ss) engine =
    register_structs_methods host library ss
      (register_methods host library s.name s.routines engine)

foreign_info : String → Bool → String → RoutineDecl → ℕ → RoutineInfo
unfolding signature
foreign_info name returns_required library_path decl handle = record {
  name = name;
  library_path = library_path;
  function = handle;
  signature = signature decl.name returns_required decl.input_params decl.output_params;
}

-- A routine of native code, registered under `name`; its signature has the declared name.
bind_routine : String → Bool → String → RoutineDecl → Option ℕ → Engine → Engine
unfolding next_handle add_closure foreign_info register_routine
bind_routine name required library_path decl none engine = engine
bind_routine name required library_path decl (some address) engine =
    record (add_closure (foreign_function address) engine) {
      functions =
          register_routine (foreign_info name required library_path decl (next_handle engine))
            engine.functions;
    }

unfoldable pub register_foreign_routines : Host → ℕ → String → List RoutineDecl → Engine → Engine
unfolding has_body bind_routine
register_foreign_routines host library so_path List.[] engine = engine
register_foreign_routines host library so_path (List.◌∷◌ r rs) engine =
    register_foreign_routines host library so_path rs (
      if has_body r
      then engine
      else bind_routine r.name false so_path r (host.dlsym library r.name) engine)

register_library : Host → String → Program → Option ℕ → Engine → Bool × Engine
unfolding register_structs_methods register_foreign_routines
register_library host so_path program none engine = (false, engine)
register_library host so_path program (some library) engine =
    let opened = record engine { ffi_handles = engine.ffi_handles ++ List.◌∷◌ library List.[] } in
    (
      true,
      register_foreign_routines host library so_path program.routines
          (register_structs_methods host library program.structs opened),
    )

module _ (host : Host) (ffi : FfImportDecl) (program : Program) where
  library_built : String → Option FileSystem → Engine → FileSystem → Bool × Engine × FileSystem
  unfolding register_library
  library_built so_path none engine fs = (false, engine, fs)
  library_built so_path (some built) engine fs =
      let (loaded, after) =
        register_library host so_path program (host.dlopen built so_path) engine in
      (loaded, after, built)

  directory_made : String → Option FileSystem → Engine → FileSystem → Bool × Engine × FileSystem
  unfolding library_built so_name build_library
  directory_made fal_dir none engine fs = (false, engine, fs)
  directory_made fal_dir (some made) engine fs =
      let wrapper = join (parent_path fal_dir) ffi.wrapper_file in
      let cache_dir = join (join (parent_path fal_dir) ".falcon") "cache" in
      let so_path = join cache_dir (so_name made wrapper) in
      library_built so_path (build_library host ffi so_path wrapper made) engine made

  -- What the function throws its caller turns into false.
  unfoldable pub process_ff_import : String → Engine → FileSystem → Bool × Engine × FileSystem
  unfolding directory_made create_directories
  process_ff_import fal_dir engine fs =
      let cache_dir = join (join (parent_path fal_dir) ".falcon") "cache" in
      if exists fs (join (parent_path fal_dir) ffi.wrapper_file)
      then directory_made fal_dir (create_directories fs cache_dir) engine fs
      else (false, engine, fs)

-- `RoutineConfig`
pub record RoutineConfig : Type 0 where
  pub name : String
  pub name_space : String
  pub library_path : String

library_symbol : RoutineConfig → String
library_symbol info =
    if str_eq info.name_space "" then info.name else info.name_space ⊹ "::" ⊹ info.name

symbol_found : RoutineConfig → RoutineDecl → Option ℕ → Engine → Bool × Engine
unfolding bind_routine
symbol_found info decl none engine = (false, engine)
symbol_found info decl (some address) engine =
    (true, bind_routine info.name true info.library_path decl (some address) engine)

library_found : Host → RoutineConfig → RoutineDecl → Option ℕ → Engine → Bool × Engine
unfolding symbol_found library_symbol
library_found host info decl none engine = (false, engine)
library_found host info decl (some library) engine =
    symbol_found info decl (host.dlsym library (library_symbol info)) engine

declared_routine : Host → RoutineConfig → Option RoutineDecl → FileSystem → Engine → Bool × Engine
unfolding library_found
declared_routine host info none fs engine = (false, engine)
declared_routine host info (some decl) fs engine =
    library_found host info decl (host.dlopen fs info.library_path) engine

unfoldable pub load_routine_library : Host → RoutineConfig → FileSystem → Engine → Bool × Engine
unfolding declared_routine lookup
load_routine_library host info fs engine =
    declared_routine host info (lookup info.name engine.routine_declarations) fs engine
