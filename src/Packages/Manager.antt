-- ===== src/Packages/Manager.antt =====
-- `PackageManager` of dsl/package-manager/src/PackageManager.cpp: the commands over the manifest and
-- the cache of a project.
pub mod Laws
pub mod Names
pub mod Opening
use mathlib.Core.Option
use falcon_lib.Base.{String, Bool, true, false, Option, none, some, List, [], ◌∷◌, ◌++◌, map}
use falcon_lib.Base.{str_eq, ◌||◌, if◌then◌else◌}
use falcon_lib.Base.Text.{◌⊹◌, take_text}
use falcon_lib.Files.{
  FileSystem, canonical_in, exists, is_directory, create_directories, entries_below, entries_in,
}
use falcon_lib.Files.Paths.{join, parent_path, stem, has_extension}
use falcon_lib.Packages.Reply.{
  Reply, done, thrown, cannot_create, manifest_exists, cannot_parse_manifest, cannot_write_manifest,
  source_not_found, package_not_found,
}
use falcon_lib.Packages.Cache.{Tools, PackageCache, World, open_cache, store, invalidate}
use falcon_lib.Packages.Manifest.{
  Dependency, PackageManifest, Yaml, load, save, make_empty, find_root,
}
use falcon_lib.Packages.Resolver.{ResolvedImport, resolve_all}

pub record Session : Type 0 where
  pub project_root : String
  pub manifest : PackageManifest
  pub world : World

pub record InstalledPackage : Type 0 where
  pub name : String
  pub version : String
  pub github : String
  pub cached_path : String
  pub cached_sha256 : String

opened : String → PackageManifest → Option World → Reply Session
opened root m none = thrown (cannot_create root)
opened root m (some w) = done (record { project_root = root; manifest = m; world = w })

module _ (tools : Tools) (yaml : Yaml) where
  loaded : FileSystem → String → Option PackageManifest → Reply Session
  unfolding opened open_cache
  loaded fs root none = thrown (cannot_parse_manifest (join root "falcon.yml"))
  loaded fs root (some m) = opened root m (open_cache tools (join (join root ".falcon") "cache") fs)

  at_root : FileSystem → String → Option String → Reply Session
  unfolding loaded load
  at_root fs start (some root) = loaded fs root (load yaml fs (join root "falcon.yml"))
  at_root fs start none =
      let root = if is_directory fs start then start else parent_path start in
      loaded fs root (some (make_empty "(unnamed)"))

  -- The constructor; none when the search for falcon.yml ran out of fuel.
  unfoldable pub open_manager : FileSystem → String → Option (Reply Session)
  unfolding at_root find_root
  open_manager fs start = Option.map (at_root fs start) (find_root fs start)

manifest_written : String → FileSystem → Option FileSystem → Reply (Unit {0}) × FileSystem
manifest_written p fs none = (thrown (cannot_write_manifest p), fs)
manifest_written p fs (some after) = (done tt, after)

module _ (yaml : Yaml) where
  init_made : String → String → FileSystem → Option FileSystem → Reply (Unit {0}) × FileSystem
  unfolding manifest_written save make_empty
  init_made dir name fs none = (thrown (cannot_create dir), fs)
  init_made dir name fs (some made) =
      let p = join dir "falcon.yml" in manifest_written p made (save yaml (make_empty name) p made)

  -- `init`
  unfoldable pub init : String → String → FileSystem → Reply (Unit {0}) × FileSystem
  unfolding init_made create_directories
  init dir name fs =
      if exists fs (join dir "falcon.yml")
      then (thrown (manifest_exists dir), fs)
      else init_made dir name fs (create_directories fs (join (join dir ".falcon") "cache"))

with_world : {A : Type 0} → Session → Reply A × World → Reply A × Session
with_world s (reply, w) = (reply, record s { world = w })

unfoldable pub resolve_imports :
    Tools → String → List String → Session → Reply (List ResolvedImport) × Session
unfolding with_world resolve_all
resolve_imports tools fal_file imports s =
    with_world s (resolve_all tools s.project_root fal_file imports s.world)

listed : String → InstalledPackage
unfolding take_text stem
listed p = record {
  name = take_text 12 (stem p) ⊹ "...";
  version = "cached";
  github = "";
  cached_path = p;
  cached_sha256 = stem p;
}

fal_files : List String → List String
unfolding has_extension
fal_files [] = []
fal_files (p ∷ ps) = let rest = fal_files ps in if has_extension ".fal" p then p ∷ rest else rest

-- `list`: the copies in the cache directory, by their names
unfoldable pub list_packages : Session → List InstalledPackage
unfolding listed fal_files entries_in
list_packages s =
    let dir = join (join s.project_root ".falcon") "cache" in
    if exists s.world.files dir then map listed (fal_files (entries_in s.world.files dir)) else []

store_next : Reply String × World → (World → Reply (Unit {0}) × World) → Reply (Unit {0}) × World
store_next (thrown e, w) rest = (thrown e, w)
store_next (done p, w) rest = rest w

module _ (tools : Tools) where
  store_all : List String → World → Reply (Unit {0}) × World
  unfolding store_next store
  store_all [] w = (done tt, w)
  store_all (p ∷ ps) w = store_next (store tools p w) (λ after. store_all ps after)

  store_sources : String → World → Reply (Unit {0}) × World
  unfolding store_all store_next store fal_files entries_below
  store_sources source w =
      if is_directory w.files source
      then store_all (fal_files (entries_below w.files source)) w
      else store_next (store tools source w) (λ after. (done tt, after))

unfoldable pub has_dependency : String → List Dependency → Bool
has_dependency name [] = false
has_dependency name (d ∷ ds) = str_eq d.name name || has_dependency name ds

manifest_saved : Session → Reply (Unit {0}) × FileSystem → Reply (Unit {0}) × Session
manifest_saved s (reply, fs) = (reply, record s { world = record s.world { files = fs } })

module _ (yaml : Yaml) where
  -- The manifest is written only to a file that is there.
  save_manifest : Session → Reply (Unit {0}) × Session
  unfolding manifest_written manifest_saved save
  save_manifest s =
      let p = join s.project_root "falcon.yml" in
      let fs = s.world.files in
      if exists fs p
      then manifest_saved s (manifest_written p fs (save yaml s.manifest p fs))
      else (done tt, s)

with_dependencies : Session → List Dependency → Session
with_dependencies s ds = record s { manifest = record s.manifest { dependencies = ds } }

unfoldable pub new_dependency : String → String → FileSystem → Dependency
unfolding stem
new_dependency source version fs = record {
  name = stem source;
  version = version;
  github = none;
  local_path = some (canonical_in fs source);
}

module _ (yaml : Yaml) where
  unfoldable pub add_dependency : String → String → Session → Reply (Unit {0}) × Session
  unfolding has_dependency save_manifest with_dependencies new_dependency stem
  add_dependency source version s =
      let ds = s.manifest.dependencies in
      if has_dependency (stem source) ds
      then (done tt, s)
      else save_manifest yaml
          (with_dependencies s (ds ++ new_dependency source version s.world.files ∷ []))

  sources_stored : String → String → Session → Reply (Unit {0}) × World → Reply (Unit {0}) × Session
  unfolding add_dependency
  sources_stored source version s (thrown e, w) = (thrown e, record s { world = w })
  sources_stored source version s (done u, w) =
      add_dependency source version (record s { world = w })

  unfoldable pub install : Tools → String → String → Session → Reply (Unit {0}) × Session
  unfolding sources_stored store_sources
  install tools source version s =
      if exists s.world.files source
      then sources_stored source version s (store_sources tools source s.world)
      else (thrown (source_not_found source), s)

unfoldable pub find_dependency : String → List Dependency → Option Dependency
find_dependency name [] = none
find_dependency name (d ∷ ds) =
    let rest = find_dependency name ds in if str_eq d.name name then some d else rest

-- `erase` of the first dependency of that name
unfoldable pub erase_dependency : String → List Dependency → List Dependency
erase_dependency name [] = []
erase_dependency name (d ∷ ds) =
    let rest = erase_dependency name ds in if str_eq d.name name then ds else d ∷ rest

-- An exception of `invalidate` is caught.
invalidate_local : Tools → Option String → World → World
unfolding invalidate
invalidate_local tools none w = w
invalidate_local tools (some p) w = (invalidate tools p w).1

remove_found : Yaml → Tools → String → Session → Option Dependency → Reply (Unit {0}) × Session
unfolding save_manifest with_dependencies erase_dependency invalidate_local
remove_found yaml tools name s none = (thrown (package_not_found name), s)
remove_found yaml tools name s (some d) =
    let after = record s { world = invalidate_local tools d.local_path s.world } in
    save_manifest yaml (with_dependencies after (erase_dependency name s.manifest.dependencies))

unfoldable pub remove_package : Yaml → Tools → String → Session → Reply (Unit {0}) × Session
unfolding remove_found find_dependency
remove_package yaml tools name s =
    remove_found yaml tools name s (find_dependency name s.manifest.dependencies)
