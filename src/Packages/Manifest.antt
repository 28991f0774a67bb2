-- ===== src/Packages/Manifest.antt =====
-- `PackageManifest` of dsl/package-manager/src/PackageManifest.cpp: the project's falcon.yml, and
-- the search for the directory that holds it.
pub mod Laws
pub mod Search
use falcon_lib.Base.Text.{text_length}
use mathlib.Core.Option
use falcon_lib.Base.{
  ℕ, zero, suc, String, Bool, true, false, Option, none, some, List, [], ◌∷◌, map,
}
use falcon_lib.Base.{str_eq, not, ◌&&◌, if◌then◌else◌}
use falcon_lib.Base.Maps.{present_or}
use falcon_lib.Files.{FileSystem, exists, read, write, is_directory}
use falcon_lib.Files.Paths.{join, parent_path}

pub record Dependency : Type 0 where
  pub name : String
  pub version : String
  pub github : Option String
  pub local_path : Option String

pub record PackageManifest : Type 0 where
  pub name : String
  pub version : String
  pub maintainer : String
  pub github : String
  pub dependencies : List Dependency

-- The YAML document as the code reads it: the scalars under the keys that it asks for. A key
-- "dependencies" that is missing, or that holds no sequence, is none.
pub record DependencyNode : Type 0 where
  pub name : Option String
  pub version : Option String
  pub github : Option String
  pub local_path : Option String

pub record Document : Type 0 where
  pub name : Option String
  pub version : Option String
  pub maintainer : Option String
  pub github : Option String
  pub dependencies : Option (List DependencyNode)

-- `YAML::LoadFile` on the text of the file, none when it throws, and `YAML::Emitter`.
pub record Yaml : Type 0 where
  pub parse : String → Option Document
  pub emit : Document → String

load_dependency : DependencyNode → Dependency
unfolding present_or
load_dependency n = record {
  name = present_or n.name "";
  version = present_or n.version "*";
  github = n.github;
  local_path = n.local_path;
}

load_dependencies : Option (List DependencyNode) → List Dependency
unfolding load_dependency
load_dependencies none = []
load_dependencies (some ns) = map load_dependency ns

load_document : Document → PackageManifest
unfolding load_dependencies present_or
load_document d = record {
  name = present_or d.name "";
  version = present_or d.version "0.0.0";
  maintainer = present_or d.maintainer "";
  github = present_or d.github "";
  dependencies = load_dependencies d.dependencies;
}

saved_dependency : Dependency → DependencyNode
saved_dependency d = record {
  name = some d.name;
  version = some d.version;
  github = d.github;
  local_path = d.local_path;
}

unfoldable pub saved_document : PackageManifest → Document
unfolding saved_dependency
saved_document m = record {
  name = some m.name;
  version = some m.version;
  maintainer = some m.maintainer;
  github = some m.github;
  dependencies = some (map saved_dependency m.dependencies);
}

module _ (yaml : Yaml) where
  load_text : Option String → Option PackageManifest
  unfolding load_document
  load_text none = none
  load_text (some text) = Option.map load_document (yaml.parse text)

  unfoldable pub load : FileSystem → String → Option PackageManifest
  unfolding load_text
  load fs p = load_text (read fs p)

  unfoldable pub save : PackageManifest → String → FileSystem → Option FileSystem
  unfolding saved_document
  save m p fs = write fs p (yaml.emit (saved_document m))

unfoldable pub make_empty : String → PackageManifest
make_empty name = record {
  name = name;
  version = "0.1.0";
  maintainer = "";
  github = "";
  dependencies = [];
}

-- The loop of `find_root`; none when the fuel has run out.
find_root_from : ℕ → FileSystem → String → Option (Option String)
find_root_from zero fs dir = none
find_root_from (suc fuel) fs dir =
    let rest = find_root_from fuel fs (parent_path dir) in
    if exists fs (join dir "falcon.yml")
    then some (some dir)
    else if str_eq (parent_path dir) dir
    then some none
    else rest

start_directory : FileSystem → String → String
start_directory fs dir = if exists fs dir && not (is_directory fs dir) then parent_path dir else dir

-- A path has at most as many parents as characters.
unfoldable pub find_root : FileSystem → String → Option (Option String)
unfolding find_root_from start_directory
find_root fs start =
    let dir = start_directory fs (join fs.cwd start) in
    find_root_from (suc (text_length dir)) fs dir
