-- ===== src/Samples/Projects.antt =====
-- The manifest and the commands of the package manager at a sample project.
use falcon_lib.Base.{true, false, ◌≡◌, refl, none, some, [], ◌∷◌, ◌↔◌}
use falcon_lib.Base.Maps.{is_some, lookup, insert}
use falcon_lib.Base.Text.{has_prefix, before_last_found}
use falcon_lib.Files.{file, directory, FileSystem, read}
use falcon_lib.Files.Paths.{canonical, join, stem, parent_path, filename}
use falcon_lib.Packages.Reply.{thrown, package_not_found}
use falcon_lib.Packages.Cache.{World, store, lookup_cached, cached_file, sha256_file}
use falcon_lib.Packages.Resolver.{ResolvedImport, resolve, resolve_local}
use falcon_lib.Packages.Resolver.Laws.{resolve_cached}
use falcon_lib.Packages.Manifest.{
  PackageManifest, Yaml, load, save, make_empty, find_root, saved_document,
}
use falcon_lib.Packages.Manifest.Laws.{load-save}
use falcon_lib.Packages.Manifest.Search.{find_root_ends}
use falcon_lib.Packages.Manager.{Session, install, remove_package, has_dependency}
use falcon_lib.Packages.Manager.Laws.{install_again, remove-install}
use falcon_lib.Packages.Manager.Names.{
  IsDistinct, here, next, installing, removing, Commands-IsDistinct, remove_package_unknown,
}
use falcon_lib.Samples.Packaging.{tools, files, world}

abbrev manifest : PackageManifest
manifest = record {
  name = "demo";
  version = "0.1.0";
  maintainer = "";
  github = "";
  dependencies =
      record { name = "gates"; version = "^1.0.0"; github = none; local_path = some "/lib/gates" }
      ∷ [];
}

-- It reads the one text that it writes.
yaml : Yaml
unfolding saved_document
yaml = record { emit = λ d. "name: demo"; parse = λ text. some (saved_document manifest) }

abbrev with_manifest : FileSystem
with_manifest = record {
  cwd = "/p";
  nodes = ("/p", directory) ∷ ("/p/falcon.yml", file "name: demo") ∷ [];
}

load-save_example : load yaml with_manifest "falcon.yml" ≡ some manifest
unfolding canonical parent_path has_prefix insert save yaml lookup
load-save_example =
    load-save yaml manifest "falcon.yml" (record { cwd = "/p"; nodes = ("/p", directory) ∷ [] })
      with_manifest refl refl

find_root_ends_example : is_some (find_root with_manifest "/p/src/a.fal") ≡ true
find_root_ends_example = find_root_ends with_manifest "/p/src/a.fal"

abbrev session : Session
session = record { project_root = "/p"; manifest = make_empty "demo"; world = world }

-- `install a.fal`, then again with another version.
abbrev installed : Session
installed = (install yaml tools "a.fal" "*" session).1

abbrev installed_again : Session
installed_again = (install yaml tools "a.fal" "2.0.0" installed).1

install_again_example :
    (has_dependency (stem "a.fal") installed.manifest.dependencies ≡ true)
    × (installed_again.manifest.dependencies ≡ installed.manifest.dependencies)
unfolding install store canonical join cached_file sha256_file lookup parent_path has_prefix insert
    yaml make_empty stem before_last_found has_dependency
install_again_example =
    install_again yaml tools "a.fal" "*" "2.0.0" session installed installed_again refl refl

remove-install_example :
    (remove_package yaml tools (stem "a.fal") installed).1.manifest.dependencies ≡ []
unfolding install store canonical join cached_file sha256_file lookup parent_path has_prefix insert
    yaml make_empty stem before_last_found has_dependency
remove-install_example = remove-install yaml tools "a.fal" "*" session installed refl refl

Commands-IsDistinct_example :
    IsDistinct (remove_package yaml tools "b" installed).1.manifest.dependencies
unfolding make_empty
Commands-IsDistinct_example =
    Commands-IsDistinct {s = session} (next (next here (installing "a.fal" "*")) (removing "b")) tt

remove_package_unknown_example :
    (remove_package yaml tools "b" session ≡ (thrown (package_not_found "b"), session))
    ↔ (has_dependency "b" session.manifest.dependencies ≡ false)
remove_package_unknown_example = remove_package_unknown yaml tools "b" session

-- An import of a file that the importing file's directory has.
abbrev resolved : World
resolved = (resolve tools "/p" "a.fal" "/p/b.fal" world).1

abbrev import_a : ResolvedImport
import_a = record {
  absolute_path = "/p/a.fal";
  cached_path = "/p/.falcon/cache/11.fal";
  module_name = "a";
  sha256 = "11";
}

resolve_cached_example :
    (lookup_cached tools resolved "/p/a.fal" ≡ some "/p/.falcon/cache/11.fal")
    × (read resolved.files "/p/.falcon/cache/11.fal" ≡ read files "/p/a.fal")
    × (sha256_file tools resolved.files "/p/a.fal" ≡ some "11")
    × ("a" ≡ stem "/p/a.fal")
unfolding resolve resolve_local store canonical join cached_file sha256_file lookup parent_path
    has_prefix insert stem before_last_found filename
resolve_cached_example =
    resolve_cached tools "/p" "a.fal" "/p/b.fal" import_a world resolved refl refl refl
