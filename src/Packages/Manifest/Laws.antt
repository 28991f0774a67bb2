-- ===== src/Packages/Manifest/Laws.antt =====
-- `save` with `load`, and the loop of `find_root`.
use falcon_lib.Base.{String, ◌≡◌, refl, ap, some, List, [], ◌∷◌, map}
use falcon_lib.Base.Maps.{present_or}
use falcon_lib.Files.{FileSystem}
use falcon_lib.Files.Laws.{write-IsWritten, read_written}
use falcon_lib.Packages.Manifest.{
  Dependency, PackageManifest, Yaml, load, save, load_text, load_document, saved_document,
  load_dependency, saved_dependency, load_dependencies,
}

load-saved_dependencies :
    (ds : List Dependency) → map load_dependency (map saved_dependency ds) ≡ ds
unfolding load_dependency saved_dependency present_or
load-saved_dependencies [] = refl
load-saved_dependencies (d ∷ ds) = ap (λ rest. d ∷ rest) (load-saved_dependencies ds)

load-saved_document : (m : PackageManifest) → load_document (saved_document m) ≡ m
unfolding load_document saved_document load_dependencies present_or
load-saved_document m =
    ap (λ ds. record m { dependencies = ds }) (load-saved_dependencies m.dependencies)

-- A manifest that was saved is loaded as it was, with every dependency in its place and the optional
-- keys that were left out left out. (The YAML library reads back the document that it wrote.)
pub load-save :
    (yaml : Yaml) (m : PackageManifest) (p : String) (fs after : FileSystem)
    → yaml.parse (yaml.emit (saved_document m)) ≡ some (saved_document m)
    → save yaml m p fs ≡ some after
    → load yaml after p ≡ some m
unfolding load save load_text
load-save yaml m p fs after reads e =
    let text = yaml.emit (saved_document m) in
    rw (read_written (write-IsWritten fs p text after e), reads) (ap some (load-saved_document m))
