-- ===== src/Packages/Manager/Laws.antt =====
-- The dependencies of the manifest over the commands of the manager.
use falcon_lib.Base.{
  String, true, false, ◌≡◌, refl, sym, ap, ◌∙◌, some, List, [], ◌∷◌, ◌++◌, arith, eq_refl, inl, inr,
  str_eq, ◌||◌, if◌then◌else◌, Bool-cases,
}
use falcon_lib.Files.{exists}
use falcon_lib.Files.Paths.{stem}
use falcon_lib.Packages.Reply.{Reply, Problem, done, thrown}
use falcon_lib.Packages.Cache.{Tools, World}
use falcon_lib.Packages.Manifest.{Dependency, Yaml}
use falcon_lib.Packages.Manager.{
  Session, has_dependency, save_manifest, manifest_saved, with_dependencies, new_dependency,
  add_dependency, sources_stored, install, find_dependency, erase_dependency, remove_found,
  remove_package,
}

abbrev pub dependencies : Session → List Dependency
dependencies s = s.manifest.dependencies

save_manifest-manifest :
    (yaml : Yaml) (s : Session) → (save_manifest yaml s).1.manifest ≡ s.manifest
unfolding save_manifest manifest_saved
save_manifest-manifest yaml s = ground arith

pub has_dependency-append :
    (name : String) (ds : List Dependency) (d : Dependency)
    → has_dependency name (ds ++ d ∷ []) ≡ (has_dependency name ds || str_eq d.name name)
unfolding has_dependency
has_dependency-append name [] d = ground arith
has_dependency-append name (e ∷ ds) d = ground (arith, has_dependency-append name ds d)

-- The dependencies after `add_dependency`, whatever its reply.
abbrev pub added : String → String → Session → List Dependency
added source version s =
    if has_dependency (stem source) (dependencies s)
    then dependencies s
    else dependencies s ++ new_dependency source version s.world.files ∷ []

pub add_dependency-dependencies :
    (yaml : Yaml) (source version : String) (s : Session)
    → dependencies (add_dependency yaml source version s).1 ≡ added source version s
unfolding add_dependency with_dependencies
add_dependency-dependencies yaml source version s =
    elim (Bool-cases (has_dependency (stem source) (dependencies s))) [
      | inl there ↦ rw there refl
      | inr missing ↦ rw missing (ap (λ m. m.dependencies) (save_manifest-manifest yaml _))
    ]

-- The dependencies after a successful installation, which has changed the world to `stored` before.
record IsInstalled (source version : String) (s after : Session) : Type 0 where
  stored : World
  dependencies_eq : dependencies after ≡ added source version (record s { world = stored })

sources_stored-IsInstalled :
    (yaml : Yaml) (source version : String) (s after : Session) (result : Reply (Unit {0}) × World)
    → sources_stored yaml source version s result ≡ (done tt, after)
    → IsInstalled source version s after
unfolding sources_stored
sources_stored-IsInstalled yaml source version s after (thrown e, w) eq = absurd cc
sources_stored-IsInstalled yaml source version s after (done u, w) eq = record {
  stored = w;
  dependencies_eq =
      sym (ap (λ r. dependencies r.1) eq)
      ∙ add_dependency-dependencies yaml source version (record s { world = w });
}

thrown≢done : {e : Problem} {u : Unit {0}} → Path (Reply Unit) (thrown e) (done u) → ⊥
thrown≢done eq = absurd cc

install-IsInstalled :
    (yaml : Yaml) (tools : Tools) (source version : String) (s after : Session)
    → install yaml tools source version s ≡ (done tt, after)
    → IsInstalled source version s after
unfolding install
install-IsInstalled yaml tools source version s after e =
    elim (Bool-cases (exists s.world.files source)) [
      | inl there ↦ sources_stored-IsInstalled yaml source version s after _ (rw there at e)
      | inr missing ↦ absurd (thrown≢done (ap (λ r. r.0) (rw missing at e)))
    ]

has_dependency-added :
    (source version : String) (s : Session)
    → has_dependency (stem source) (added source version s) ≡ true
unfolding new_dependency
has_dependency-added source version s = ground (
  arith,
  eq_refl (stem source),
  has_dependency-append (stem source) (dependencies s)
      (new_dependency source version s.world.files),
)

-- `added` when the name is there
pub added_there :
    (source version : String) (s : Session)
    → has_dependency (stem source) (dependencies s) ≡ true
    → added source version s ≡ dependencies s
added_there source version s there = rw there refl

-- A package that was installed is a dependency of the manifest, once: installing it again, with any
-- version, leaves the dependencies as they are, also the version that the first installation
-- recorded.
pub install_again :
    (yaml : Yaml) (tools : Tools) (source version again : String) (s after last : Session)
    → install yaml tools source version s ≡ (done tt, after)
    → install yaml tools source again after ≡ (done tt, last)
    → (has_dependency (stem source) after.manifest.dependencies ≡ true)
      × (last.manifest.dependencies ≡ after.manifest.dependencies)
install_again yaml tools source version again s after last first second =
    let i = install-IsInstalled yaml tools source version s after first in
    let j = install-IsInstalled yaml tools source again after last second in
    let there : has_dependency (stem source) (dependencies after) ≡ true =
      rw i.dependencies_eq (has_dependency-added source version (record s { world = i.stored })) in
    (there, j.dependencies_eq ∙ added_there source again (record after { world = j.stored }) there)

find_dependency-append :
    (name : String) (ds : List Dependency) (d : Dependency)
    → has_dependency name ds ≡ false
    → str_eq d.name name ≡ true
    → (find_dependency name (ds ++ d ∷ []) ≡ some d) × (erase_dependency name (ds ++ d ∷ []) ≡ ds)
unfolding find_dependency erase_dependency has_dependency
find_dependency-append name [] d absent same = (ground (arith, same), ground (arith, same))
find_dependency-append name (e ∷ ds) d absent same =
    let (found, erased) = find_dependency-append name ds d (ground (arith, absent)) same in
    (ground (arith, absent, found), ground (arith, absent, erased))

pub added_new :
    (source version : String) (s : Session)
    → has_dependency (stem source) (dependencies s) ≡ false
    → added source version s ≡ dependencies s ++ new_dependency source version s.world.files ∷ []
added_new source version s absent = rw absent refl

pub remove_package-dependencies :
    (yaml : Yaml) (tools : Tools) (name : String) (s : Session) (d : Dependency)
    → find_dependency name (dependencies s) ≡ some d
    → dependencies (remove_package yaml tools name s).1 ≡ erase_dependency name (dependencies s)
unfolding remove_package remove_found with_dependencies
remove_package-dependencies yaml tools name s d found =
    rw found (ap (λ m. m.dependencies) (save_manifest-manifest yaml _))

-- A package that the manifest did not have, installed and removed, leaves the dependencies as they
-- were before the installation.
pub remove-install :
    (yaml : Yaml) (tools : Tools) (source version : String) (s after : Session)
    → has_dependency (stem source) s.manifest.dependencies ≡ false
    → install yaml tools source version s ≡ (done tt, after)
    → (remove_package yaml tools (stem source) after).1.manifest.dependencies
      ≡ s.manifest.dependencies
unfolding new_dependency
remove-install yaml tools source version s after absent e =
    let i = install-IsInstalled yaml tools source version s after e in
    let d = new_dependency source version i.stored.files in
    let (found, erased) =
      find_dependency-append (stem source) (dependencies s) d absent (eq_refl (stem source)) in
    let all : dependencies after ≡ dependencies s ++ d ∷ [] =
      i.dependencies_eq ∙ added_new source version (record s { world = i.stored }) absent in
    remove_package-dependencies yaml tools (stem source) after d (rw all found) ∙ rw all erased
