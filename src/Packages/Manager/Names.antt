-- ===== src/Packages/Manager/Names.antt =====
-- The names of the dependencies over sequences of commands, and the refusal of `remove`.
use falcon_lib.Base.{
  String, false, ◌≡◌, refl, ap, ◌∙◌, ◌↔◌, Option, none, some, List, [], ◌∷◌, ◌++◌, arith, eq_iff,
  inl, inr, str_eq, Bool-cases,
}
use falcon_lib.Files.{exists}
use falcon_lib.Files.Paths.{stem}
use falcon_lib.Packages.Reply.{Reply, done, thrown, package_not_found}
use falcon_lib.Packages.Cache.{Tools, World}
use falcon_lib.Packages.Manifest.{Dependency, Yaml}
use falcon_lib.Packages.Manager.{
  Session, has_dependency, sources_stored, install, find_dependency, erase_dependency, remove_found,
  remove_package, new_dependency, save_manifest, manifest_saved, manifest_written,
}
use falcon_lib.Packages.Manager.Laws.{
  dependencies, added, add_dependency-dependencies, has_dependency-append, added_there, added_new,
  remove_package-dependencies,
}

-- No two dependencies have one name.
abbrev pub IsDistinct : List Dependency → Type 0
IsDistinct [] = Unit
IsDistinct (d ∷ ds) = (has_dependency d.name ds ≡ false) × IsDistinct ds

IsDistinct-append :
    (ds : List Dependency) (d : Dependency)
    → has_dependency d.name ds ≡ false
    → IsDistinct ds
    → IsDistinct (ds ++ d ∷ [])
unfolding has_dependency
IsDistinct-append [] d absent h = (refl, tt)
IsDistinct-append (e ∷ ds) d absent h = (
  has_dependency-append e.name ds d
      ∙ ground (arith, absent, h.0, eq_iff e.name d.name, eq_iff d.name e.name),
  IsDistinct-append ds d (ground (arith, absent)) h.1,
)

has_dependency-erase :
    (name erased : String) (ds : List Dependency)
    → has_dependency name ds ≡ false
    → has_dependency name (erase_dependency erased ds) ≡ false
unfolding has_dependency erase_dependency
has_dependency-erase name erased [] h = refl
has_dependency-erase name erased (d ∷ ds) h = ground (arith, h, has_dependency-erase name erased ds)

IsDistinct-erase :
    (erased : String) (ds : List Dependency)
    → IsDistinct ds
    → IsDistinct (erase_dependency erased ds)
unfolding erase_dependency
IsDistinct-erase erased [] h = tt
IsDistinct-erase erased (d ∷ ds) h = elim (Bool-cases (str_eq d.name erased)) [
  | inl same ↦ rw same h.1
  | inr other ↦ rw other (has_dependency-erase d.name erased ds h.0, IsDistinct-erase erased ds h.1)
]

IsDistinct-added :
    (source version : String) (s : Session)
    → IsDistinct (dependencies s)
    → IsDistinct (added source version s)
unfolding new_dependency
IsDistinct-added source version s h =
    elim (Bool-cases (has_dependency (stem source) (dependencies s))) [
      | inl there ↦ rw (added_there source version s there) h
      | inr absent ↦ rw (added_new source version s absent) (
          IsDistinct-append (dependencies s) (new_dependency source version s.world.files) absent h)
    ]

IsDistinct-sources_stored :
    (yaml : Yaml) (source version : String) (s : Session) (result : Reply (Unit {0}) × World)
    → IsDistinct (dependencies s)
    → IsDistinct (dependencies (sources_stored yaml source version s result).1)
unfolding sources_stored
IsDistinct-sources_stored yaml source version s (thrown e, w) h = h
IsDistinct-sources_stored yaml source version s (done u, w) h =
    rw (add_dependency-dependencies yaml source version (record s { world = w }))
      (IsDistinct-added source version (record s { world = w }) h)

IsDistinct-install :
    (yaml : Yaml) (tools : Tools) (source version : String) (s : Session)
    → IsDistinct (dependencies s)
    → IsDistinct (dependencies (install yaml tools source version s).1)
unfolding install
IsDistinct-install yaml tools source version s h = elim (Bool-cases (exists s.world.files source)) [
  | inl there ↦ rw there (IsDistinct-sources_stored yaml source version s _ h)
  | inr missing ↦ rw missing h
]

IsDistinct-remove_found :
    (yaml : Yaml) (tools : Tools) (name : String) (s : Session) (found : Option Dependency)
    → find_dependency name (dependencies s) ≡ found
    → IsDistinct (dependencies s)
    → IsDistinct (dependencies (remove_package yaml tools name s).1)
unfolding remove_package remove_found
IsDistinct-remove_found yaml tools name s none e h = rw e h
IsDistinct-remove_found yaml tools name s (some d) e h =
    rw (remove_package-dependencies yaml tools name s d e)
      (IsDistinct-erase name (dependencies s) h)

-- One command, whatever its reply.
pub data Command (yaml : Yaml) (tools : Tools) : Session → Session → Type 0 where
  installing :
      (source version : String) {s : Session}
      → Command yaml tools s (install yaml tools source version s).1
  removing :
      (name : String) {s : Session} → Command yaml tools s (remove_package yaml tools name s).1

pub data Commands (yaml : Yaml) (tools : Tools) (s : Session) : Session → Type 0 where
  here : Commands yaml tools s s
  next :
      {middle after : Session}
      → Commands yaml tools s middle
      → Command yaml tools middle after
      → Commands yaml tools s after

Command-IsDistinct :
    {yaml : Yaml} {tools : Tools} {s after : Session}
    → Command yaml tools s after
    → IsDistinct (dependencies s)
    → IsDistinct (dependencies after)
Command-IsDistinct {yaml} {tools} (installing source version) h =
    IsDistinct-install yaml tools source version _ h
Command-IsDistinct {yaml} {tools} (removing name) h =
    IsDistinct-remove_found yaml tools name _ _ refl h

-- The dependencies of a manifest keep distinct names through any sequence of `install` and `remove`,
-- also of those that throw.
pub Commands-IsDistinct :
    {yaml : Yaml} {tools : Tools} {s after : Session}
    → Commands yaml tools s after
    → IsDistinct s.manifest.dependencies
    → IsDistinct after.manifest.dependencies
Commands-IsDistinct here h = h
Commands-IsDistinct (next commands command) h =
    Command-IsDistinct command (Commands-IsDistinct commands h)

find_dependency-none :
    (name : String) (ds : List Dependency)
    → has_dependency name ds ≡ false
    → find_dependency name ds ≡ none
unfolding find_dependency has_dependency
find_dependency-none name [] h = refl
find_dependency-none name (d ∷ ds) h = ground (arith, h, find_dependency-none name ds)

find_dependency_some :
    (name : String) (ds : List Dependency)
    → find_dependency name ds ≡ none
    → has_dependency name ds ≡ false
unfolding find_dependency has_dependency
find_dependency_some name [] h = refl
find_dependency_some name (d ∷ ds) h = ground (arith, h, find_dependency_some name ds)

save_manifest_reply :
    (yaml : Yaml) (s : Session) (name : String)
    → (save_manifest yaml s).0 ≡ thrown (package_not_found name)
    → ⊥
unfolding save_manifest manifest_saved manifest_written
save_manifest_reply yaml s name e = absurd (ground (arith, e))

remove_found_refused :
    (yaml : Yaml) (tools : Tools) (name : String) (s : Session) (found : Option Dependency)
    → (remove_found yaml tools name s found).0 ≡ thrown (package_not_found name)
    → found ≡ none
unfolding remove_found
remove_found_refused yaml tools name s none e = refl
remove_found_refused yaml tools name s (some d) e = absurd (save_manifest_reply yaml _ name e)

-- `remove` throws "not found in manifest" and changes nothing exactly when no dependency of the
-- manifest has the name.
pub remove_package_unknown :
    (yaml : Yaml) (tools : Tools) (name : String) (s : Session)
    → (remove_package yaml tools name s ≡ (thrown (package_not_found name), s))
      ↔ (has_dependency name s.manifest.dependencies ≡ false)
unfolding remove_package remove_found
remove_package_unknown yaml tools name s = (
  λ e.
      find_dependency_some name (dependencies s)
        (remove_found_refused yaml tools name s _ (ap (λ r. r.0) e)),
  λ absent. rw (find_dependency-none name (dependencies s) absent) refl,
)
