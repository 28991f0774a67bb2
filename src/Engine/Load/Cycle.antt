-- ===== src/Engine/Load/Cycle.antt =====
-- Loads of files that import themselves, over other files or not.
use falcon_lib.Base.{ℕ, zero, suc, String, true, false, ◌≡◌, refl, none, some, List, ◌∷◌}
use falcon_lib.Files.{exists, canonical_in}
use falcon_lib.Packages.Reply.{done}
use falcon_lib.Packages.Resolver.{ResolvedImport}
use falcon_lib.Engine.Load.{
  Outside, Loading, Outcome, find_imports, load_imports, load_import, after_import, imports_found,
  load_step, load_fal_file, mem,
}

-- The file has imports, and the first of them was not loaded yet.
pub record FirstImport (out : Outside) (path : String) (l : Loading) : Type 0 where
  pub there : exists l.files path ≡ true
  pub first : ResolvedImport
  pub others : List ResolvedImport
  pub after : Loading
  pub found : find_imports out (canonical_in l.files path) l ≡ some (done (first ∷ others), after)
  pub new : mem first.absolute_path after.engine.loaded_paths ≡ false

-- The same load with its result named, which a test of the first result reads.
after_import-none :
    (outcome : Outcome) (next : Loading → Outcome)
    → outcome.0 ≡ none
    → (after_import outcome next).0 ≡ none
unfolding after_import
after_import-none (none, l) next e = refl
after_import-none (some b, l) next e = absurd cc

-- A file is marked as loaded only after its imports were. So a load that keeps meeting files whose
-- first import was not loaded, as it does on a file that imports itself, never returns, with any
-- fuel: here `Pending` holds of the file, and with a file also of its first import.
pub load_fal_file_cycle :
    (out : Outside) (Pending : String → Loading → Type 0)
    → ((path : String) (l : Loading)
        → Pending path l
        → (i : FirstImport out path l) × Pending i.first.absolute_path i.after)
    → (fuel : ℕ) (path : String) (l : Loading) → Pending path l
    → (load_fal_file out fuel path l).0 ≡ none
unfolding load_fal_file load_step imports_found load_imports load_import after_import
load_fal_file_cycle out Pending follows zero path l pending = refl
load_fal_file_cycle out Pending follows (suc fuel) path l pending =
    let (i, next) = follows path l pending in
    let rest = load_fal_file_cycle out Pending follows fuel i.first.absolute_path i.after next in
    rw (i.there, i.found, i.new) (after_import-none _ _ (after_import-none _ _ rest))
