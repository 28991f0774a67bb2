-- ===== src/Engine/Load/Ends.antt =====
-- Loads of files whose imports have a depth.
use falcon_lib.Base.{
  ℕ, zero, suc, ◌<◌, String, Bool, true, false, ◌≡◌, refl, ◌∙◌, Option, none, some, List, [], ◌∷◌,
  arith, Bool-cases, inl, inr,
}
use falcon_lib.Base.Maps.{is_some}
use falcon_lib.Files.{FileSystem, exists, canonical_in}
use falcon_lib.Packages.Reply.{Reply, done, thrown}
use falcon_lib.Packages.Resolver.{ResolvedImport}
use falcon_lib.Packages.Manager.{open_manager}
use falcon_lib.Packages.Manager.Opening.{open_manager_ends, is_some-map}
use falcon_lib.Engine.Imports.{extract_imports_from_file}
use falcon_lib.Engine.{Program, Engine}
use falcon_lib.Engine.Load.{
  Outside, Loading, Outcome, find_imports, load_imports, load_import, after_import, with_hints,
  load_main, opened, imports_found, mem, load_step, load_fal_file, parsed, registered,
}

find_imports_ends :
    (out : Outside) (abs : String) (l : Loading) → is_some (find_imports out abs l) ≡ true
unfolding find_imports
find_imports_ends out abs l =
    is_some-map (opened out abs (extract_imports_from_file l.files abs) l)
      (open_manager out.tools out.yaml l.files abs)
    ∙ open_manager_ends out.tools out.yaml l.files abs

registered_returned :
    (abs : String) (program : Program) (result : Bool × Engine × FileSystem)
    → is_some (registered abs program result).0 ≡ true
unfolding registered
registered_returned abs program (false, engine, fs) = refl
registered_returned abs program (true, engine, fs) = refl

parsed_returned :
    (out : Outside) (abs : String) (l : Loading) (program : Option Program)
    → is_some (parsed out abs l program).0 ≡ true
unfolding parsed
parsed_returned out abs l none = refl
parsed_returned out abs l (some program) = registered_returned abs program _

load_main_returned :
    (out : Outside) (abs : String) (l : Loading) → is_some (load_main out abs l).0 ≡ true
unfolding load_main
load_main_returned out abs l = parsed_returned out abs l _

-- `Good n path fs`: the imports of `path` have a depth of at most `n` in the file system.
module _ (out : Outside) (Good : ℕ → String → FileSystem → Type 0) where
  -- The imports of a file have a smaller depth than the file.
  abbrev pub AllBelow : ℕ → List ResolvedImport → FileSystem → Type 0
  AllBelow n [] fs = Unit
  AllBelow n (imp ∷ imps) fs =
      ((m : ℕ) × (m < n) × Good m imp.absolute_path fs) × AllBelow n imps fs

  -- The depth bounds that of the imports, and what a load writes (copies, the index of the cache,
  -- compiled wrappers) changes no depth.
  pub record IsLayered : Type 0 where
    pub below :
        {n : ℕ} {path : String} (l after : Loading) (imports : List ResolvedImport)
        → Good n path l.files
        → find_imports out (canonical_in l.files path) l ≡ some (done imports, after)
        → AllBelow n imports after.files
    pub resolving :
        {n m : ℕ} {path other : String} (l after : Loading) (reply : Reply (List ResolvedImport))
        → Good n path l.files
        → Good m other l.files
        → find_imports out (canonical_in l.files path) l ≡ some (reply, after)
        → Good m other after.files
    pub loading :
        {n m : ℕ} {path other : String} (l : Loading) (abs : String)
        → Good n path l.files
        → Good m other l.files
        → Good m other (load_main out abs l).1.files

  -- The run returned, and no depth has changed.
  pub record IsEnded (before : FileSystem) (outcome : Outcome) : Type 0 where
    pub returned : is_some outcome.0 ≡ true
    pub kept : {m : ℕ} {other : String} → Good m other before → Good m other outcome.1.files

  AllBelow-map :
      (n : ℕ) (imports : List ResolvedImport) {fs fs' : FileSystem}
      → ((m : ℕ) (other : String) → Good m other fs → Good m other fs')
      → AllBelow n imports fs
      → AllBelow n imports fs'
  AllBelow-map n [] f h = tt
  AllBelow-map n (imp ∷ imps) f ((m, lt, good), rest) =
      ((m, lt, f m imp.absolute_path good), AllBelow-map n imps f rest)

  after_import-IsEnded :
      (fs : FileSystem) (outcome : Outcome) (next : Loading → Outcome)
      → IsEnded fs outcome
      → IsEnded outcome.1.files (next outcome.1)
      → IsEnded fs (after_import outcome next)
  unfolding after_import
  after_import-IsEnded fs (none, l) next first second = first
  after_import-IsEnded fs (some false, l) next first second = first
  after_import-IsEnded fs (some true, l) next first second = record {
    returned = second.returned;
    kept = λ g. second.kept (first.kept g);
  }

  load_main-IsEnded :
      (layered : IsLayered) {n : ℕ} (path abs : String) (l : Loading)
      → Good n path l.files
      → IsEnded l.files (load_main out abs l)
  load_main-IsEnded layered path abs l good = record {
    returned = load_main_returned out abs l;
    kept = λ g. layered.loading l abs good g;
  }

  -- The loads of all files of a depth below `n` end.
  record EndsBelow (n : ℕ) (load : String → Loading → Outcome) : Type 0 where
    at :
        {m : ℕ} {path : String} (l : Loading)
        → m < n
        → Good m path l.files
        → IsEnded l.files (load path l)

  module _ (n : ℕ) (load : String → Loading → Outcome) (loads : EndsBelow n load) where
    load_import-IsEnded :
        (imp : ResolvedImport) (l : Loading) {m : ℕ}
        → m < n
        → Good m imp.absolute_path l.files
        → IsEnded l.files (load_import load imp l)
    unfolding load_import
    load_import-IsEnded imp l lt good =
        elim (Bool-cases (mem imp.absolute_path l.engine.loaded_paths)) [
          | inl known ↦ rw known (record { returned = refl; kept = λ g. g })
          | inr new ↦ rw new (loads.at l lt good)
        ]

    load_imports-IsEnded :
        (imports : List ResolvedImport) (l : Loading)
        → AllBelow n imports l.files
        → IsEnded l.files (load_imports load imports l)
    unfolding load_imports with_hints
    load_imports-IsEnded [] l h = record { returned = refl; kept = λ g. g }
    load_imports-IsEnded (imp ∷ imps) l ((m, lt, good), rest) =
        let first = load_import-IsEnded imp l lt good in
        after_import-IsEnded l.files (load_import load imp l) _ first (
          load_imports-IsEnded imps (with_hints imp (load_import load imp l).1)
            (AllBelow-map n imps (λ k other g. first.kept g) rest))

    imports_found-IsEnded :
        (layered : IsLayered) (path : String) (l : Loading)
        (found : Option (Reply (List ResolvedImport) × Loading))
        → Good n path l.files
        → find_imports out (canonical_in l.files path) l ≡ found
        → is_some found ≡ true
        → IsEnded l.files (imports_found out load (canonical_in l.files path) l found)
    unfolding imports_found
    imports_found-IsEnded layered path l none good e there = absurd cc
    imports_found-IsEnded layered path l (some (thrown problem, after)) good e there = record {
      returned = refl;
      kept = λ g. layered.resolving l after _ good g e;
    }
    imports_found-IsEnded layered path l (some (done imports, after)) good e there =
        let abs = canonical_in l.files path in
        let imported = load_imports-IsEnded imports after (layered.below l after imports good e) in
        let found : IsEnded l.files (load_imports load imports after) = record {
          returned = imported.returned;
          kept = λ g. imported.kept (layered.resolving l after _ good g e);
        } in
        after_import-IsEnded l.files (load_imports load imports after) (load_main out abs) found
          (load_main-IsEnded layered path abs (load_imports load imports after).1 (found.kept good))

    load_step-IsEnded :
        (layered : IsLayered) (path : String) (l : Loading)
        → Good n path l.files
        → IsEnded l.files (load_step out load path l)
    unfolding load_step
    load_step-IsEnded layered path l good = elim (Bool-cases (exists l.files path)) [
      | inl there ↦ rw there (
          imports_found-IsEnded layered path l (find_imports out (canonical_in l.files path) l) good
            refl (find_imports_ends out (canonical_in l.files path) l))
      | inr missing ↦ rw missing (record { returned = refl; kept = λ g. g })
    ]

  load_fal_file-IsEnded :
      (layered : IsLayered) (fuel n : ℕ) (path : String) (l : Loading)
      → n < fuel
      → Good n path l.files
      → IsEnded l.files (load_fal_file out fuel path l)
  unfolding load_fal_file
  load_fal_file-IsEnded layered zero n path l lt good = absurd (omega (arith, lt))
  load_fal_file-IsEnded layered (suc fuel) n path l lt good =
      load_step-IsEnded n (load_fal_file out fuel)
        (record {
          at = λ {m} {path = other} l' below g.
              load_fal_file-IsEnded layered fuel m other l' (omega (arith, below, lt)) g;
        })
        layered path l good

  -- Loading a file ends when imports go down in depth: with more fuel than the depth of the file,
  -- the load says whether it succeeded. (What a load writes changes no depth.)
  pub load_fal_file_ends :
      IsLayered
      → (fuel n : ℕ) (path : String) (l : Loading) → n < fuel
      → Good n path l.files
      → is_some (load_fal_file out fuel path l).0 ≡ true
  load_fal_file_ends layered fuel n path l lt good =
      (load_fal_file-IsEnded layered fuel n path l lt good).returned
