-- ===== src/Packages/Resolver.antt =====
-- `PackageResolver` of dsl/package-manager/src/PackageResolver.cpp: from the text of an import to the
-- file that it names, with its copy in the cache.
pub mod Laws
use falcon_lib.Base.{String, Bool, true, false, Option, none, some, List, [], ◌∷◌}
use falcon_lib.Base.{◌||◌, if◌then◌else◌}
use falcon_lib.Base.Text.{◌⊹◌, has_prefix}
use falcon_lib.Files.{FileSystem, canonical_in, exists}
use falcon_lib.Files.Paths.{join, parent_path, stem}
use falcon_lib.Packages.Reply.{
  Reply, done, thrown, cannot_hash, import_not_found, import_unresolved, github_unsupported,
}
use falcon_lib.Packages.Cache.{Tools, World, store, sha256_file}

pub record ResolvedImport : Type 0 where
  pub absolute_path : String
  pub cached_path : String
  pub module_name : String
  pub sha256 : String

module _ (tools : Tools) where
  -- The digest of the file, computed a second time.
  hashed : String → String → World → Option String → Reply ResolvedImport × World
  hashed abs cached w none = (thrown (cannot_hash abs), w)
  hashed abs cached w (some sha) = (
    done (record {
      absolute_path = abs;
      cached_path = cached;
      module_name = stem abs;
      sha256 = sha;
    }),
    w,
  )

  resolve_stored : String → Reply String × World → Reply ResolvedImport × World
  unfolding hashed sha256_file
  resolve_stored abs (thrown e, w) = (thrown e, w)
  resolve_stored abs (done cached, w) = hashed abs cached w (sha256_file tools w.files abs)

  unfoldable pub resolve_local : String → String → World → Reply ResolvedImport × World
  unfolding resolve_stored store
  resolve_local raw base w =
      let abs = canonical_in w.files (join base raw) in
      if exists w.files abs
      then resolve_stored abs (store tools abs w)
      else (thrown (import_not_found abs), w)

  unfoldable pub resolve_github : String → String → World → Reply ResolvedImport × World
  unfolding resolve_local
  resolve_github root path w =
      let vendor = join (join root "vendor") path in
      if exists w.files vendor
      then resolve_local vendor root w
      else (thrown (github_unsupported path), w)

  resolve_bare : String → String → String → World → Reply ResolvedImport × World
  unfolding resolve_local
  resolve_bare root path base w =
      if exists w.files (join base path)
      then resolve_local ("./" ⊹ path) base w
      else if exists w.files (join root path)
      then resolve_local path root w
      else (thrown (import_unresolved path base root), w)

  -- `resolve` with the project's root and the importing file
  unfoldable pub resolve : String → String → String → World → Reply ResolvedImport × World
  unfolding resolve_local resolve_github resolve_bare
  resolve root path importing w =
      let base = parent_path importing in
      if has_prefix "./" path || has_prefix "../" path
      then resolve_local path base w
      else if has_prefix "github.com/" path
      then resolve_github root path w
      else resolve_bare root path base w

with_first :
    ResolvedImport → Reply (List ResolvedImport) × World → Reply (List ResolvedImport) × World
with_first r (thrown e, w) = (thrown e, w)
with_first r (done rs, w) = (done (r ∷ rs), w)

resolve_next :
    Reply ResolvedImport × World
    → (World → Reply (List ResolvedImport) × World)
    → Reply (List ResolvedImport) × World
unfolding with_first
resolve_next (thrown e, w) rest = (thrown e, w)
resolve_next (done r, w) rest = with_first r (rest w)

module _ (tools : Tools) (root importing : String) where
  -- The imports in order, up to the first that throws.
  unfoldable pub resolve_all : List String → World → Reply (List ResolvedImport) × World
  unfolding resolve_next resolve
  resolve_all [] w = (done [], w)
  resolve_all (p ∷ ps) w =
      resolve_next (resolve tools root p importing w) (λ after. resolve_all ps after)
