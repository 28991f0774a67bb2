-- ===== src/Packages/Resolver/Laws.antt =====
-- The imports that are resolved, and those that are not.
use falcon_lib.Base.{String, Bool, true, false, ◌≡◌, refl, Option, none, some}
use falcon_lib.Base.{inl, inr, ◌||◌, if◌then◌else◌, Bool-cases}
use falcon_lib.Base.Text.{◌⊹◌, has_prefix}
use falcon_lib.Files.{canonical_in, exists, read, same_file}
use falcon_lib.Files.Paths.{join, parent_path, stem}
use falcon_lib.Packages.Reply.{Reply, Problem, done, thrown, import_unresolved, github_unsupported}
use falcon_lib.Packages.Cache.{Tools, World, store, sha256_file, lookup_cached}
use falcon_lib.Packages.Cache.Store.{lookup_cached-store}
use falcon_lib.Packages.Resolver.{
  ResolvedImport, hashed, resolve_stored, resolve_local, resolve_github, resolve_bare, resolve,
}

module _ (tools : Tools) where
  -- The import was stored by this run, and its digest is that of the file.
  record IsResolved (w : World) (r : ResolvedImport) (after : World) : Type 0 where
    stored : store tools r.absolute_path w ≡ (done r.cached_path, after)
    digest : sha256_file tools after.files r.absolute_path ≡ some r.sha256
    named : r.module_name ≡ stem r.absolute_path

  abbrev AllResolved : World → Reply ResolvedImport × World → Type 0
  AllResolved w (thrown e, after) = Unit
  AllResolved w (done r, after) = IsResolved w r after

  hashed-IsResolved :
      (abs cached : String) (w middle : World) (sha : Option String)
      → store tools abs w ≡ (done cached, middle)
      → sha256_file tools middle.files abs ≡ sha
      → AllResolved w (hashed tools abs cached middle sha)
  unfolding hashed
  hashed-IsResolved abs cached w middle none stored digest = tt
  hashed-IsResolved abs cached w middle (some sha) stored digest = record {
    stored = stored;
    digest = digest;
    named = refl;
  }

  resolve_stored-IsResolved :
      (abs : String) (w : World) (result : Reply String × World)
      → store tools abs w ≡ result
      → AllResolved w (resolve_stored tools abs result)
  unfolding resolve_stored
  resolve_stored-IsResolved abs w (thrown e, after) eq = tt
  resolve_stored-IsResolved abs w (done cached, after) eq =
      hashed-IsResolved abs cached w after _ eq refl

  resolve_local-IsResolved :
      (raw base : String) (w : World) → AllResolved w (resolve_local tools raw base w)
  unfolding resolve_local
  resolve_local-IsResolved raw base w =
      let abs = canonical_in w.files (join base raw) in
      elim (Bool-cases (exists w.files abs)) [
        | inl there ↦ rw there (resolve_stored-IsResolved abs w _ refl)
        | inr missing ↦ rw missing tt
      ]

  record IsFaithful (w : World) (result : Reply ResolvedImport × World) : Type 0 where
    holds : AllResolved w result

  if_IsFaithful :
      {w : World} (b : Bool) {x y : Reply ResolvedImport × World}
      → IsFaithful w x
      → IsFaithful w y
      → IsFaithful w (if b then x else y)
  if_IsFaithful true hx hy = hx
  if_IsFaithful false hx hy = hy

  local_IsFaithful : (raw base : String) (w : World) → IsFaithful w (resolve_local tools raw base w)
  local_IsFaithful raw base w = record { holds = resolve_local-IsResolved raw base w }

  thrown_IsFaithful : (w : World) (e : Problem) → IsFaithful w (thrown e, w)
  thrown_IsFaithful w e = record { holds = tt }

  resolve-IsFaithful :
      (root path importing : String) (w : World)
      → IsFaithful w (resolve tools root path importing w)
  unfolding resolve resolve_github resolve_bare
  resolve-IsFaithful root path importing w =
      let base = parent_path importing in
      let vendor = join (join root "vendor") path in
      if_IsFaithful (has_prefix "./" path || has_prefix "../" path) (local_IsFaithful path base w) (
        if_IsFaithful (has_prefix "github.com/" path)
          (if_IsFaithful (exists w.files vendor) (local_IsFaithful vendor root w)
            (thrown_IsFaithful w (github_unsupported path)))
          (if_IsFaithful (exists w.files (join base path)) (local_IsFaithful ("./" ⊹ path) base w) (
            if_IsFaithful (exists w.files (join root path)) (local_IsFaithful path root w)
              (thrown_IsFaithful w (import_unresolved path base root)))))

  -- An import that is resolved, in whichever way, stands in the cache: the copy has the text of the
  -- file that was found, a lookup of that file gives the copy, and the digest and the module's name
  -- are the file's. The file and its copy are other files than the index of the cache.
  pub resolve_cached :
      (root path importing : String) (r : ResolvedImport) (w after : World)
      → resolve tools root path importing w ≡ (done r, after)
      → same_file w.files r.absolute_path w.cache.index_path ≡ false
      → same_file w.files r.cached_path w.cache.index_path ≡ false
      → (lookup_cached tools after r.absolute_path ≡ some r.cached_path)
        × (read after.files r.cached_path ≡ read w.files r.absolute_path)
        × (sha256_file tools after.files r.absolute_path ≡ some r.sha256)
        × (r.module_name ≡ stem r.absolute_path)
  resolve_cached root path importing r w after e apart copy_apart =
      let found : IsResolved w r after = rw e at (resolve-IsFaithful root path importing w).holds in
      let (looked, text) =
        lookup_cached-store tools r.absolute_path r.cached_path w after found.stored apart
          copy_apart in
      (looked, text, found.digest, found.named)
