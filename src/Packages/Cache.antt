-- ===== src/Packages/Cache.antt =====
-- `PackageCache` of dsl/package-manager/src/PackageCache.cpp: the index that maps the canonical path
-- of a source file to its digest and its copy in the cache directory.
pub mod Store
pub mod Integrity
pub mod Runs
use mathlib.Core.Option
use falcon_lib.Base.{String, Bool, true, false, Option, none, some, List, [], ◌∷◌}
use falcon_lib.Base.{str_eq, not, ◌&&◌, ◌||◌, if◌then◌else◌}
use falcon_lib.Base.Text.{◌⊹◌}
use falcon_lib.Base.Maps.{Map, lookup, insert, keep}
use falcon_lib.Files.{
  FileSystem, canonical_in, exists, read, write, copy_file, remove, create_directories,
}
use falcon_lib.Files.Paths.{canonical, join}
use falcon_lib.Packages.Reply.{
  Reply, done, thrown, cannot_hash, cannot_copy, cannot_remove, cannot_write_index, cannot_create,
}

pub record CacheEntry : Type 0 where
  pub sha256 : String
  pub cached_path : String

abbrev pub Index : Type 0
Index = Map CacheEntry

-- What the code calls: the digest of a text, and the JSON text of an index.
pub record Tools : Type 0 where
  pub sha256_string : String → String
  pub dump : Index → String
  pub parse : String → Option Index

pub record PackageCache : Type 0 where
  pub cache_dir : String
  pub index_path : String
  pub index : Index

-- The object together with the file system that it works on.
pub record World : Type 0 where
  pub cache : PackageCache
  pub files : FileSystem

abbrev with_index : PackageCache → Index → PackageCache
with_index c m = record c { index = m }

module _ (tools : Tools) where
  -- `sha256_file`
  unfoldable pub sha256_file : FileSystem → String → Option String
  sha256_file fs p = Option.map tools.sha256_string (read fs p)

  -- A missing, unreadable or corrupt index counts as empty.
  parsed_index : Option String → Index
  parsed_index none = []
  parsed_index (some text) = elim (tools.parse text) [ none ↦ [] | some m ↦ m ]

  unfoldable pub load_index : FileSystem → PackageCache → PackageCache
  unfolding parsed_index
  load_index fs c = with_index c (parsed_index (read fs c.index_path))

  unfoldable pub save_index : PackageCache → FileSystem → Option FileSystem
  save_index c fs = write fs c.index_path (tools.dump c.index)

  cache_in : String → PackageCache
  cache_in dir = record { cache_dir = dir; index_path = join dir "index.json"; index = [] }

  -- The constructor.
  unfoldable pub open_cache : String → FileSystem → Option World
  unfolding load_index cache_in
  open_cache dir fs =
      Option.map (λ made. record { cache = load_index made (cache_in dir); files = made })
        (create_directories fs dir)

abbrev pub entry_of : String → String → CacheEntry
entry_of sha dest = record { sha256 = sha; cached_path = dest }

-- The name of the copy of a text with this digest.
unfoldable pub cached_file : PackageCache → String → String
cached_file c sha = join c.cache_dir (sha ⊹ ".fal")

abbrev saved_to : {A : Type 0} → A → World → Option FileSystem → Reply A × World
saved_to a w none = (thrown (cannot_write_index w.cache.index_path), w)
saved_to a w (some fs) = (done a, record w { files = fs })

find_entry : PackageCache → String → Option CacheEntry
find_entry c key = lookup key c.index

-- The copy of an entry whose digest is the one asked for.
fresh : CacheEntry → Option String → Option String
fresh entry none = none
fresh entry (some sha) = if str_eq sha entry.sha256 then some entry.cached_path else none

module _ (tools : Tools) where
  entry_lookup : FileSystem → String → Option CacheEntry → Option String
  unfolding fresh sha256_file
  entry_lookup fs source none = none
  entry_lookup fs source (some entry) =
      if exists fs entry.cached_path then fresh entry (sha256_file tools fs source) else none

  unfoldable pub lookup_cached : World → String → Option String
  unfolding entry_lookup find_entry
  lookup_cached w source =
      entry_lookup w.files source (find_entry w.cache (canonical_in w.files source))

  saved : {A : Type 0} → A → World → Reply A × World
  unfolding save_index
  saved a w = saved_to a w (save_index tools w.cache w.files)

  record_copy : String → String → String → World → Option FileSystem → Reply String × World
  unfolding saved
  record_copy source sha dest w none = (thrown (cannot_copy source dest), w)
  record_copy source sha dest w (some fs) = saved dest (record {
    cache =
        with_index w.cache (insert (canonical_in w.files source) (entry_of sha dest) w.cache.index);
    files = fs;
  })

  store_digest : String → World → Option String → Reply String × World
  unfolding record_copy cached_file
  store_digest source w none = (thrown (cannot_hash source), w)
  store_digest source w (some sha) =
      let dest = cached_file w.cache sha in
      record_copy source sha dest w (copy_file w.files source dest)

  unfoldable pub store : String → World → Reply String × World
  unfolding store_digest sha256_file
  store source w = store_digest source w (sha256_file tools w.files source)

unfoldable pub still_referenced : String → Index → Bool
still_referenced cached [] = false
still_referenced cached ((k, e) ∷ m) = str_eq e.cached_path cached || still_referenced cached m

abbrev removed : String → World → Option FileSystem → Reply (Unit {0}) × World
removed cached w none = (thrown (cannot_remove cached), w)
removed cached w (some fs) = (done tt, record w { files = fs })

drop_copy : String → World → Reply (Unit {0}) × World
unfolding still_referenced remove
drop_copy cached w =
    if not (still_referenced cached w.cache.index) && exists w.files cached
    then removed cached w (remove w.files cached)
    else (done tt, w)

after_save : String → Reply (Unit {0}) × World → Reply Unit × World
unfolding drop_copy
after_save cached (thrown e, w) = (thrown e, w)
after_save cached (done u, w) = drop_copy cached w

module _ (tools : Tools) where
  invalidate_entry : String → World → Option CacheEntry → Reply (Unit {0}) × World
  unfolding saved after_save
  invalidate_entry key w none = (done tt, w)
  invalidate_entry key w (some entry) =
      let index = keep (λ k. not (str_eq k key)) w.cache.index in
      after_save entry.cached_path (saved tools tt (record w { cache = with_index w.cache index }))

  unfoldable pub invalidate : String → World → Reply (Unit {0}) × World
  unfolding invalidate_entry find_entry
  invalidate source w =
      let key = canonical_in w.files source in invalidate_entry key w (find_entry w.cache key)

-- A file that is not there stays so.
remove_if_exists : String → FileSystem → Option FileSystem
remove_if_exists p fs = if exists fs p then remove fs p else some fs

remove_copies : Index → FileSystem → Reply (Unit {0}) × FileSystem
unfolding remove_if_exists remove
remove_copies [] fs = (done tt, fs)
remove_copies ((k, e) ∷ m) fs = elim (remove_if_exists e.cached_path fs) [
  | none ↦ (thrown (cannot_remove e.cached_path), fs)
  | some rest ↦ remove_copies m rest
]

abbrev emptied : World → FileSystem → World
emptied w fs = record { cache = with_index w.cache []; files = fs }

-- The index object is emptied only when no removal of a copy threw.
cleared : World → Reply (Unit {0}) × FileSystem → Reply Unit × World
unfolding remove_if_exists
cleared w (thrown e, fs) = (thrown e, record w { files = fs })
cleared w (done u, fs) =
    removed w.cache.index_path (emptied w fs) (remove_if_exists w.cache.index_path fs)

unfoldable pub clear : World → Reply (Unit {0}) × World
unfolding cleared remove_copies
clear w = cleared w (remove_copies w.cache.index w.files)
