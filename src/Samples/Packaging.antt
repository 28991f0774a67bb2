-- ===== src/Samples/Packaging.antt =====
-- The package manager at sample projects.
use falcon_lib.Base.{
  String, Bool, true, false, ◌≡◌, refl, none, some, [], ◌∷◌, str_eq, if◌then◌else◌, Bool-cases, inl,
  inr,
}
use falcon_lib.Base.Maps.{lookup, insert}
use falcon_lib.Base.Text.{has_prefix}
use falcon_lib.Files.{file, directory, FileSystem, read, same_file}
use falcon_lib.Files.Paths.{canonical, join, parent_path}
use falcon_lib.Packages.Reply.{done}
use falcon_lib.Packages.Cache.{
  Tools, PackageCache, World, store, lookup_cached, cached_file, sha256_file,
}
use falcon_lib.Packages.Cache.Integrity.{IsApart, IsIntact}
use falcon_lib.Packages.Cache.Runs.{Steps, here, next, storing, Steps-IsSound}
use falcon_lib.Packages.Cache.Store.{lookup_cached-store, lookup_cached-stale}

abbrev pub digest : String → String
digest text = if str_eq text "one" then "11" else "ff"

abbrev pub tools : Tools
tools = record { sha256_string = digest; dump = λ index. "{}"; parse = λ text. none }

abbrev pub files : FileSystem
files = record {
  cwd = "/p";
  nodes =
      ("/p", directory)
      ∷ ("/p/.falcon", directory)
      ∷ ("/p/.falcon/cache", directory)
      ∷ ("/p/a.fal", file "one")
      ∷ [];
}

abbrev pub cache : PackageCache
cache = record {
  cache_dir = "/p/.falcon/cache";
  index_path = "/p/.falcon/cache/index.json";
  index = [];
}

abbrev pub world : World
world = record { cache = cache; files = files }

abbrev copy : String
copy = "/p/.falcon/cache/11.fal"

abbrev stored : World
stored = record {
  cache = record cache { index = ("/p/a.fal", record { sha256 = "11"; cached_path = copy }) ∷ [] };
  files = record files {
    nodes =
        ("/p", directory)
        ∷ ("/p/.falcon", directory)
        ∷ ("/p/.falcon/cache", directory)
        ∷ ("/p/a.fal", file "one")
        ∷ (copy, file "one")
        ∷ ("/p/.falcon/cache/index.json", file "{}")
        ∷ [];
  };
}

store_run : store tools "a.fal" world ≡ (done copy, stored)
unfolding store canonical join cached_file sha256_file lookup parent_path has_prefix insert
store_run = refl

lookup_cached-store_example :
    (lookup_cached tools stored "a.fal" ≡ some copy)
    × (read stored.files copy ≡ read world.files "a.fal")
unfolding canonical has_prefix
lookup_cached-store_example =
    lookup_cached-store tools "a.fal" copy world stored store_run refl refl

abbrev changed : FileSystem
changed = record {
  cwd = "/p";
  nodes =
      ("/p", directory)
      ∷ ("/p/.falcon", directory)
      ∷ ("/p/.falcon/cache", directory)
      ∷ ("/p/a.fal", file "two")
      ∷ (copy, file "one")
      ∷ ("/p/.falcon/cache/index.json", file "{}")
      ∷ [];
}

lookup_cached-stale_example :
    lookup_cached tools (record stored { files = changed }) "a.fal"
    ≡ (if str_eq (digest "two") (digest "one") then some copy else none)
unfolding canonical has_prefix lookup parent_path insert
lookup_cached-stale_example =
    lookup_cached-stale tools "a.fal" copy "one" "two" world stored changed store_run refl refl refl

abbrev two_digests : Bool → String
two_digests b = if b then "11" else "ff"

same_copies :
    (a b : Bool)
    → same_file files (cached_file cache (two_digests a)) (cached_file cache (two_digests b)) ≡ true
    → two_digests a ≡ two_digests b
unfolding cached_file canonical has_prefix join
same_copies true true e = refl
same_copies true false e = absurd cc
same_copies false true e = absurd cc
same_copies false false e = refl

-- Two digests, whose copies are told apart by their names.
world_IsApart : IsApart tools cache files
unfolding cached_file canonical has_prefix join
world_IsApart = record {
  index_apart = λ text. elim (Bool-cases (str_eq text "one")) [
    | inl one ↦ rw one refl
    | inr other ↦ rw other refl
  ];
  copies_apart = λ s t e. same_copies (str_eq s "one") (str_eq t "one") e;
}

stored_soundly : Steps tools world stored
unfolding store canonical join cached_file sha256_file lookup parent_path has_prefix insert
stored_soundly = next here (storing "a.fal")

Steps-IsSound_example :
    IsIntact tools stored.cache stored.files (record { sha256 = "11"; cached_path = copy })
unfolding lookup
Steps-IsSound_example =
    Steps-IsSound tools world_IsApart refl stored_soundly "/p/a.fal"
      (record { sha256 = "11"; cached_path = copy }) refl
