-- ===== src/Packages/Cache/Integrity.antt =====
-- The runs of the cache: sequences of `store`, `invalidate` and `clear`, also of those that throw.
use falcon_lib.Base.{String, Bool, true, false, ◌≡◌, refl, sym, ap, ◌∙◌, some, [], ◌∷◌, arith}
use falcon_lib.Base.{inl, inr, str_eq, Bool-cases, eq_iff}
use falcon_lib.Base.Maps.{lookup, keep, lookup-insert_cases, lookup-keep-some}
use falcon_lib.Files.{FileSystem, canonical_in, read, same_file}
use falcon_lib.Files.Laws.{IsWritten, read_unchanged, read_written}
use falcon_lib.Packages.Cache.{
  CacheEntry, Index, entry_of, Tools, PackageCache, World, with_index, cached_file,
  still_referenced,
}
use falcon_lib.Files.Removal.{IsRemoved, read-IsRemoved}
use falcon_lib.Packages.Cache.Store.{indexed}

abbrev world : PackageCache → FileSystem → World
world c fs = record { cache = c; files = fs }

still_referenced-lookup :
    (cached key : String) (entry : CacheEntry) (m : Index)
    → lookup key m ≡ some entry
    → still_referenced cached m ≡ false
    → str_eq entry.cached_path cached ≡ false
unfolding still_referenced lookup
still_referenced-lookup cached key entry [] e unused = absurd cc
still_referenced-lookup cached key entry ((k, first) ∷ m) e unused =
    ground (arith, e, unused, still_referenced-lookup cached key entry m)

module _ (tools : Tools) where
  abbrev pub digest_path : PackageCache → String → String
  digest_path c text = cached_file c (tools.sha256_string text)

  -- The copies are other files than the index, and texts with different digests have different
  -- copies. (A digest is a text of hexadecimal digits.)
  pub record IsApart (c : PackageCache) (fs : FileSystem) : Type 0 where
    pub index_apart :
        (text : String)
        → same_file fs (cached_file c (tools.sha256_string text)) c.index_path ≡ false
    pub copies_apart :
        (s t : String)
        → same_file fs
            (cached_file c (tools.sha256_string s))
            (cached_file c (tools.sha256_string t))
          ≡ true
        → tools.sha256_string s ≡ tools.sha256_string t

  -- The copy of an entry is the file named by its digest, with a text of that digest.
  pub record IsIntact (c : PackageCache) (fs : FileSystem) (entry : CacheEntry) : Type 0 where
    pub text : String
    pub copy : read fs (digest_path c text) ≡ some text
    pub entry_eq : entry ≡ entry_of (tools.sha256_string text) (digest_path c text)

  pub record IsSound (c : PackageCache) (fs : FileSystem) : Type 0 where
    pub apart : IsApart c fs
    pub entries :
        (key : String) (entry : CacheEntry) → lookup key c.index ≡ some entry → IsIntact c fs entry

  pub IsApart-frame :
      (c c' : PackageCache) (fs fs' : FileSystem)
      → c'.cache_dir ≡ c.cache_dir
      → c'.index_path ≡ c.index_path
      → fs'.cwd ≡ fs.cwd
      → IsApart c fs
      → IsApart c' fs'
  unfolding cached_file
  IsApart-frame c c' fs fs' dir index cwd a = record {
    index_apart = λ text. rw (dir, index, cwd) (a.index_apart text);
    copies_apart = λ s t h. a.copies_apart s t (rw (dir, cwd) at h);
  }

  -- A text written over the copy that its digest names leaves every copy intact.
  IsIntact-copied :
      (c : PackageCache) (fs after : FileSystem) (new : String) (entry : CacheEntry)
      → IsApart c fs
      → IsWritten fs (cached_file c (tools.sha256_string new)) new after
      → IsIntact c fs entry
      → IsIntact c after entry
  IsIntact-copied c fs after new entry a written i =
      elim (Bool-cases (same_file fs (digest_path c i.text) (digest_path c new))) [
        | inl same ↦
            let digest = a.copies_apart i.text new same in
            record {
              text = new;
              copy = read_written written;
              entry_eq = rw (sym digest) i.entry_eq;
            }
        | inr other ↦ record {
          text = i.text;
          copy = read_unchanged written (digest_path c i.text) other ∙ i.copy;
          entry_eq = i.entry_eq;
        }
      ]

  pub IsSound-index :
      (c : PackageCache) (fs after : FileSystem) (json : String)
      → IsWritten fs c.index_path json after
      → IsSound c fs
      → IsSound c after
  IsSound-index c fs after json written s = record {
    apart = IsApart-frame c c fs after refl refl written.cwd s.apart;
    entries = λ key entry e.
        let i = s.entries key entry e in
        record {
          text = i.text;
          copy =
              read_unchanged written (digest_path c i.text) (s.apart.index_apart i.text) ∙ i.copy;
          entry_eq = i.entry_eq;
        };
  }

  IsIntact-frame :
      (c c' : PackageCache) (fs : FileSystem) (entry : CacheEntry)
      → c'.cache_dir ≡ c.cache_dir
      → IsIntact c fs entry
      → IsIntact c' fs entry
  unfolding cached_file
  IsIntact-frame c c' fs entry dir i = record {
    text = i.text;
    copy = rw dir i.copy;
    entry_eq = rw dir i.entry_eq;
  }

  -- The copy is made and the entry is set.
  pub IsSound-copied :
      (source new : String) (c : PackageCache) (fs after : FileSystem)
      → IsSound c fs
      → IsWritten fs (digest_path c new) new after
      → IsSound (indexed source (tools.sha256_string new) (digest_path c new) (world c fs)) after
  unfolding cached_file
  IsSound-copied source new c fs after s written =
      let c' = indexed source (tools.sha256_string new) (digest_path c new) (world c fs) in
      record {
        apart = IsApart-frame c c' fs after refl refl written.cwd s.apart;
        entries = λ key entry e.
            elim (lookup-insert_cases (canonical_in fs source) key
              (entry_of (tools.sha256_string new) (digest_path c new)) entry c.index e) [
                | inl fresh ↦ record { text = new; copy = read_written written; entry_eq = fresh }
                | inr old ↦
                    IsIntact-frame c c' after entry refl (
                      IsIntact-copied c fs after new entry s.apart written
                        (s.entries key entry old))
              ];
      }

  pub IsSound-dropped :
      (p : String → Bool) (c : PackageCache) (fs : FileSystem)
      → IsSound c fs
      → IsSound (with_index c (keep p c.index)) fs
  IsSound-dropped p c fs s =
      let c' = with_index c (keep p c.index) in
      record {
        apart = IsApart-frame c c' fs fs refl refl refl s.apart;
        entries = λ key entry e.
            IsIntact-frame c c' fs entry refl
              (s.entries key entry (lookup-keep-some p key entry c.index e));
      }

  -- A copy that no entry names is removed.
  pub IsSound-removed :
      (old : String) (c : PackageCache) (fs after : FileSystem)
      → IsSound c fs
      → still_referenced (digest_path c old) c.index ≡ false
      → IsRemoved fs (digest_path c old) after
      → IsSound c after
  IsSound-removed old c fs after s unused r = record {
    apart = IsApart-frame c c fs after refl refl r.cwd s.apart;
    entries = λ key entry e.
        let i = s.entries key entry e in
        elim (Bool-cases (same_file fs (digest_path c i.text) (digest_path c old))) [
          | inl same ↦ absurd (
              ground (
                arith,
                still_referenced-lookup (digest_path c old) key entry c.index e unused,
                i.entry_eq,
                ap (cached_file c) (s.apart.copies_apart i.text old same),
                eq_iff entry.cached_path (digest_path c old),
              ))
          | inr other ↦ record {
            text = i.text;
            copy = read-IsRemoved r (digest_path c i.text) other ∙ i.copy;
            entry_eq = i.entry_eq;
          }
        ];
  }
