-- ===== src/Packages/Cache/Store.antt =====
-- `store`, and the lookups that follow it.
use falcon_lib.Base.{String, true, false, ◌≡◌, refl, sym, ap, ◌∙◌, Option, none, some, arith}
use falcon_lib.Base.{inl, inr, str_eq, if◌then◌else◌, Option-cases, eq_refl}
use falcon_lib.Base.Maps.{insert, lookup-insert}
use falcon_lib.Files.{FileSystem, canonical_in, read, same_file, copy_file, write, exists}
use falcon_lib.Files.Laws.{
  IsWritten, write-IsWritten, copy_file-IsCopied, canonical-IsWritten, same_file-IsWritten,
  read_unchanged, read_written, exists_of_read, exists_kept,
}
use falcon_lib.Packages.Reply.{done}
use falcon_lib.Packages.Cache.{
  entry_of, find_entry, entry_lookup, fresh, Tools, PackageCache, World, with_index, save_index,
  sha256_file, cached_file, store, store_digest, record_copy, saved, saved_to, lookup_cached,
}

abbrev pub indexed : String → String → String → World → PackageCache
indexed source sha dest w =
    with_index w.cache (insert (canonical_in w.files source) (entry_of sha dest) w.cache.index)

abbrev recorded : String → String → String → World → FileSystem → World
recorded source sha dest w fs = record { cache = indexed source sha dest w; files = fs }

saved_to_ok :
    {A : Type 0} (a b : A) (w after : World) (written : Option FileSystem)
    → saved_to a w written ≡ (done b, after)
    → (a ≡ b) × (record after { files = w.files } ≡ w) × (written ≡ some after.files)
saved_to_ok a b w after none e = absurd cc
saved_to_ok a b w after (some fs) e = (ground (arith, e), ground (arith, e), ground (arith, e))

module _ (tools : Tools) where
  -- A run of `record_copy` that gave `final`: the copy was made, and the new index was written.
  record IsRecorded (source sha dest : String) (w : World) (copy : Option FileSystem)
      (final : String) (after : World) : Type 0 where
    copied : FileSystem
    copy_eq : copy ≡ some copied
    final_eq : dest ≡ final
    cache_eq : after.cache ≡ indexed source sha dest w
    written : IsWritten copied w.cache.index_path (tools.dump after.cache.index) after.files

  record_copy_ok :
      (source sha dest final : String) (w after : World) (copy : Option FileSystem)
      → record_copy tools source sha dest w copy ≡ (done final, after)
      → IsRecorded source sha dest w copy final after
  unfolding record_copy saved save_index
  record_copy_ok source sha dest final w after none e = absurd cc
  record_copy_ok source sha dest final w after (some fs) e =
      let (final_eq, rest, written) =
        saved_to_ok dest final (recorded source sha dest w fs) after _ e in
      let cache_eq : after.cache ≡ indexed source sha dest w = ap (λ u. u.cache) rest in
      record {
        copied = fs;
        copy_eq = refl;
        final_eq = final_eq;
        cache_eq = cache_eq;
        written = rw cache_eq (write-IsWritten fs w.cache.index_path _ after.files written);
      }

  -- A run of `store` that gives `dest`: the two files it writes, and the new index.
  pub record IsStored (source : String) (w : World) (dest : String) (after : World) : Type 0 where
    pub text : String
    pub source_text : read w.files source ≡ some text
    pub dest_eq : cached_file w.cache (tools.sha256_string text) ≡ dest
    pub apart : same_file w.files source dest ≡ false
    pub copied : FileSystem
    pub dest_written : IsWritten w.files dest text copied
    pub index_written :
        IsWritten copied w.cache.index_path (tools.dump after.cache.index) after.files
    pub cache_eq : after.cache ≡ indexed source (tools.sha256_string text) dest w

  IsRecorded-IsStored :
      (source dest text : String) (w after : World)
      → read w.files source ≡ some text
      → let put = cached_file w.cache (tools.sha256_string text) in
        IsRecorded source (tools.sha256_string text) put w (copy_file w.files source put) dest after
        → IsStored source w dest after
  IsRecorded-IsStored source dest text w after found r =
      let put = cached_file w.cache (tools.sha256_string text) in
      let (apart, copy) = copy_file-IsCopied w.files source put r.copied r.copy_eq in
      let same : copy.text ≡ text = ground (arith, copy.found_eq, found) in
      record {
        text = text;
        source_text = found;
        dest_eq = r.final_eq;
        apart = rw (sym r.final_eq) apart;
        copied = r.copied;
        dest_written = rw (sym r.final_eq) (rw same at copy.written);
        index_written = r.written;
        cache_eq = rw (sym r.final_eq) r.cache_eq;
      }

  pub store_ok :
      (source dest : String) (w after : World)
      → store tools source w ≡ (done dest, after)
      → IsStored source w dest after
  unfolding store store_digest sha256_file
  store_ok source dest w after e = elim (Option-cases (read w.files source)) [
    | inl missing ↦ absurd (ground (arith, e, missing))
    | inr (text, found) ↦
        IsRecorded-IsStored source dest text w after found
          (record_copy_ok source _ _ dest w after _ (ground (arith, e, found)))
  ]

  -- The index has an entry for the source, and its copy is there.
  record IsCached (source sha dest : String) (w : World) : Type 0 where
    entry : find_entry w.cache (canonical_in w.files source) ≡ some (entry_of sha dest)
    there : exists w.files dest ≡ true

  lookup_cached-IsCached :
      {source sha dest : String} (w : World)
      → IsCached source sha dest w
      → (text : String) → read w.files source ≡ some text
      → lookup_cached tools w source
        ≡ (if str_eq (tools.sha256_string text) sha then some dest else none)
  unfolding lookup_cached entry_lookup fresh sha256_file
  lookup_cached-IsCached w c text found = rw c.entry (ground (arith, c.there, found))

  module _ {source dest : String} {w after : World} (r : IsStored source w dest after) where
    canonical-IsStored : (q : String) → canonical_in after.files q ≡ canonical_in w.files q
    canonical-IsStored q =
        canonical-IsWritten r.index_written q ∙ canonical-IsWritten r.dest_written q

    index_apart :
        (q : String)
        → same_file w.files q w.cache.index_path ≡ false
        → same_file r.copied q w.cache.index_path ≡ false
    index_apart q apart = same_file-IsWritten r.dest_written q _ ∙ apart

    read_source :
        same_file w.files source w.cache.index_path ≡ false → read after.files source ≡ some r.text
    read_source apart =
        read_unchanged r.index_written source (index_apart source apart)
        ∙ read_unchanged r.dest_written source r.apart
        ∙ r.source_text

    read_dest :
        same_file w.files dest w.cache.index_path ≡ false → read after.files dest ≡ some r.text
    read_dest apart =
        read_unchanged r.index_written dest (index_apart dest apart) ∙ read_written r.dest_written

    entry_after :
        find_entry after.cache (canonical_in after.files source)
        ≡ some (entry_of (tools.sha256_string r.text) dest)
    unfolding find_entry
    entry_after =
        rw (canonical-IsStored source, r.cache_eq)
          (lookup-insert (canonical_in w.files source) (canonical_in w.files source) _ w.cache.index
            ∙ ground (arith, eq_refl (canonical_in w.files source)))

    IsStored-IsCached :
        same_file w.files dest w.cache.index_path ≡ false
        → IsCached source (tools.sha256_string r.text) dest after
    IsStored-IsCached apart = record {
      entry = entry_after;
      there = exists_of_read after.files dest r.text (read_dest apart);
    }

  -- A file that was stored is found again: `lookup` gives the path that `store` gave, and the text
  -- there is the source's. The source and its copy are other files than the index.
  pub lookup_cached-store :
      (source dest : String) (w after : World)
      → store tools source w ≡ (done dest, after)
      → same_file w.files source w.cache.index_path ≡ false
      → same_file w.files dest w.cache.index_path ≡ false
      → (lookup_cached tools after source ≡ some dest)
        × (read after.files dest ≡ read w.files source)
  lookup_cached-store source dest w after e source_apart dest_apart =
      let r = store_ok source dest w after e in
      (
        lookup_cached-IsCached after (IsStored-IsCached r dest_apart) r.text
              (read_source r source_apart)
            ∙ ground (arith, eq_refl (tools.sha256_string r.text)),
        read_dest r dest_apart ∙ sym r.source_text,
      )

  -- The entry outlives a write to the source.
  IsCached-changed :
      {source sha dest new : String} (w : World) (changed : FileSystem)
      → IsCached source sha dest w
      → IsWritten w.files source new changed
      → IsCached source sha dest (record w { files = changed })
  IsCached-changed {source} w changed c written = record {
    entry = rw (canonical-IsWritten written source) c.entry;
    there = exists_kept written _ c.there;
  }

  -- Once the source has another text, the copy is found exactly when the two texts have the same
  -- digest: a stale copy is never given. The copy is another file than the index.
  pub lookup_cached-stale :
      (source dest old new : String) (w after : World) (changed : FileSystem)
      → store tools source w ≡ (done dest, after)
      → same_file w.files dest w.cache.index_path ≡ false
      → read w.files source ≡ some old
      → write after.files source new ≡ some changed
      → lookup_cached tools (record after { files = changed }) source
        ≡ (if str_eq (tools.sha256_string new) (tools.sha256_string old) then some dest else none)
  lookup_cached-stale source dest old new w after changed e apart found write_eq =
      let r = store_ok source dest w after e in
      let written = write-IsWritten after.files source new changed write_eq in
      let same : r.text ≡ old = ground (arith, r.source_text, found) in
      rw (sym same) (
        lookup_cached-IsCached _
          (IsCached-changed after changed (IsStored-IsCached r apart) written) new
          (read_written written))
