-- ===== src/Packages/Cache/Runs.antt =====
-- The runs of the cache: sequences of `store`, `invalidate` and `clear`, also of those that throw.
use falcon_lib.Base.{String, false, ◌≡◌, refl, ap, ◌∙◌, Option, none, some, [], ◌∷◌, arith}
use falcon_lib.Base.{inl, inr, str_eq, not, Bool-cases, Option-cases}
use falcon_lib.Base.Maps.{lookup}
use falcon_lib.Files.{FileSystem, canonical_in, read, copy_file, exists, remove}
use falcon_lib.Files.Laws.{write-IsWritten, copy_file-IsCopied}
use falcon_lib.Files.Removal.{remove-IsRemoved}
use falcon_lib.Packages.Reply.{Reply, done, thrown}
use falcon_lib.Packages.Cache.{
  CacheEntry, Tools, PackageCache, World, with_index, cached_file, store, invalidate, clear,
  saved_to, saved, save_index, record_copy, store_digest, sha256_file, drop_copy, after_save,
  removed, invalidate_entry, find_entry, still_referenced, remove_if_exists, remove_copies, cleared,
  Index,
}
use falcon_lib.Packages.Cache.Integrity.{
  IsSound, IsApart, IsIntact, IsApart-frame, IsSound-index, IsSound-copied, IsSound-dropped,
  IsSound-removed, digest_path,
}

module _ (tools : Tools) where
  abbrev IsSoundWorld : World → Type 0
  IsSoundWorld w = IsSound tools w.cache w.files

  IsSound-saved_to :
      {A : Type 0} (a : A) (w : World) (written : Option FileSystem)
      → save_index tools w.cache w.files ≡ written
      → IsSoundWorld w
      → IsSoundWorld (saved_to a w written).1
  unfolding save_index
  IsSound-saved_to a w none e s = s
  IsSound-saved_to a w (some fs) e s =
      IsSound-index tools w.cache w.files fs _ (write-IsWritten w.files w.cache.index_path _ fs e) s

  IsSound-record_copy :
      (source text : String) (w : World) (copy : Option FileSystem)
      → read w.files source ≡ some text
      → copy_file w.files source (digest_path tools w.cache text) ≡ copy
      → IsSoundWorld w
      → IsSoundWorld
          (record_copy tools source
            (tools.sha256_string text)
            (digest_path tools w.cache text)
            w
            copy).1
  unfolding record_copy saved
  IsSound-record_copy source text w none found e s = s
  IsSound-record_copy source text w (some fs) found e s =
      let (apart, c) = copy_file-IsCopied w.files source _ fs e in
      let same : c.text ≡ text = ground (arith, c.found_eq, found) in
      IsSound-saved_to _ _ _ refl
        (IsSound-copied tools source text w.cache w.files fs s (rw same at c.written))

  IsSound-store :
      (source : String) (w : World) → IsSoundWorld w → IsSoundWorld (store tools source w).1
  unfolding store store_digest sha256_file
  IsSound-store source w s = elim (Option-cases (read w.files source)) [
    | inl missing ↦ rw missing s
    | inr (text, found) ↦ rw found (IsSound-record_copy source text w _ found refl s)
  ]

  IsSound-removed_copy :
      (old : String) (w : World) (removal : Option FileSystem)
      → remove w.files (digest_path tools w.cache old) ≡ removal
      → still_referenced (digest_path tools w.cache old) w.cache.index ≡ false
      → IsSoundWorld w
      → IsSoundWorld (removed (digest_path tools w.cache old) w removal).1
  IsSound-removed_copy old w none e unused s = s
  IsSound-removed_copy old w (some fs) e unused s =
      IsSound-removed tools old w.cache w.files fs s unused (remove-IsRemoved w.files _ fs e)

  IsSound-drop_copy :
      (old : String) (w : World)
      → IsSoundWorld w
      → IsSoundWorld (drop_copy (digest_path tools w.cache old) w).1
  unfolding drop_copy
  IsSound-drop_copy old w s =
      elim (Bool-cases (still_referenced (digest_path tools w.cache old) w.cache.index)) [
        | inl used ↦ rw used s
        | inr unused ↦
            rw unused (elim (Bool-cases (exists w.files (digest_path tools w.cache old))) [
              | inl there ↦ rw there (IsSound-removed_copy old w _ refl unused s)
              | inr missing ↦ rw missing s
            ])
      ]

  -- The files and the index after the write of the index; a thrown write changed neither.
  IsSound-after_save :
      (old : String) (w : World) (written : Option FileSystem)
      → save_index tools w.cache w.files ≡ written
      → IsSoundWorld w
      → IsSoundWorld (after_save (digest_path tools w.cache old) (saved_to tt w written)).1
  unfolding after_save
  IsSound-after_save old w none e s = s
  IsSound-after_save old w (some fs) e s =
      IsSound-drop_copy old (record w { files = fs }) (IsSound-saved_to tt w (some fs) e s)

  IsSound-invalidate_entry :
      (key : String) (w : World) (found : Option CacheEntry)
      → lookup key w.cache.index ≡ found
      → IsSoundWorld w
      → IsSoundWorld (invalidate_entry tools key w found).1
  unfolding invalidate_entry saved cached_file
  IsSound-invalidate_entry key w none e s = s
  IsSound-invalidate_entry key w (some entry) e s =
      let i = s.entries key entry e in
      let dropped = IsSound-dropped tools (λ k. not (str_eq k key)) w.cache w.files s in
      rw i.entry_eq (IsSound-after_save i.text _ _ refl dropped)

  IsSound-invalidate :
      (source : String) (w : World) → IsSoundWorld w → IsSoundWorld (invalidate tools source w).1
  unfolding invalidate find_entry
  IsSound-invalidate source w s = IsSound-invalidate_entry (canonical_in w.files source) w _ refl s

remove_if_exists-cwd :
    (p : String) (fs after : FileSystem) → remove_if_exists p fs ≡ some after → after.cwd ≡ fs.cwd
unfolding remove_if_exists
remove_if_exists-cwd p fs after e = elim (Bool-cases (exists fs p)) [
  | inl there ↦ (remove-IsRemoved fs p after (ground (arith, e, there))).cwd
  | inr missing ↦ ground (arith, e, missing)
]

remove_copies-cwd : (m : Index) (fs : FileSystem) → (remove_copies m fs).1.cwd ≡ fs.cwd
unfolding remove_copies
remove_copies-cwd [] fs = refl
remove_copies-cwd ((k, entry) ∷ m) fs =
    elim (Option-cases (remove_if_exists entry.cached_path fs)) [
      | inl fails ↦ rw (remove_copies, fails) refl
      | inr (rest, e) ↦
          rw (remove_copies, e)
            (remove_copies-cwd m rest ∙ remove_if_exists-cwd entry.cached_path fs rest e)
    ]

lookup_empty :
    (tools : Tools) (key : String) (entry : CacheEntry) {m : Index} {c : PackageCache}
    {fs : FileSystem}
    → m ≡ []
    → lookup key m ≡ some entry
    → IsIntact tools c fs entry
unfolding lookup
lookup_empty tools key entry empty e = absurd (ground (arith, e, ap (lookup key) empty))

-- The file system after `clear` and the emptied cache.
record IsCleared (w after : World) : Type 0 where
  cwd : after.files.cwd ≡ w.files.cwd
  cache : after.cache ≡ with_index w.cache []

pub IsDone : {A : Type 0} → Reply A → Type 0
IsDone (done a) = Unit
IsDone (thrown e) = ⊥

cleared-IsCleared :
    (w : World) (copies : Reply (Unit {0}) × FileSystem)
    → copies.1.cwd ≡ w.files.cwd
    → IsDone (cleared w copies).0
    → IsCleared w (cleared w copies).1
unfolding cleared IsDone
cleared-IsCleared w (thrown e, fs) cwd d = absurd d
cleared-IsCleared w (done u, fs) cwd d =
    elim (Option-cases (remove_if_exists w.cache.index_path fs)) [
      | inl fails ↦ rw fails (record { cwd = cwd; cache = refl })
      | inr (after, e) ↦
          rw e (record {
            cwd = remove_if_exists-cwd w.cache.index_path fs after e ∙ cwd;
            cache = refl;
          })
    ]

module _ (tools : Tools) where
  -- A `clear` that threw has removed copies, and may have kept their entries.
  IsSound-clear :
      (w : World) → IsDone (clear w).0 → IsSoundWorld tools w → IsSoundWorld tools (clear w).1
  unfolding clear
  IsSound-clear w d s =
      let c = cleared-IsCleared w _ (remove_copies-cwd w.cache.index w.files) d in
      record {
        apart =
            IsApart-frame tools w.cache (clear w).1.cache w.files _ (ap (λ k. k.cache_dir) c.cache)
              (ap (λ k. k.index_path) c.cache) c.cwd s.apart;
        entries = λ key entry e. lookup_empty tools key entry (ap (λ k. k.index) c.cache) e;
      }

  -- One command: `store` and `invalidate` whatever their reply, `clear` when it did not throw.
  pub data Step : World → World → Type 0 where
    storing : (source : String) {w : World} → Step w (store tools source w).1
    invalidating : (source : String) {w : World} → Step w (invalidate tools source w).1
    clearing : {w : World} → IsDone (clear w).0 → Step w (clear w).1

  pub data Steps (w : World) : World → Type 0 where
    here : Steps w w
    next : {middle after : World} → Steps w middle → Step middle after → Steps w after

  Step-IsSound : {w after : World} → Step w after → IsSoundWorld tools w → IsSoundWorld tools after
  Step-IsSound (storing source) s = IsSound-store tools source _ s
  Step-IsSound (invalidating source) s = IsSound-invalidate tools source _ s
  Step-IsSound (clearing d) s = IsSound-clear _ d s

  Steps-IsSoundWorld :
      {w after : World} → IsSoundWorld tools w → Steps w after → IsSoundWorld tools after
  Steps-IsSoundWorld s here = s
  Steps-IsSoundWorld s (next steps step) = Step-IsSound step (Steps-IsSoundWorld s steps)

  -- In every state that commands reach from a cache with an empty index, each entry names a copy
  -- that is there, under the name that its digest gives, with a text of that digest. Digests give
  -- the copies different names, which are not the index's.
  pub Steps-IsSound :
      {w after : World}
      → IsApart tools w.cache w.files
      → w.cache.index ≡ []
      → Steps w after
      → (key : String) (entry : CacheEntry) → lookup key after.cache.index ≡ some entry
      → IsIntact tools after.cache after.files entry
  Steps-IsSound {w} apart empty steps =
      let start : IsSoundWorld tools w = record {
        apart = apart;
        entries = λ key entry e. lookup_empty tools key entry empty e;
      } in
      (Steps-IsSoundWorld start steps).entries
