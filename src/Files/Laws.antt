-- ===== src/Files/Laws.antt =====
-- What a read finds after a write and after a copy.
use falcon_lib.Base.{
  String, true, false, ◌≡◌, refl, ap, ◌∙◌, Option, none, some, arith, eq_iff, eq_refl,
}
use falcon_lib.Base.{inl, inr, str_eq, if◌then◌else◌, Bool-cases}
use falcon_lib.Base.Maps.{lookup, lookup-insert}
use falcon_lib.Files.Paths.{canonical}
use falcon_lib.Files.{
  file, FileSystem, canonical_in, node_at, read, write, same_file, copy_file, write_read, node_text,
  exists, node_exists,
}

-- The file system `after` is `before` with the text of one file set.
pub record IsWritten (before : FileSystem) (p text : String) (after : FileSystem) : Type 0 where
  pub cwd : after.cwd ≡ before.cwd
  pub nodes :
      (q : String)
      → lookup q after.nodes
        ≡ (if str_eq (canonical_in before p) q then some (file text) else lookup q before.nodes)

pub write-IsWritten :
    (fs : FileSystem) (p text : String) (after : FileSystem)
    → write fs p text ≡ some after
    → IsWritten fs p text after
write-IsWritten fs p text after e = record {
  cwd = ground (arith, e);
  nodes = λ q. ground (arith, e, lookup-insert (canonical_in fs p) q (file text) fs.nodes);
}

pub record IsCopied (fs : FileSystem) (to : String) (after : FileSystem) (found : Option String)
    : Type 0 where
  pub text : String
  pub found_eq : found ≡ some text
  pub written : IsWritten fs to text after

write_read-IsCopied :
    (fs : FileSystem) (to : String) (after : FileSystem) (found : Option String)
    → write_read fs to found ≡ some after
    → IsCopied fs to after found
write_read-IsCopied fs to after none e = absurd cc
write_read-IsCopied fs to after (some text) e = record {
  text = text;
  found_eq = refl;
  written = write-IsWritten fs to text after e;
}

pub copy_file-IsCopied :
    (fs : FileSystem) (from to : String) (after : FileSystem)
    → copy_file fs from to ≡ some after
    → (same_file fs from to ≡ false) × IsCopied fs to after (read fs from)
copy_file-IsCopied fs from to after e = elim (Bool-cases (same_file fs from to)) [
  | inl same ↦ absurd (ground (arith, e, same))
  | inr other ↦ (other, write_read-IsCopied fs to after (read fs from) (ground (arith, e, other)))
]

module _ {before after : FileSystem} {p text : String} (w : IsWritten before p text after) where
  pub canonical-IsWritten : (q : String) → canonical_in after q ≡ canonical_in before q
  canonical-IsWritten q = ap (λ cwd. canonical cwd q) w.cwd

  pub same_file-IsWritten : (q r : String) → same_file after q r ≡ same_file before q r
  same_file-IsWritten q r = ap (λ cwd. str_eq (canonical cwd q) (canonical cwd r)) w.cwd

  pub node_at-IsWritten :
      (q : String)
      → node_at after q ≡ (if same_file before p q then some (file text) else node_at before q)
  node_at-IsWritten q = rw (canonical-IsWritten q) (w.nodes (canonical_in before q))

  pub read_written : read after p ≡ some text
  read_written =
      ap node_text (node_at-IsWritten p) ∙ ground (arith, eq_refl (canonical_in before p))

  pub read_unchanged : (q : String) → same_file before q p ≡ false → read after q ≡ read before q
  read_unchanged q apart =
      ap node_text (node_at-IsWritten q)
      ∙ ground (
        arith,
        apart,
        eq_iff (canonical_in before q) (canonical_in before p),
        eq_iff (canonical_in before p) (canonical_in before q),
      )

  pub exists_kept : (q : String) → exists before q ≡ true → exists after q ≡ true
  exists_kept q there = ap node_exists (node_at-IsWritten q) ∙ ground (arith, there)

pub exists_of_read :
    (fs : FileSystem) (p text : String) → read fs p ≡ some text → exists fs p ≡ true
exists_of_read fs p text e = ground (arith, e)
