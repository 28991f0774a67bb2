-- ===== src/Files/Removal.antt =====
-- What is there after a removal.
use falcon_lib.Base.{String, false, ◌≡◌, refl, ap, ◌∙◌, Option, none, some, arith}
use falcon_lib.Base.{str_eq, not, if◌then◌else◌, eq_iff}
use falcon_lib.Base.Maps.{lookup, lookup-keep}
use falcon_lib.Files.Paths.{canonical}
use falcon_lib.Files.{
  Node, file, directory, FileSystem, canonical_in, node_at, node_text, read, same_file, remove,
  remove_node,
}

-- The file system `after` is `before` without the entry of one path.
pub record IsRemoved (before : FileSystem) (p : String) (after : FileSystem) : Type 0 where
  pub cwd : after.cwd ≡ before.cwd
  pub nodes :
      (q : String)
      → lookup q after.nodes
        ≡ (if str_eq q (canonical_in before p) then none else lookup q before.nodes)

remove_node-IsRemoved :
    (fs : FileSystem) (p : String) (after : FileSystem) (node : Option Node)
    → node_at fs p ≡ node
    → remove_node fs p node ≡ some after
    → IsRemoved fs p after
unfolding remove_node
remove_node-IsRemoved fs p after none at e = record {
  cwd = ground (arith, e);
  nodes = λ q. ground (arith, e, at, eq_iff q (canonical_in fs p));
}
remove_node-IsRemoved fs p after (some (file text)) at e = record {
  cwd = ground (arith, e);
  nodes = λ q. ground (arith, e, lookup-keep (λ r. not (str_eq r (canonical_in fs p))) q fs.nodes);
}
remove_node-IsRemoved fs p after (some directory) at e = record {
  cwd = ground (arith, e);
  nodes = λ q. ground (arith, e, lookup-keep (λ r. not (str_eq r (canonical_in fs p))) q fs.nodes);
}

pub remove-IsRemoved :
    (fs : FileSystem) (p : String) (after : FileSystem)
    → remove fs p ≡ some after
    → IsRemoved fs p after
unfolding remove
remove-IsRemoved fs p after e = remove_node-IsRemoved fs p after (node_at fs p) refl e

module _ {before after : FileSystem} {p : String} (r : IsRemoved before p after) where
  pub canonical-IsRemoved : (q : String) → canonical_in after q ≡ canonical_in before q
  canonical-IsRemoved q = ap (λ cwd. canonical cwd q) r.cwd

  node_at-IsRemoved :
      (q : String) → node_at after q ≡ (if same_file before q p then none else node_at before q)
  node_at-IsRemoved q = rw (canonical-IsRemoved q) (r.nodes (canonical_in before q))

  pub read-IsRemoved : (q : String) → same_file before q p ≡ false → read after q ≡ read before q
  read-IsRemoved q apart = ap node_text (node_at-IsRemoved q) ∙ ground (arith, apart)
