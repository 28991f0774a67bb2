-- ===== src/Files.antt =====
-- The file system as the code sees it through `std::filesystem`, `std::ifstream` and
-- `std::ofstream`: regular files with their text and directories, under their canonical paths.
-- Permissions, symbolic links and a full disk are not modelled: an operation fails when a path is
-- missing, is of the wrong kind, or has no directory to stand in.
pub mod Paths
pub mod Laws
pub mod Removal
use mathlib.Core.Option
use falcon_lib.Base.{String, Bool, true, false, Option, none, some, List, [], ◌∷◌}
use falcon_lib.Base.{str_eq, not, ◌&&◌, ◌||◌, if◌then◌else◌}
use falcon_lib.Base.Text.{◌⊹◌, has_prefix}
use falcon_lib.Base.Maps.{Map, lookup, insert, contains, keep}
use falcon_lib.Files.Paths.{canonical, canonical_parts, render, parent_path}

pub data Node : Type 0 where
  file : String → Node
  directory : Node

pub record FileSystem : Type 0 where
  pub cwd : String
  pub nodes : Map Node

abbrev pub canonical_in : FileSystem → String → String
canonical_in fs p = canonical fs.cwd p

abbrev pub node_at : FileSystem → String → Option Node
node_at fs p = lookup (canonical_in fs p) fs.nodes

abbrev node_is_directory : Option Node → Bool
node_is_directory none = false
node_is_directory (some (file text)) = false
node_is_directory (some directory) = true

abbrev pub node_text : Option Node → Option String
node_text none = none
node_text (some (file text)) = some text
node_text (some directory) = none

abbrev node_exists : Option Node → Bool
node_exists none = false
node_exists (some node) = true

abbrev pub exists : FileSystem → String → Bool
exists fs p = node_exists (node_at fs p)

-- The root is a directory that is always there.
abbrev pub is_directory : FileSystem → String → Bool
is_directory fs p = str_eq (canonical_in fs p) "/" || node_is_directory (node_at fs p)

-- The whole text of a file that can be opened.
abbrev pub read : FileSystem → String → Option String
read fs p = node_text (node_at fs p)

abbrev put : FileSystem → String → Node → FileSystem
put fs p node = record fs { nodes = insert (canonical_in fs p) node fs.nodes }

-- A new text for a file, made if it is missing; none when it cannot be opened for writing.
abbrev pub write : FileSystem → String → String → Option FileSystem
write fs p text =
    if not (is_directory fs p) && is_directory fs (parent_path (canonical_in fs p))
    then some (put fs p (file text))
    else none

abbrev pub same_file : FileSystem → String → String → Bool
same_file fs p q = str_eq (canonical_in fs p) (canonical_in fs q)

abbrev write_read : FileSystem → String → Option String → Option FileSystem
write_read fs to none = none
write_read fs to (some text) = write fs to text

-- `copy_file(from, to, overwrite_existing)`, which refuses a copy of a file to itself
abbrev pub copy_file : FileSystem → String → String → Option FileSystem
copy_file fs from to = if same_file fs from to then none else write_read fs to (read fs from)

abbrev drop_node : FileSystem → String → FileSystem
drop_node fs p = record fs { nodes = keep (λ q. not (str_eq q (canonical_in fs p))) fs.nodes }

any_below : String → Map Node → Bool
any_below p [] = false
any_below p ((q, node) ∷ m) = has_prefix (p ⊹ "/") q || any_below p m

remove_node : FileSystem → String → Option Node → Option FileSystem
unfolding any_below
remove_node fs p none = some fs
remove_node fs p (some (file text)) = some (drop_node fs p)
remove_node fs p (some directory) =
    if any_below (canonical_in fs p) fs.nodes then none else some (drop_node fs p)

-- `std::filesystem::remove`: none when it throws, as it does on a directory that is not empty
unfoldable pub remove : FileSystem → String → Option FileSystem
unfolding remove_node
remove fs p = remove_node fs p (node_at fs p)

-- The keys of the files and directories below a directory, at any depth.
below : String → Map Node → List String
below p [] = []
below p ((q, node) ∷ m) = let rest = below p m in if has_prefix (p ⊹ "/") q then q ∷ rest else rest

-- `recursive_directory_iterator(p)`
unfoldable pub entries_below : FileSystem → String → List String
unfolding below
entries_below fs p = below (canonical_in fs p) fs.nodes

with_directory : String → Map Node → Option Node → Option (Map Node)
with_directory key m none = some (insert key directory m)
with_directory key m (some directory) = some m
with_directory key m (some (file text)) = none

-- Every directory on the way, given by its parts with the last one first.
make_directories : List String → Map Node → Option (Map Node)
unfolding with_directory
make_directories [] m = some m
make_directories (p ∷ ps) m = elim (make_directories ps m) [
  | none ↦ none
  | some made ↦ with_directory (render (p ∷ ps)) made (lookup (render (p ∷ ps)) made)
]

-- `create_directories(p)`: none when a file stands in the way
unfoldable pub create_directories : FileSystem → String → Option FileSystem
unfolding make_directories
create_directories fs p =
    Option.map (λ m. record fs { nodes = m }) (make_directories (canonical_parts fs.cwd p) fs.nodes)

directly_below : String → Map Node → List String
directly_below p [] = []
directly_below p ((q, node) ∷ m) =
    let rest = directly_below p m in
    if has_prefix (p ⊹ "/") q && str_eq (parent_path q) p then q ∷ rest else rest

-- `directory_iterator(p)`
unfoldable pub entries_in : FileSystem → String → List String
unfolding directly_below
entries_in fs p = directly_below (canonical_in fs p) fs.nodes
