-- ===== src/Packages/Manifest/Search.antt =====
-- The loop of `find_root`.

use mathlib.Core.Logic.{inl, inr}
use falcon_lib.Base.{ℕ, zero, suc, ◌<◌, String, true, ◌≡◌, arith}
use falcon_lib.Base.Text.{text_length}
use falcon_lib.Base.Maps.{is_some}
use falcon_lib.Files.{FileSystem}
use falcon_lib.Files.Paths.{parent_path, join}
use falcon_lib.Files.Paths.Parents.{parent_path_shorter}
use falcon_lib.Packages.Manifest.{find_root, find_root_from, start_directory}

find_root_from_ends :
    (fuel : ℕ) (fs : FileSystem) (dir : String)
    → text_length dir < fuel
    → is_some (find_root_from fuel fs dir) ≡ true
unfolding find_root_from
find_root_from_ends zero fs dir h = absurd (omega (arith, h))
find_root_from_ends (suc fuel) fs dir h = elim (parent_path_shorter dir) [
  | inl top ↦ ground (arith, top)
  | inr shorter ↦
      ground (arith, find_root_from_ends fuel fs (parent_path dir) (omega (arith, h, shorter)))
]

-- The search for the project's directory ends: it gives a directory or finds that there is none.
pub find_root_ends : (fs : FileSystem) (start : String) → is_some (find_root fs start) ≡ true
unfolding find_root
find_root_ends fs start =
    let dir = start_directory fs (join fs.cwd start) in
    find_root_from_ends (suc (text_length dir)) fs dir (omega arith)
