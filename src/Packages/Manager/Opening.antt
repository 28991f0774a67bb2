-- ===== src/Packages/Manager/Opening.antt =====
-- The constructor of the manager.
use mathlib.Core.Option
use falcon_lib.Base.{String, true, ◌≡◌, refl, ◌∙◌, Option, none, some}
use falcon_lib.Base.Maps.{is_some}
use falcon_lib.Files.{FileSystem}
use falcon_lib.Packages.Cache.{Tools}
use falcon_lib.Packages.Manifest.{Yaml, find_root}
use falcon_lib.Packages.Manifest.Search.{find_root_ends}
use falcon_lib.Packages.Manager.{open_manager, at_root}

pub is_some-map : {A B : Type 0} (f : A → B) (o : Option A) → is_some (Option.map f o) ≡ is_some o
is_some-map f none = refl
is_some-map f (some a) = refl

-- Opening a project ends: it gives a session or an exception.
pub open_manager_ends :
    (tools : Tools) (yaml : Yaml) (fs : FileSystem) (start : String)
    → is_some (open_manager tools yaml fs start) ≡ true
unfolding open_manager
open_manager_ends tools yaml fs start =
    is_some-map (at_root tools yaml fs start) (find_root fs start) ∙ find_root_ends fs start
