-- ===== src/Files/Paths.antt =====
-- `std::filesystem::path` as its text, in the POSIX format, with the operations that the source
-- calls. No path is a symbolic link, so `weakly_canonical` reads the text and the current directory
-- only.
pub mod Parents
use Prim.Native.Char.{Char, code}
use Prim.Native.String.{[], ◌∷◌}
use mathlib.Core.List
use falcon_lib.Base.{String, Bool, true, false, Option, none, some, List, ◌||◌, ◌&&◌}
use falcon_lib.Base.{str_eq, ◌==◌, if◌then◌else◌}
use falcon_lib.Base.Text.{◌⊹◌, has_prefix, before_last_found}

-- A character put before the first of the parts.
grow : Char → List String → List String
grow x List.[] = List.◌∷◌ (x ∷ []) List.[]
grow x (List.◌∷◌ p ps) = List.◌∷◌ (x ∷ p) ps

-- The texts between the slashes.
parts : String → List String
unfolding grow
parts [] = List.◌∷◌ "" List.[]
parts (x ∷ s) = let rest = parts s in if code x == b'/' then List.◌∷◌ "" rest else grow x rest

without_last : List String → List String
without_last List.[] = List.[]
without_last (List.◌∷◌ p ps) = ps

-- One part, on a path whose parts stand in `done`, the last one first.
descend : List String → String → List String
unfolding without_last
descend done p =
    if str_eq p "" || str_eq p "."
    then done
    else if str_eq p ".."
    then without_last done
    else List.◌∷◌ p done

settle : List String → List String → List String
unfolding descend
settle done List.[] = done
settle done (List.◌∷◌ p ps) = settle (descend done p) ps

unfoldable pub render : List String → String
render List.[] = ""
render (List.◌∷◌ p ps) = render ps ⊹ "/" ⊹ p

or_root : String → String
or_root s = if str_eq s "" then "/" else s

unfoldable pub is_absolute : String → Bool
is_absolute p = has_prefix "/" p

-- The parts of the canonical path, the last one first.
unfoldable pub canonical_parts : String → String → List String
unfolding settle parts is_absolute
canonical_parts cwd p =
    let base = if is_absolute p then List.[] else settle List.[] (parts cwd) in
    settle base (parts p)

-- `weakly_canonical(p).string()` in the current directory `cwd`
unfoldable pub canonical : String → String → String
unfolding canonical_parts render or_root
canonical cwd p = or_root (render (canonical_parts cwd p))

ends_with_slash : String → Bool
ends_with_slash [] = false
ends_with_slash (x ∷ s) = if str_eq s "" then code x == b'/' else ends_with_slash s

-- `a / b`
unfoldable pub join : String → String → String
unfolding is_absolute ends_with_slash
join a b =
    if is_absolute b || str_eq a "" then b else if ends_with_slash a then a ⊹ b else a ⊹ "/" ⊹ b

drop_slashes : String → String
drop_slashes [] = ""
drop_slashes (x ∷ s) =
    let rest = drop_slashes s in if code x == b'/' && str_eq rest "" then "" else x ∷ rest

-- Of repeated slashes none stays at the end.
parent_or_root : Option String → String
unfolding or_root drop_slashes
parent_or_root none = ""
parent_or_root (some s) = or_root (drop_slashes s)

-- `p.parent_path()`
unfoldable pub parent_path : String → String
unfolding parent_or_root before_last_found
parent_path p = parent_or_root (before_last_found b'/' p)

last_part : List String → String
last_part List.[] = ""
last_part (List.◌∷◌ p List.[]) = p
last_part (List.◌∷◌ p (List.◌∷◌ q ps)) = last_part (List.◌∷◌ q ps)

-- `p.filename()`
unfoldable pub filename : String → String
unfolding last_part parts
filename p = last_part (parts p)

-- A name that is "..", that has no dot, or only the one in front, has no extension.
stem_of : String → Option String → String
stem_of name none = name
stem_of name (some front) = if str_eq front "" || str_eq name ".." then name else front

-- `p.stem()`
unfoldable pub stem : String → String
unfolding filename stem_of before_last_found
stem p = stem_of (filename p) (before_last_found b'.' (filename p))

-- `p.extension() == e`
unfoldable pub has_extension : String → String → Bool
unfolding filename stem
has_extension e p = str_eq (filename p) (stem p ⊹ e)
