-- ===== src/Engine/Imports.antt =====
-- `AutotunerEngine::extract_imports_from_file` of dsl/src/AutotunerEngine.cpp: the scan of a source
-- text for the imports at its top.
use Prim.Native.Char.{Char, code}
use Prim.Native.String.{[], ◌∷◌}
use falcon_lib.Base.{
  ℕ, String, Bool, false, not, ◌&&◌, ◌||◌, Option, none, some, List, ◌++◌, ◌==◌, if◌then◌else◌,
}
use falcon_lib.Base.Text.{has_prefix, after_first, before_last_found}
use falcon_lib.Base.Maps.{is_some}
use falcon_lib.Files.{FileSystem, read}

extend : Char → List String → List String
extend x List.[] = List.◌∷◌ (x ∷ []) List.[]
extend x (List.◌∷◌ l ls) = List.◌∷◌ (x ∷ l) ls

-- The lines of a text, by `std::getline`; the empty text after a last newline makes no difference.
lines : String → List String
unfolding extend
lines [] = List.◌∷◌ "" List.[]
lines (x ∷ s) = let rest = lines s in if code x == b'\n' then List.◌∷◌ "" rest else extend x rest

-- From the first character that is no space, tab or carriage return.
trim_start : String → String
trim_start [] = ""
trim_start (x ∷ s) =
    let rest = trim_start s in
    if code x == b' ' || code x == b'\t' || code x == b'\r' then rest else x ∷ s

-- What stands between the first and the last quotation mark, when there are two.
quoted : String → Option String
unfolding after_first before_last_found
quoted s = elim (after_first b'"' s) [ none ↦ none | some rest ↦ before_last_found b'"' rest ]

as_list : Option String → List String
as_list none = List.[]
as_list (some s) = List.◌∷◌ s List.[]

has_char : ℕ → String → Bool
unfolding after_first
has_char c s = is_some (after_first c s)

-- `some b`: the next line is read, within an import block or not. `none`: the scan stops.
next_mode : Bool → String → Option Bool
unfolding has_char
next_mode block [] = some block
next_mode block (x ∷ s) =
    if has_prefix "import" (x ∷ s)
    then some (block || has_char b'(' (x ∷ s))
    else if block
    then some (not (has_char b')' (x ∷ s)))
    else if code x == b'/' || code x == b'#'
    then some false
    else none

found_in : Bool → String → List String
unfolding as_list quoted has_char
found_in block line =
    if has_prefix "import" line || (block && not (has_char b')' line))
    then as_list (quoted line)
    else List.[]

scan : Bool → List String → List String
unfolding next_mode found_in trim_start
scan block List.[] = List.[]
scan block (List.◌∷◌ line rest) =
    let trimmed = trim_start line in
    found_in block trimmed
    ++ (elim (next_mode block trimmed) [ none ↦ List.[] | some b ↦ scan b rest ])

scanned : Option String → List String
unfolding scan lines
scanned none = List.[]
scanned (some text) = scan false (lines text)

unfoldable pub extract_imports_from_file : FileSystem → String → List String
unfolding scanned
extract_imports_from_file fs path = scanned (read fs path)
