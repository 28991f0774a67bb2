-- ===== src/Samples/Texts.antt =====
-- The routines on strings at sample texts.
use falcon_lib.Base.{ℕ, ◌+◌, ◌≤◌, String, true, false, ◌≡◌, refl, ◌⊎◌, [], ◌∷◌}
use falcon_lib.Base.Int.{pos, negsuc}
use falcon_lib.Base.Text.{text_length, take_text}
use falcon_lib.Errors.{ok}
use falcon_lib.Value.{int, bool, string}
use falcon_lib.Strings.{contains, index_of, substring, replace_all, trim_space}
use falcon_lib.Strings.Positions.{search_args, cut_args, substring-index_of, replace_all_ends}
use falcon_lib.Strings.Foreign.{group_text}

-- A replacement that contains the replaced text.
replace_dashes :
    replace_all (("s", string "a-b-c") ∷ ("from", string "-") ∷ ("to", string "--") ∷ [])
    ≡ ok (string "a--b--c" ∷ [])
unfolding replace_all take_text
replace_dashes = refl

trim_space_keeps_newline : trim_space (("s", string " \ta b\n \r") ∷ []) ≡ ok (string "a b\n" ∷ [])
unfolding trim_space
trim_space_keeps_newline = refl

-- The group before the first is no group.
group_text_zero :
    group_text (record { matched = true; full = "ab"; groups = "a" ∷ [] }) (pos 0) ≡ ""
unfolding group_text
group_text_zero = refl

substring-index_of_example :
    ((i : ℕ) × (index_of (search_args "a.fal" ".fal") ≡ ok (int (pos i) ∷ []))
      × (contains (search_args "a.fal" ".fal") ≡ ok (bool true ∷ []))
      × (i + text_length ".fal" ≤ text_length "a.fal")
      × (substring (cut_args "a.fal" (pos i) (pos (text_length ".fal"))) ≡ ok (string ".fal" ∷ [])))
    ⊎ ((index_of (search_args "a.fal" ".fal") ≡ ok (int (negsuc 0) ∷ []))
        × (contains (search_args "a.fal" ".fal") ≡ ok (bool false ∷ [])))
substring-index_of_example = substring-index_of "a.fal" ".fal"

replace_all_ends_example :
    (t : String) × (replace_all
        (("s", string "a-b-c") ∷ ("from", string "-") ∷ ("to", string "--") ∷ [])
      ≡ ok (string t ∷ []))
replace_all_ends_example = replace_all_ends "a-b-c" "-" "--"
