-- ===== src/Strings/Positions.antt =====
-- What the routines on strings say of positions.

use falcon_lib.Base.{
  ℕ, suc, ◌+◌, ◌≤◌, String, true, false, ◌≡◌, refl, ap, some, [], ◌∷◌, arith, str_eq, Option-cases,
  Bool-cases, ◌⊎◌, inl, inr, leb,
}
use falcon_lib.Base.Int.{ℤ, pos, negsuc}
use falcon_lib.Base.Text.{text_length}
use falcon_lib.Errors.{ok}
use falcon_lib.Value.{int, bool, string, ParameterMap}
use falcon_lib.Arrays.{param_at}
use falcon_lib.Strings.Search.{find, find-take}
use falcon_lib.Strings.Replacing.{replace_loop_ends}
use falcon_lib.Strings.{
  text_param, int_param, contains, index_of, substring, substring_of, position, replace_text,
  replace_all,
}

-- The parameters of a search, and those of a cut.
abbrev pub search_args : String → String → ParameterMap
search_args s sub = ("s", string s) ∷ ("sub", string sub) ∷ []

abbrev pub cut_args : String → ℤ → ℤ → ParameterMap
cut_args s start len = ("s", string s) ∷ ("begin", int start) ∷ ("length", int len) ∷ []

empty_text : (s : String) → text_length s ≡ 0 → s ≡ ""
empty_text String.[] h = refl
empty_text (String.◌∷◌ x s) h = absurd (omega (arith, h))

substring_of-find :
    (s sub : String) (i : ℕ)
    → find sub s ≡ some i
    → substring_of s (pos i) (pos (text_length sub)) ≡ sub
unfolding substring_of
substring_of-find s sub i found =
    let (taken, inside) = find-take sub s i found in
    elim (Bool-cases (leb (text_length s) i)) [
      | inl far ↦ rw (far, empty_text sub (ground (arith, far, inside))) refl
      | inr near ↦ rw (near, taken) refl
    ]

-- When IndexOf gives an index that is not negative, Contains says yes and Substring gives the searched
-- text from that index on with its length, and that part lies within the text; when it gives another
-- number, that number is -1 and Contains says no.
pub substring-index_of :
    (s sub : String)
    → ((i : ℕ) × (index_of (search_args s sub) ≡ ok (int (pos i) ∷ []))
        × (contains (search_args s sub) ≡ ok (bool true ∷ []))
        × (i + text_length sub ≤ text_length s)
        × (substring (cut_args s (pos i) (pos (text_length sub))) ≡ ok (string sub ∷ [])))
      ⊎ ((index_of (search_args s sub) ≡ ok (int (negsuc 0) ∷ []))
          × (contains (search_args s sub) ≡ ok (bool false ∷ [])))
unfolding index_of contains substring text_param int_param param_at position
substring-index_of s sub = elim (Option-cases (find sub s)) [
  | inl nowhere ↦ inr (rw nowhere refl, rw nowhere refl)
  | inr (i, found) ↦
      let (taken, inside) = find-take sub s i found in
      inl (
        i,
        rw found refl,
        rw found refl,
        inside,
        ap (λ t. ok (string t ∷ [])) (substring_of-find s sub i found),
      )
]

replace_text_ends : (from to s : String) → (t : String) × (replace_text from to s ≡ ok t)
unfolding replace_text
replace_text_ends String.[] to s = (s, refl)
replace_text_ends (String.◌∷◌ x from) to s =
    let (t, ends) =
      replace_loop_ends (suc (text_length s)) (String.◌∷◌ x from) to s 0 (omega arith) (omega arith)
        (omega arith) in
    elim (Bool-cases (str_eq (String.◌∷◌ x from) "")) [
      | inl empty ↦ (s, rw empty refl)
      | inr filled ↦ (t, rw (filled, ends) refl)
    ]

-- ReplaceAll ends for all texts and gives a text, also when the replacement contains the text that is
-- replaced.
pub replace_all_ends :
    (s from to : String)
    → (t : String) × (replace_all (("s", string s) ∷ ("from", string from) ∷ ("to", string to) ∷ [])
        ≡ ok (string t ∷ []))
unfolding replace_all text_param param_at
replace_all_ends s from to = let (t, ends) = replace_text_ends from to s in (t, rw ends refl)
