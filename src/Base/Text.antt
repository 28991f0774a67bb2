-- ===== src/Base/Text.antt =====
-- `std::string` operations of the source: concatenation, the text before the first occurrence of
-- a character, and the text after the first occurrence of "::".
use Prim.Native.Char.{code}
use Prim.Native.String.{◌++◌ as append, [], ◌∷◌}
use mathlib.Core.Bool.{Bool, ◌&&◌}
use mathlib.Core.List.{List}
use mathlib.Core.Option
use mathlib.Core.Option.{Option, none, some}
use Prim.Native.String.{String}
use Prim.Native.Nat.{ℕ, zero, suc, ◌/◌, ◌%◌}
use text.Mathlib.Text.{◌==◌ as str_eq, starts_with}
use falcon_lib.Base.Tests.{◌==◌, ltb, if◌then◌else◌}

infixr 65 ◌⊹◌
abbrev pub ◌⊹◌ : String → String → String
a ⊹ b = append a b

-- The text before the first character of code `c`, when there is one.
unfoldable pub text_before : ℕ → String → Option String
text_before c [] = none
text_before c (x ∷ s) =
    let rest = text_before c s in if code x == c then some "" else Option.map (λ t. x ∷ t) rest

-- The text after the first "::", when there is one.
unfoldable pub after_colons : String → Option String
after_colons [] = none
after_colons (x ∷ []) = none
after_colons (x ∷ (y ∷ s)) =
    let rest = after_colons (y ∷ s) in if code x == b':' && code y == b':' then some s else rest

-- The parts between the commas of `s`; `done` is the part read so far.
unfoldable pub split_commas : String → String → List String
split_commas done [] = List.◌∷◌ done List.[]
split_commas done (x ∷ s) =
    let here = split_commas "" s in
    let more = split_commas (append done (x ∷ [])) s in
    if code x == b',' then List.◌∷◌ done here else more

abbrev or_text : String → Option String → String
or_text s none = s
or_text s (some t) = t

unfoldable pub after_first : ℕ → String → Option String
after_first c [] = none
after_first c (x ∷ s) = let rest = after_first c s in if code x == c then some s else rest

unfoldable pub before_last_found : ℕ → String → Option String
before_last_found c [] = none
before_last_found c (x ∷ s) = elim (before_last_found c s) [
  | some t ↦ some (x ∷ t)
  | none ↦ if code x == c then some "" else none
]

trim_left : String → String
trim_left [] = ""
trim_left (x ∷ s) = let rest = trim_left s in if code x == b' ' then rest else x ∷ s

-- A space is dropped when only spaces stand behind it.
trim_right : String → String
trim_right [] = ""
trim_right (x ∷ s) =
    let rest = trim_right s in if code x == b' ' && str_eq rest "" then "" else x ∷ rest

-- `substr(find(c) + 1)`: the whole text when `c` is not there.
unfoldable pub after_char : ℕ → String → String
unfolding after_first
after_char c s = or_text s (after_first c s)

-- `substr(0, rfind(c))`: the whole text when `c` is not there.
unfoldable pub before_last : ℕ → String → String
unfolding before_last_found
before_last c s = or_text s (before_last_found c s)

-- Spaces off both ends.
unfoldable pub trim : String → String
unfolding trim_left trim_right
trim s = trim_right (trim_left s)

-- `rfind(p, 0) == 0`
unfoldable pub has_prefix : String → String → Bool
has_prefix p s = starts_with s p

digit : ℕ → String
digit n =
    if n == 0
    then "0"
    else if n == 1
    then "1"
    else if n == 2
    then "2"
    else if n == 3
    then "3"
    else if n == 4
    then "4"
    else if n == 5
    then "5"
    else if n == 6
    then "6"
    else if n == 7
    then "7"
    else if n == 8
    then "8"
    else "9"

digits_with : ℕ → ℕ → String
digits_with zero n = ""
digits_with (suc fuel) n =
    let front = append (digits_with fuel (n / 10)) (digit (n % 10)) in
    if ltb n 10 then digit n else front

-- `std::to_string` of a number that is not negative; it has at most n + 1 digits.
unfoldable pub decimal : ℕ → String
unfolding digits_with digit
decimal n = digits_with (suc n) n

-- `substr(0, n)`
unfoldable pub take_text : ℕ → String → String
take_text zero s = ""
take_text (suc n) [] = ""
take_text (suc n) (x ∷ s) = x ∷ take_text n s

-- `size()` of a text of one-byte characters.
abbrev pub text_length : String → ℕ
text_length [] = 0
text_length (x ∷ s) = suc (text_length s)
