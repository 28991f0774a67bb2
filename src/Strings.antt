-- ===== src/Strings.antt =====
-- libs/strings/strings-wrapper.cpp: the routines on strings, as functions of the named parameters to
-- the results. Texts are of one-byte characters. The packing of parameters and results for the C interface
-- is left out.
pub mod Search
pub mod Replacing
pub mod Positions
pub mod Foreign
use Prim.Native.Char.{Char, code}
use Prim.Native.String.{[], ◌∷◌}
use falcon_lib.Base.{
  ℕ, suc, ◌+◌, ◌-◌, String, Bool, true, false, ◌&&◌, ◌||◌, Option, none, some, List, length,
  get_elem?, leb, ltb, ◌==◌, str_eq, if◌then◌else◌, ◌⊎◌, inl, inr,
}
use falcon_lib.Base.Int.{ℤ, pos, negsuc}
use falcon_lib.Base.Text.{◌⊹◌, text_length, take_text, decimal}
use falcon_lib.Errors.{Result, ok, err, exception, timeout, bad_variant, native_error, ◌>>=◌}
use falcon_lib.Value.{
  RuntimeValue, int, float, bool, string, nil, error, ParameterMap, FunctionResult,
}
use falcon_lib.Arrays.{param_at, get_int}
use falcon_lib.Strings.Search.{find, drop_text}
use falcon_lib.Strings.Replacing.{replace_at, replace_loop}

unfoldable pub get_text : RuntimeValue → Result String
get_text (string s) = ok s
get_text v = err (exception bad_variant)

-- `std::get<std::string>(pm.at(key))`
unfoldable pub text_param : String → ParameterMap → Result String
unfolding param_at get_text
text_param key pm = param_at key pm >>= get_text

unfoldable pub int_param : String → ParameterMap → Result ℤ
unfolding param_at get_int
int_param key pm = param_at key pm >>= get_int

abbrev pub one : RuntimeValue → Result FunctionResult
one v = ok (List.◌∷◌ v List.[])

-- `FunctionResult{nullptr, ErrorObject{…, false}}`
abbrev pub failed : String → Result FunctionResult
failed message =
    ok (List.◌∷◌ nil (List.◌∷◌ (error (record { message = message; is_fatal = false })) List.[]))

abbrev is_some {ℓ} : {A : Type ℓ} → Option A → Bool
is_some none = false
is_some (some a) = true

unfoldable pub contains : ParameterMap → Result FunctionResult
unfolding text_param find
contains pm =
    text_param "s" pm >>= λ s. text_param "sub" pm >>= λ sub. one (bool (is_some (find sub s)))

unfoldable pub starts_with : ParameterMap → Result FunctionResult
unfolding text_param
starts_with pm = text_param "s" pm >>= λ s. text_param "prefix" pm >>= λ prefix. one (
    bool (
      leb (text_length prefix) (text_length s) && str_eq (take_text (text_length prefix) s) prefix))

unfoldable pub ends_with : ParameterMap → Result FunctionResult
unfolding text_param drop_text
ends_with pm = text_param "s" pm >>= λ s. text_param "suffix" pm >>= λ suffix. one (
    bool (
      leb (text_length suffix) (text_length s)
      && str_eq (drop_text (text_length s - text_length suffix) s) suffix))

-- `Length`
unfoldable pub size : ParameterMap → Result FunctionResult
unfolding text_param
size pm = text_param "s" pm >>= λ s. one (int (pos (text_length s)))

unfoldable pub is_empty : ParameterMap → Result FunctionResult
unfolding text_param
is_empty pm = text_param "s" pm >>= λ s. one (bool (str_eq s ""))

-- Space, tab, carriage return, form feed and vertical tab.
is_blank : ℕ → Bool
is_blank c = c == 32 || (c == 9 || (c == 13 || (c == 12 || c == 11)))

trim_front : String → String
unfolding is_blank
trim_front [] = ""
trim_front (x ∷ s) = let rest = trim_front s in if is_blank (code x) then rest else x ∷ s

trim_back : String → String
unfolding is_blank
trim_back [] = ""
trim_back (x ∷ s) =
    let rest = trim_back s in if is_blank (code x) && str_eq rest "" then "" else x ∷ rest

unfoldable pub trim_space : ParameterMap → Result FunctionResult
unfolding text_param trim_front trim_back
trim_space pm = text_param "s" pm >>= λ s. one (string (trim_back (trim_front s)))

replace_first : String → String → String → String
unfolding find replace_at
replace_first from to s = elim (find from s) [
  | none ↦ s
  | some i ↦ replace_at i (text_length from) to s
]

-- The first occurrence.
unfoldable pub replace : ParameterMap → Result FunctionResult
unfolding text_param replace_first
replace pm = text_param "s" pm >>= λ s. text_param "from" pm >>= λ from.
    text_param "to" pm >>= λ to. one (string (replace_first from to s))

-- The loop goes on at most once for each character.
unfoldable pub replace_text : String → String → String → Result String
unfolding replace_loop
replace_text from to s =
    let replaced = replace_loop (suc (text_length s)) from to s 0 in
    if str_eq from "" then ok s else replaced

unfoldable pub replace_all : ParameterMap → Result FunctionResult
unfolding text_param replace_text
replace_all pm = text_param "s" pm >>= λ s. text_param "from" pm >>= λ from.
    text_param "to" pm >>= λ to. replace_text from to s >>= λ t. one (string t)

unfoldable pub concat : ParameterMap → Result FunctionResult
unfolding text_param
concat pm = text_param "a" pm >>= λ a. text_param "b" pm >>= λ b. one (string (a ⊹ b))

clamp : ℤ → ℕ
clamp (pos n) = n
clamp (negsuc n) = 0

-- `substr(start, len)`, where a negative length becomes a huge one.
cut : ℕ → ℤ → String → String
unfolding drop_text
cut start (pos len) s = take_text len (drop_text start s)
cut start (negsuc n) s = drop_text start s

unfoldable pub substring_of : String → ℤ → ℤ → String
unfolding clamp cut
substring_of s start len = if leb (text_length s) (clamp start) then "" else cut (clamp start) len s

unfoldable pub substring : ParameterMap → Result FunctionResult
unfolding text_param int_param substring_of
substring pm = text_param "s" pm >>= λ s. int_param "begin" pm >>= λ start.
    int_param "length" pm >>= λ len. one (string (substring_of s start len))

unfoldable pub position : Option ℕ → ℤ
position none = negsuc 0
position (some i) = pos i

unfoldable pub index_of : ParameterMap → Result FunctionResult
unfolding text_param find position
index_of pm =
    text_param "s" pm >>= λ s. text_param "sub" pm >>= λ sub. one (int (position (find sub s)))

int_text : ℤ → String
unfolding decimal
int_text (pos n) = decimal n
int_text (negsuc n) = "-" ⊹ decimal (suc n)

unfoldable pub from_int : ParameterMap → Result FunctionResult
unfolding int_param int_text
from_int pm = int_param "i" pm >>= λ i. one (string (int_text i))

get_bool : RuntimeValue → Result Bool
get_bool (bool b) = ok b
get_bool v = err (exception bad_variant)

unfoldable pub from_bool : ParameterMap → Result FunctionResult
unfolding param_at get_bool
from_bool pm = param_at "b" pm >>= get_bool >>= λ b. one (string (if b then "true" else "false"))

unfoldable pub to_bool : ParameterMap → Result FunctionResult
unfolding text_param
to_bool pm = text_param "s" pm >>= λ s.
    if str_eq s "true" || str_eq s "1"
    then one (bool true)
    else if str_eq s "false" || str_eq s "0"
    then one (bool false)
    else failed ("Cannot parse bool: " ⊹ s)
