-- ===== src/Strings/Foreign.antt =====
-- The routines of libs/strings/strings-wrapper.cpp that rest on the C and C++ libraries and on fmt,
-- which are the parameter `Libraries`.
use Prim.Native.Char.{Char, code}
use Prim.Native.String.{[], ◌∷◌}
use falcon_lib.Base.{
  ℕ, ◌-◌, String, Bool, true, false, ◌&&◌, Option, none, some, List, length, get_elem?, leb, ltb,
  ◌==◌, if◌then◌else◌, ◌⊎◌, inl, inr,
}
use falcon_lib.Base.Int.{ℤ, pos, negsuc}
use falcon_lib.Base.Text.{◌⊹◌}
use falcon_lib.Errors.{Result, ok, err, exception, bad_variant, native_error, ◌>>=◌}
use falcon_lib.Value.{RuntimeValue, int, float, bool, string, ParameterMap, FunctionResult}
use falcon_lib.Arrays.{param_at}
use falcon_lib.Strings.{text_param, int_param, one, failed}

pub record Libraries : Type 0 where
  pub to_upper : Char → Char
  pub to_lower : Char → Char
  -- `std::stoll` and `std::stod`, none when they throw, and `std::to_string` of a double
  pub stoll : String → Option ℤ
  pub stod : String → Option ℕ
  pub double_text : ℕ → String
  -- `std::regex_search` of a pattern in a text: none for `std::regex_error`, else the whole match
  -- and its groups when there is one
  pub regex_search : String → String → Option (Option (String × List String))
  -- `std::regex_replace` of a pattern in a text by a text
  pub regex_replace : String → String → String → Option String
  -- `fmt::format`, or the text of what it throws
  pub format : String → List String → String ⊎ String

transform : (Char → Char) → String → String
transform f [] = ""
transform f (x ∷ s) = f x ∷ transform f s

get_float : RuntimeValue → Result ℕ
get_float (float x) = ok x
get_float v = err (exception bad_variant)

-- Two backslashes become one.
unescape_pattern : String → String
unescape_pattern [] = ""
unescape_pattern (x ∷ []) = x ∷ []
unescape_pattern (x ∷ (y ∷ s)) =
    let after_both = unescape_pattern s in
    let after_one = unescape_pattern (y ∷ s) in
    if code x == 92 && code y == 92 then x ∷ after_both else x ∷ after_one

without_backslashes : String → String
without_backslashes [] = ""
without_backslashes (x ∷ s) =
    let rest = without_backslashes s in if code x == 92 then rest else x ∷ rest

pub record RegexMatch : Type 0 where
  pub matched : Bool
  pub full : String
  pub groups : List String

abbrev no_match : RegexMatch
no_match = record { matched = false; full = ""; groups = List.[] }

match_of : Option (Option (String × List String)) → RegexMatch
match_of none = no_match
match_of (some none) = no_match
match_of (some (some (full, groups))) = record { matched = true; full = full; groups = groups }

text_or_empty : Option String → String
text_or_empty none = ""
text_or_empty (some s) = s

-- `m->groups[n - 1]`, or the empty text out of range
unfoldable pub group_text : RegexMatch → ℤ → String
unfolding text_or_empty
group_text m (pos n) = if leb 1 n then text_or_empty (get_elem? m.groups (n - 1)) else ""
group_text m (negsuc n) = ""

unfoldable pub group : RegexMatch → ParameterMap → Result FunctionResult
unfolding int_param group_text
group m pm = int_param "n" pm >>= λ n. one (string (group_text m n))

unfoldable pub group_count : RegexMatch → Result FunctionResult
group_count m = one (int (pos (length m.groups)))

all_texts : List RuntimeValue → Result (List String)
all_texts List.[] = ok List.[]
all_texts (List.◌∷◌ (string s) vs) = all_texts vs >>= λ ss. ok (List.◌∷◌ s ss)
all_texts (List.◌∷◌ v vs) = err (exception (native_error "Format: array element is not a string"))

formatted : String ⊎ String → Result FunctionResult
formatted (inl s) = one (string s)
formatted (inr message) = failed message

module _ (libs : Libraries) where
  unfoldable pub to_upper : ParameterMap → Result FunctionResult
  unfolding text_param transform
  to_upper pm = text_param "s" pm >>= λ s. one (string (transform libs.to_upper s))

  unfoldable pub to_lower : ParameterMap → Result FunctionResult
  unfolding text_param transform
  to_lower pm = text_param "s" pm >>= λ s. one (string (transform libs.to_lower s))

  unfoldable pub from_double : ParameterMap → Result FunctionResult
  unfolding param_at get_float
  from_double pm = param_at "f" pm >>= get_float >>= λ x. one (string (libs.double_text x))

  unfoldable pub to_int : ParameterMap → Result FunctionResult
  unfolding text_param
  to_int pm = text_param "s" pm >>= λ s. elim (libs.stoll s) [
    | none ↦ failed ("Cannot parse int: " ⊹ s)
    | some i ↦ one (int i)
  ]

  unfoldable pub to_double : ParameterMap → Result FunctionResult
  unfolding text_param
  to_double pm = text_param "s" pm >>= λ s. elim (libs.stod s) [
    | none ↦ failed ("Cannot parse double: " ⊹ s)
    | some x ↦ one (float x)
  ]

  -- `RegexMatch.New`
  unfoldable pub new_match : ParameterMap → Result RegexMatch
  unfolding text_param unescape_pattern match_of
  new_match pm = text_param "pattern" pm >>= λ pattern. text_param "text" pm >>= λ text.
      ok (match_of (libs.regex_search (unescape_pattern pattern) text))

  unfoldable pub regex_test : ParameterMap → Result FunctionResult
  unfolding text_param unescape_pattern match_of
  regex_test pm = text_param "pattern" pm >>= λ pattern. text_param "text" pm >>= λ text.
      one (bool (match_of (libs.regex_search (unescape_pattern pattern) text)).matched)

  -- A pattern that is no regular expression leaves the text as it is.
  unfoldable pub regex_replace : ParameterMap → Result FunctionResult
  unfolding text_param unescape_pattern
  regex_replace pm = text_param "s" pm >>= λ s. text_param "pattern" pm >>= λ pattern.
      text_param "replacement" pm >>= λ replacement.
      elim (libs.regex_replace (unescape_pattern pattern) s replacement) [
        | none ↦ one (string s)
        | some t ↦ one (string t)
      ]

  -- The pattern names the digits 033 behind a backslash, and backslashes are removed then.
  unfoldable pub strip_ansi : ParameterMap → Result FunctionResult
  unfolding text_param without_backslashes
  strip_ansi pm = text_param "s" pm >>= λ s.
      elim (libs.regex_replace "\\\\033\\[[0-9;?]*[ -/]*[@-~]" s "") [
        | none ↦ err (exception (native_error "regex_error"))
        | some t ↦ one (string (without_backslashes t))
      ]

  -- `Format`, from the elements of the array "args"
  unfoldable pub format : String → List RuntimeValue → Result FunctionResult
  unfolding all_texts formatted
  format fmt elements = all_texts elements >>= λ texts.
      if ltb 5 (length texts)
      then failed "Format: too many arguments for fmt::format (max 5)"
      else formatted (libs.format fmt texts)
