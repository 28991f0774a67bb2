-- ===== src/Strings/Search.antt =====
-- `std::string::find`, `compare` with a prefix, `substr` and `replace`, over texts of one-byte
-- characters.
use Prim.Native.Char.{Char, code}
use Prim.Native.String.{[], ◌∷◌}
use text.Mathlib.TextEquality.{codes_equal}
use text.Mathlib.TextPositions.{compare_self}
use falcon_lib.Base.{
  ℕ, zero, suc, ◌+◌, ◌≤◌, String, Bool, true, false, ◌&&◌, ◌≡◌, refl, sym, Option, none, some,
  arith, ◌==◌, ==_iff, if◌then◌else◌, Bool-cases, Option-cases, inl, inr,
}
use falcon_lib.Base.Text.{text_length, take_text}

unfoldable pub is_prefix : String → String → Bool
is_prefix [] s = true
is_prefix (x ∷ p) [] = false
is_prefix (x ∷ p) (y ∷ s) = code x == code y && is_prefix p s

-- `substr(n)`
unfoldable pub drop_text : ℕ → String → String
drop_text zero s = s
drop_text (suc n) [] = ""
drop_text (suc n) (x ∷ s) = drop_text n s

next_index : Option ℕ → Option ℕ
next_index none = none
next_index (some i) = some (suc i)

-- The first index at which `sub` stands.
unfoldable pub find : String → String → Option ℕ
unfolding is_prefix next_index
find sub [] = if is_prefix sub "" then some 0 else none
find sub (x ∷ s) =
    let later = next_index (find sub s) in if is_prefix sub (x ∷ s) then some 0 else later

same_char : (x y : Char) → (code x == code y) ≡ true → y ≡ x
same_char x y e =
    let codes : code y ≡ code x = sym ((==_iff (code x) (code y)).0 e) in
    codes_equal y x (rw codes (compare_self (code x)))

-- A text that starts with `sub` has it there, and is as long.
pub is_prefix-take :
    (sub s : String)
    → is_prefix sub s ≡ true
    → (take_text (text_length sub) s ≡ sub) × (text_length sub ≤ text_length s)
unfolding is_prefix take_text
is_prefix-take [] s e = (refl, omega arith)
is_prefix-take (x ∷ sub) [] e = absurd cc
is_prefix-take (x ∷ sub) (y ∷ s) e =
    let (rest, long) = is_prefix-take sub s (ground (arith, e)) in
    (rw (rest, same_char x y (ground (arith, e))) refl, omega (arith, long))

-- The text at a found index is `sub`, within the text.
pub find-take :
    (sub s : String) (i : ℕ)
    → find sub s ≡ some i
    → (take_text (text_length sub) (drop_text i s) ≡ sub) × (i + text_length sub ≤ text_length s)
unfolding find drop_text next_index
find-take sub [] i e = elim (Bool-cases (is_prefix sub "")) [
  | inl here ↦
      let zero_eq : i ≡ 0 = ground (arith, e, here) in
      let (taken, long) = is_prefix-take sub "" here in rw zero_eq (taken, omega (arith, long))
  | inr not_here ↦ absurd (ground (arith, e, not_here))
]
find-take sub (x ∷ s) i e = elim (Bool-cases (is_prefix sub (x ∷ s))) [
  | inl here ↦
      let zero_eq : i ≡ 0 = ground (arith, e, here) in
      let (taken, long) = is_prefix-take sub (x ∷ s) here in rw zero_eq (taken, omega (arith, long))
  | inr not_here ↦ elim (Option-cases (find sub s)) [
    | inl nowhere ↦ absurd (ground (arith, e, not_here, nowhere))
    | inr (j, later) ↦
        let next_eq : i ≡ suc j = ground (arith, e, not_here, later) in
        let (taken, long) = find-take sub s j later in rw next_eq (taken, omega (arith, long))
  ]
]
