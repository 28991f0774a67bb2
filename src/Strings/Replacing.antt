-- ===== src/Strings/Replacing.antt =====
-- The loop of `ReplaceAll`, and that it ends.
use Prim.Native.String.{[], ◌∷◌}
use Prim.Native.String.append
use falcon_lib.Base.{
  ℕ, zero, suc, ◌+◌, ◌-◌, ◌≤◌, ◌<◌, String, ◌≡◌, refl, ap, none, some, arith, Option-cases, inl,
  inr,
}
use falcon_lib.Base.Text.{◌⊹◌, text_length, take_text}
use falcon_lib.Errors.{Result, ok, err, timeout}
use falcon_lib.Strings.Search.{find, drop_text, find-take}

-- `s.replace(i, n, to)`
unfoldable pub replace_at : ℕ → ℕ → String → String → String
unfolding drop_text
replace_at i n to s = take_text i s ⊹ (to ⊹ drop_text (i + n) s)

-- The next occurrence from `at` on, counted from there, is replaced, and the search goes on after it.
unfoldable pub replace_loop : ℕ → String → String → String → ℕ → Result String
unfolding find drop_text replace_at
replace_loop zero from to s at = err timeout
replace_loop (suc fuel) from to s at = elim (find from (drop_text at s)) [
  | none ↦ ok s
  | some i ↦
      replace_loop fuel from to (replace_at (at + i) (text_length from) to s)
        (at + i + text_length to)
]

text_length-append : (a b : String) → text_length (a ⊹ b) ≡ text_length a + text_length b
text_length-append [] b = omega (arith, ap text_length (append.nil b))
text_length-append (x ∷ a) b =
    omega (arith, ap text_length (append.cons x a b), text_length-append a b)

pub text_length-drop : (n : ℕ) (s : String) → text_length (drop_text n s) ≡ text_length s - n
unfolding drop_text
text_length-drop zero s = omega arith
text_length-drop (suc n) [] = omega arith
text_length-drop (suc n) (x ∷ s) = omega (arith, text_length-drop n s)

text_length-take : (n : ℕ) (s : String) → n ≤ text_length s → text_length (take_text n s) ≡ n
unfolding take_text
text_length-take zero s h = refl
text_length-take (suc n) [] h = absurd (omega (arith, h))
text_length-take (suc n) (x ∷ s) h = omega (arith, text_length-take n s (omega (arith, h)))

text_length-replace_at :
    (i n : ℕ) (to s : String)
    → i + n ≤ text_length s
    → text_length (replace_at i n to s) ≡ i + (text_length to + (text_length s - (i + n)))
unfolding replace_at
text_length-replace_at i n to s h = omega (
  arith,
  text_length-append (take_text i s) (to ⊹ drop_text (i + n) s),
  text_length-append to (drop_text (i + n) s),
  text_length-take i s (omega (arith, h)),
  text_length-drop (i + n) s,
)

-- For a text to replace that is not empty, more fuel than the characters from `at` on is enough.
pub replace_loop_ends :
    (fuel : ℕ) (from to s : String) (at : ℕ)
    → 1 ≤ text_length from
    → at ≤ text_length s
    → text_length s - at < fuel
    → (t : String) × (replace_loop fuel from to s at ≡ ok t)
unfolding replace_loop
replace_loop_ends zero from to s at some_from within h = absurd (omega (arith, h))
replace_loop_ends (suc fuel) from to s at some_from within h =
    elim (Option-cases (find from (drop_text at s))) [
      | inl nowhere ↦ (s, rw (replace_loop, nowhere) refl)
      | inr (i, found) ↦
          let (taken, inside) = find-take from (drop_text at s) i found in
          let fits : at + i + text_length from ≤ text_length s =
            omega (arith, inside, text_length-drop at s, some_from) in
          let grown = text_length-replace_at (at + i) (text_length from) to s fits in
          rw (replace_loop, found)
            (replace_loop_ends fuel from to (replace_at (at + i) (text_length from) to s)
              (at + i + text_length to) some_from (omega (arith, grown))
              (omega (arith, grown, fits, h, some_from)))
    ]
