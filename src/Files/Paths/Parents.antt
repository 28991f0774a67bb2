-- ===== src/Files/Paths/Parents.antt =====
-- The length of a parent path.
use Prim.Native.Char.{Char, code}
use Prim.Native.String.compare
use text.Mathlib.Text.{is_eq}
use Prim.Native.String.{[], ◌∷◌}
use mathlib.Core.Logic.{◌⊎◌, inl, inr}
use text.Mathlib.TextEquality.{codes_equal}
use falcon_lib.Base.{
  ℕ, ◌≤◌, ◌<◌, ◌&&◌, String, true, false, ◌≡◌, refl, sym, ap, some, arith, str_eq, Bool-cases,
  Option-cases, ◌==◌,
}
use falcon_lib.Base.Text.{before_last_found, text_length}
use falcon_lib.Files.Paths.{parent_path, parent_or_root, or_root, drop_slashes}

before_last_found_shorter :
    (c : ℕ) (s t : String) → before_last_found c s ≡ some t → text_length t < text_length s
unfolding before_last_found
before_last_found_shorter c [] t e = absurd cc
before_last_found_shorter c (x ∷ s) t e = elim (Option-cases (before_last_found c s)) [
  | inl not_left ↦ elim (Bool-cases (code x == c)) [
    | inl same ↦
        let empty : "" ≡ t = ground (arith, e, not_left, same) in rw (sym empty) (omega arith)
    | inr other ↦ absurd (ground (arith, e, not_left, other))
  ]
  | inr (u, found) ↦
      let whole : x ∷ u ≡ t = ground (arith, e, found) in
      rw (sym whole) (omega (arith, before_last_found_shorter c s u found))
]

lone_slash : (x : Char) → code x ≡ b'/' → str_eq "/" (x ∷ []) ≡ true
lone_slash x e = rw (sym (codes_equal "/" x (rw e refl))) refl

-- A path with a slash is the root or longer than one character.
root_or_longer :
    (dir s : String)
    → before_last_found b'/' dir ≡ some s
    → (str_eq "/" dir ≡ true) ⊎ (1 < text_length dir)
unfolding before_last_found
root_or_longer [] s e = absurd cc
root_or_longer (x ∷ []) s e = elim (Bool-cases (code x == b'/')) [
  | inl slash ↦ inl (lone_slash x (ground (arith, slash)))
  | inr other ↦ absurd (ground (arith, e, other))
]
root_or_longer (x ∷ (y ∷ t)) s e = inr (omega arith)

drop_slashes_shorter : (s : String) → text_length (drop_slashes s) ≤ text_length s
unfolding drop_slashes
drop_slashes_shorter [] = omega arith
drop_slashes_shorter (x ∷ s) = elim (Bool-cases (code x == b'/' && str_eq (drop_slashes s) "")) [
  | inl dropped ↦ rw dropped (omega arith)
  | inr kept ↦ rw kept (omega (arith, drop_slashes_shorter s))
]

slash_ne : (x : Char) (s : String) → str_eq (x ∷ s) "" ≡ false
slash_ne x s = ap is_eq (compare.cons-nil x s)

root_if_empty :
    (dir s : String)
    → (str_eq "/" dir ≡ true) ⊎ (1 < text_length dir)
    → text_length s < text_length dir
    → (str_eq (or_root s) dir ≡ true) ⊎ (text_length (or_root s) < text_length dir)
unfolding or_root
root_if_empty dir [] long shorter = long
root_if_empty dir (x ∷ s) long shorter = inr (rw (slash_ne x s) shorter)

pub parent_path_shorter :
    (dir : String)
    → (str_eq (parent_path dir) dir ≡ true) ⊎ (text_length (parent_path dir) < text_length dir)
unfolding parent_path parent_or_root
parent_path_shorter [] = inl (ground arith)
parent_path_shorter (x ∷ dir) = elim (Option-cases (before_last_found b'/' (x ∷ dir))) [
  | inl not_there ↦ inr (rw not_there (omega arith))
  | inr (s, found) ↦ rw found (
      root_if_empty (x ∷ dir) (drop_slashes s) (root_or_longer (x ∷ dir) s found)
        (omega (arith, drop_slashes_shorter s, before_last_found_shorter b'/' (x ∷ dir) s found)))
]
