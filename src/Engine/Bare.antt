-- ===== src/Engine/Bare.antt =====
-- The autotuner that a name without its module stands for, in `get_autotuner` and `run_autotuner`.
use Prim.Native.Char.{Char, code}
use Prim.Native.String.{[], ◌∷◌}
use mathlib.Core.List
use text.Mathlib.TextEquality.{codes_equal}
use text.Mathlib.TextPositions.{compare_self}
use falcon_lib.Base.{
  String, true, false, ◌≡◌, ◌≢◌, ◌∙◌, refl, sym, ◌⊎◌, inl, inr, none, some, arith, ◌==◌, ==_iff,
  str_eq, eq_iff, Bool-cases,
}
use falcon_lib.Base.Maps.{Map, lookup, earlier, place, in_order}
use falcon_lib.Syntax.{AutotunerDecl}
use falcon_lib.Engine.{Engine, strip_module, get_autotuner, first_bare, or_bare}

earlier_trans : (a b c : String) → earlier a b ≡ true → earlier b c ≡ true → earlier a c ≡ true
unfolding earlier
earlier_trans [] [] c h k = absurd cc
earlier_trans (x ∷ s) [] c h k = absurd cc
earlier_trans [] (y ∷ t) [] h k = absurd cc
earlier_trans (x ∷ s) (y ∷ t) [] h k = absurd cc
earlier_trans [] (y ∷ t) (z ∷ u) h k = refl
earlier_trans (x ∷ s) (y ∷ t) (z ∷ u) h k = ground (arith, h, k, earlier_trans s t u)

same_char : (x y : Char) → code x ≡ code y → x ≡ y
same_char x y e = codes_equal x y (rw e (compare_self (code y)))

earlier_total : (a b : String) → earlier a b ≡ false → (a ≡ b) ⊎ (earlier b a ≡ true)
unfolding earlier
earlier_total [] [] h = inl refl
earlier_total [] (y ∷ t) h = absurd cc
earlier_total (x ∷ s) [] h = inr refl
earlier_total (x ∷ s) (y ∷ t) h = elim (Bool-cases (code x == code y)) [
  | inr differ ↦ inr (ground (arith, h, differ))
  | inl same ↦ elim (earlier_total s t (ground (arith, h, same))) [
    | inl e ↦ inl (rw (same_char x y ((==_iff (code x) (code y)).0 same), e) refl)
    | inr later ↦ inr (ground (arith, later, same))
  ]
]

-- What is put in front of k, or of an earlier key, is an earlier key than k.
earlier_in_front :
    (i j k : String)
    → earlier j i ≡ false
    → i ≢ k
    → (j ≡ k) ⊎ (earlier j k ≡ true)
    → earlier i k ≡ true
earlier_in_front i j k behind other at = elim (earlier_total j i behind) [
  | inl same ↦ elim at [
    | inl here ↦ absurd (other (sym same ∙ here))
    | inr before ↦ rw (sym same) before
  ]
  | inr after ↦ elim at [
    | inl here ↦ rw (sym here) after
    | inr before ↦ earlier_trans i j k after before
  ]
]

-- An entry of an earlier key than the least is not of its name.
other_name :
    (name k i : String)
    → (str_eq (strip_module i) name ≡ true → earlier i k ≡ false)
    → earlier i k ≡ true
    → str_eq (strip_module i) name ≡ false
other_name name k i h before = ground (arith, h, before)

module _ {V : Type 0} (name k : String) where
  -- No entry of this name without its module has an earlier key than k.
  unfoldable pub IsLeast : Map V → Type 0
  IsLeast List.[] = Unit
  IsLeast (List.◌∷◌ (j, w) m) =
      (str_eq (strip_module j) name ≡ true → earlier j k ≡ false) × IsLeast m

  -- The entry of k, with value v, comes behind entries of earlier keys and other names.
  Reaches : V → Map V → Type 0
  Reaches v List.[] = ⊥
  Reaches v (List.◌∷◌ (j, w) m) =
      ((j ≡ k) × (w ≡ v))
      ⊎ ((earlier j k ≡ true) × (str_eq (strip_module j) name ≡ false) × Reaches v m)

  IsLeast-place :
      (i : String) (u : V) (m : Map V)
      → (str_eq (strip_module i) name ≡ true → earlier i k ≡ false)
      → IsLeast m
      → IsLeast (place i u m)
  unfolding IsLeast place
  IsLeast-place i u List.[] h least = (h, tt)
  IsLeast-place i u (List.◌∷◌ (j, w) m) h least = elim (Bool-cases (earlier j i)) [
    | inl before ↦ rw before (least.0, IsLeast-place i u m h least.1)
    | inr behind ↦ rw behind (h, least)
  ]

  IsLeast-in_order : (m : Map V) → IsLeast m → IsLeast (in_order m)
  unfolding IsLeast in_order
  IsLeast-in_order List.[] least = tt
  IsLeast-in_order (List.◌∷◌ (j, w) m) least =
      IsLeast-place j w (in_order m) least.0 (IsLeast-in_order m least.1)

  Reaches-place_self : (v : V) (m : Map V) → IsLeast m → Reaches v (place k v m)
  unfolding IsLeast Reaches place
  Reaches-place_self v List.[] least = inl (refl, refl)
  Reaches-place_self v (List.◌∷◌ (j, w) m) least = elim (Bool-cases (earlier j k)) [
    | inl before ↦
        rw before (inr (before, other_name name k j least.0 before, Reaches-place_self v m least.1))
    | inr behind ↦ rw behind (inl (refl, refl))
  ]

  Reaches-place :
      (i : String) (u v : V) (m : Map V)
      → (str_eq (strip_module i) name ≡ true → earlier i k ≡ false)
      → i ≢ k
      → Reaches v m
      → Reaches v (place i u m)
  unfolding Reaches place
  Reaches-place i u v List.[] h other r = absurd r
  Reaches-place i u v (List.◌∷◌ (j, w) m) h other r = elim (Bool-cases (earlier j i)) [
    | inl before ↦ elim r [
      | inl here ↦ rw before (inl here)
      | inr (e, n, rest) ↦ rw before (inr (e, n, Reaches-place i u v m h other rest))
    ]
    | inr behind ↦
        let at : (j ≡ k) ⊎ (earlier j k ≡ true) = elim r [
          | inl here ↦ inl here.0
          | inr later ↦ inr later.0
        ] in
        let first = earlier_in_front i j k behind other at in
        rw behind (inr (first, other_name name k i h first, r))
  ]

  Reaches-in_order : (v : V) (m : Map V) → lookup k m ≡ some v → IsLeast m → Reaches v (in_order m)
  unfolding lookup IsLeast in_order
  Reaches-in_order v List.[] e least = absurd cc
  Reaches-in_order v (List.◌∷◌ (j, w) m) e least = elim (Bool-cases (str_eq j k)) [
    | inl same ↦
        let here : j ≡ k = (eq_iff j k).0 same in
        let value : w ≡ v = ground (arith, e, same) in
        rw (here, value) (Reaches-place_self v (in_order m) (IsLeast-in_order m least.1))
    | inr differ ↦
        Reaches-place j w v (in_order m) least.0 (λ p. ground (arith, differ, (eq_iff j k).1 p))
          (Reaches-in_order v m (ground (arith, e, differ)) least.1)
  ]

  first_bare-Reaches :
      (v : V) (m : Map V)
      → str_eq (strip_module k) name ≡ true
      → Reaches v m
      → first_bare name m ≡ some v
  unfolding Reaches first_bare
  first_bare-Reaches v List.[] bare r = absurd r
  first_bare-Reaches v (List.◌∷◌ (j, w) m) bare r = elim r [
    | inl (here, value) ↦ rw (here, bare, value) refl
    | inr (e, n, rest) ↦ rw n (first_bare-Reaches v m bare rest)
  ]

-- A name under which no autotuner is loaded stands for the loaded autotuner with the least qualified
-- name, in the order of strings, among those whose name without the module it is.
pub get_autotuner_bare :
    (engine : Engine) (name k : String) (decl : AutotunerDecl)
    → lookup name engine.loaded_autotuners ≡ none
    → lookup k engine.loaded_autotuners ≡ some decl
    → str_eq (strip_module k) name ≡ true
    → IsLeast name k engine.loaded_autotuners
    → get_autotuner engine name ≡ some decl
unfolding get_autotuner or_bare
get_autotuner_bare engine name k decl missing found bare least = rw missing (
    first_bare-Reaches name k decl (in_order engine.loaded_autotuners) bare
      (Reaches-in_order name k decl engine.loaded_autotuners found least))
