-- ===== src/Base/Maps.antt =====
-- `std::map<std::string, V>` as an association list in the order of insertion. Code that walks a map
-- and shows the order of its keys walks `in_order`.
use Prim.Native.Char.{code}
use Prim.Native.String.{String}
use mathlib.Core.Path.{◌≡◌, refl}
use mathlib.Core.Bool.{Bool, true, false, ◌&&◌, ◌||◌}
use mathlib.Core.Option.{Option, none, some}
use mathlib.Core.List.{List, [], ◌∷◌}
use native.Mathlib.Omega.{arith}
use text.Mathlib.Text.{◌==◌ as str_eq}
use text.Mathlib.TextEquality.{eq_iff}
use mathlib.Core.Logic.{◌⊎◌, inl, inr}
use falcon_lib.Base.Tests.{ltb, ◌==◌, if◌then◌else◌, Bool-cases}

abbrev pub Map {ℓ} : Type ℓ → Type ℓ
Map V = List (String × V)

abbrev pub is_some {ℓ} : {V : Type ℓ} → Option V → Bool
is_some none = false
is_some (some v) = true

-- `a < b` of `std::string`, over texts of one-byte characters
unfoldable pub earlier : String → String → Bool
earlier String.[] String.[] = false
earlier String.[] (String.◌∷◌ y t) = true
earlier (String.◌∷◌ x s) String.[] = false
earlier (String.◌∷◌ x s) (String.◌∷◌ y t) =
    let rest = earlier s t in ltb (code x) (code y) || (code x == code y && rest)

module _ {ℓ} {V : Type ℓ} where
  -- An entry in front of the first that is not earlier.
  unfoldable pub place : String → V → Map V → Map V
  unfolding earlier
  place k v [] = (k, v) ∷ []
  place k v ((j, w) ∷ m) =
      let rest = place k v m in if earlier j k then (j, w) ∷ rest else (k, v) ∷ (j, w) ∷ m

  -- The entries by their keys, as `begin()` to `end()` gives them.
  unfoldable pub in_order : Map V → Map V
  unfolding place
  in_order [] = []
  in_order ((k, v) ∷ m) = place k v (in_order m)

  -- `find`
  unfoldable pub lookup : String → Map V → Option V
  lookup k [] = none
  lookup k ((j, v) ∷ m) = if str_eq j k then some v else lookup k m

  -- `operator[]` with an assignment
  unfoldable pub insert : String → V → Map V → Map V
  insert k v [] = (k, v) ∷ []
  insert k v ((j, w) ∷ m) = if str_eq j k then (k, v) ∷ m else (j, w) ∷ insert k v m

  -- `count(k) > 0`
  unfoldable pub contains : String → Map V → Bool
  contains k [] = false
  contains k ((j, v) ∷ m) = if str_eq j k then true else contains k m

  -- `emplace`, which keeps an entry that is there
  unfoldable pub emplace : String → V → Map V → Map V
  unfolding contains insert
  emplace k v m = if contains k m then m else insert k v m

  -- The entries whose key passes the test.
  unfoldable pub keep : (String → Bool) → Map V → Map V
  keep p [] = []
  keep p ((j, v) ∷ m) = if p j then (j, v) ∷ keep p m else keep p m

  pub lookup-insert :
      (written asked : String) (new : V) (m : Map V)
      → lookup asked (insert written new m)
        ≡ (if str_eq written asked then some new else lookup asked m)
  unfolding lookup insert
  lookup-insert written asked new [] = refl
  lookup-insert written asked new ((there, old) ∷ rest) = ground (
    arith,
    lookup-insert written asked new rest,
    eq_iff there written,
    eq_iff there asked,
    eq_iff written asked,
  )

  pub contains-insert :
      (k j : String) (v : V) (m : Map V)
      → contains j (insert k v m) ≡ (if str_eq k j then true else contains j m)
  unfolding contains insert
  contains-insert k j v [] = refl
  contains-insert k j v ((i, w) ∷ m) =
      ground (arith, eq_iff k j, eq_iff i k, eq_iff i j, contains-insert k j v m)

  pub lookup-keep :
      (p : String → Bool) (k : String) (m : Map V)
      → lookup k (keep p m) ≡ (if p k then lookup k m else none)
  unfolding lookup keep
  lookup-keep p k [] = ground arith
  lookup-keep p k ((i, w) ∷ m) = ground (arith, eq_iff i k, lookup-keep p k m)

  pub contains-eq-is_some : (k : String) (m : Map V) → contains k m ≡ is_some (lookup k m)
  unfolding lookup contains
  contains-eq-is_some k [] = refl
  contains-eq-is_some k ((i, w) ∷ m) = ground (arith, contains-eq-is_some k m)

  pub contains-keep :
      (p : String → Bool) (k : String) (m : Map V)
      → contains k (keep p m) ≡ (if p k then contains k m else false)
  unfolding contains keep
  contains-keep p k [] = ground arith
  contains-keep p k ((i, w) ∷ m) = ground (arith, eq_iff i k, contains-keep p k m)

  unfoldable pub present_or : Option V → V → V
  present_or none v = v
  present_or (some w) v = w

  -- The new entry is found only where there was none.
  pub lookup-emplace :
      (k j : String) (v : V) (m : Map V)
      → lookup j (emplace k v m)
        ≡ (if str_eq k j then some (present_or (lookup k m) v) else lookup j m)
  unfolding emplace present_or
  lookup-emplace k j v m =
      ground (arith, lookup-insert k j v m, eq_iff k j, contains-eq-is_some k m)

  -- What is found after a write was written, or was there.
  pub lookup-insert_cases :
      (written asked : String) (new found : V) (m : Map V)
      → lookup asked (insert written new m) ≡ some found
      → (found ≡ new) ⊎ (lookup asked m ≡ some found)
  lookup-insert_cases written asked new found m e = elim (Bool-cases (str_eq written asked)) [
    | inl same ↦ inl (ground (arith, e, same, lookup-insert written asked new m))
    | inr other ↦ inr (ground (arith, e, other, lookup-insert written asked new m))
  ]

  pub lookup-keep-some :
      (p : String → Bool) (k : String) (found : V) (m : Map V)
      → lookup k (keep p m) ≡ some found
      → lookup k m ≡ some found
  lookup-keep-some p k found m e = ground (arith, e, lookup-keep p k m)
