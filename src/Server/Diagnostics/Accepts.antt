-- ===== src/Server/Diagnostics/Accepts.antt =====
-- The programs whose calls are in order, as rules, beside the diagnostics of the walk.
use falcon_lib.Base.{
  ℕ, ◌≤◌, String, true, ◌≡◌, refl, ◌↔◌, ◌⊎◌, inl, inr, Option, none, some, List, [], ◌∷◌, ◌++◌, ltb,
  ◌==◌, arith, Bool-cases,
}
use falcon_lib.Base.Maps.{Map, lookup}
use falcon_lib.Syntax.{Location, BuiltinSignature}
use falcon_lib.Server.Diagnostics.{count_required, check_builtin, check_known}

-- A builtin function takes any number of arguments when some parameter is optional, and else at
-- least the required ones.
pub record FitsBuiltin (args : ℕ) (sig : BuiltinSignature) : Type 0 where
  pub enough :
      ((count_required sig.parameters).1 ≡ true) ⊎ ((count_required sig.parameters).0 ≤ args)

abbrev pub FitsKnown : Map BuiltinSignature → String → ℕ → Option (Option ℕ) → Type 0
FitsKnown registry name args (some none) = Unit
FitsKnown registry name args (some (some expected)) = args ≡ expected
FitsKnown registry name args none =
    (sig : BuiltinSignature) × (lookup name registry ≡ some sig) × FitsBuiltin args sig

pub no_cons {ℓ} : {T : Type ℓ} {x : T} {xs : List T} → (x ∷ xs) ≡ [] → ⊥
no_cons e = absurd cc

-- A test of two parts, each of which finds nothing exactly when a condition holds.
pub both {ℓ} :
    {A B : Type 0} {T : Type ℓ} {xs ys : List T}
    → (A ↔ (xs ≡ []))
    → (B ↔ (ys ≡ []))
    → (A × B) ↔ (xs ++ ys ≡ [])
both {xs = []} f g = (λ h. g.0 h.1, λ e. (f.1 refl, g.1 e))
both {xs = x ∷ xs} f g = (λ h. absurd (no_cons (f.0 h.0)), λ e. absurd (no_cons e))

check_builtin_fits :
    (name : String) (args : ℕ) (loc : Location) (sig : BuiltinSignature)
    → FitsBuiltin args sig ↔ (check_builtin name args loc (some sig) ≡ [])
unfolding check_builtin
check_builtin_fits name args loc sig = elim (Bool-cases (count_required sig.parameters).1) [
  | inl variadic ↦ (λ f. ground (arith, variadic), λ e. record { enough = inl variadic })
  | inr fixed ↦ elim (Bool-cases (ltb args (count_required sig.parameters).0)) [
    | inl few ↦ (
      λ f. absurd (ground (arith, few, fixed, f.enough)),
      λ e. absurd (ground (arith, few, fixed, e)),
    )
    | inr enough ↦
        (λ f. ground (arith, enough), λ e. record { enough = inr (ground (arith, enough)) })
  ]
]

module _ (registry : Map BuiltinSignature) where
  check_builtin_known :
      (name : String) (args : ℕ) (loc : Location) (found : Option BuiltinSignature)
      → lookup name registry ≡ found
      → FitsKnown registry name args none ↔ (check_builtin name args loc found ≡ [])
  unfolding check_builtin
  check_builtin_known name args loc none at =
      (λ f. absurd (ground (arith, at, f.1)), λ e. absurd (no_cons e))
  check_builtin_known name args loc (some sig) at = (
    λ f.
        let same : f.0 ≡ sig = ground (arith, at, f.1) in
        (check_builtin_fits name args loc sig).0 (rw same at f.2),
    λ e. (sig, at, (check_builtin_fits name args loc sig).1 e),
  )

  pub check_known_fits :
      (name : String) (args : ℕ) (loc : Location) (found : Option (Option ℕ))
      → FitsKnown registry name args found ↔ (check_known registry name args loc found ≡ [])
  unfolding check_known
  check_known_fits name args loc none =
      check_builtin_known name args loc (lookup name registry) refl
  check_known_fits name args loc (some none) = (λ f. refl, λ e. tt)
  check_known_fits name args loc (some (some expected)) = elim (Bool-cases (args == expected)) [
    | inl same ↦ (λ f. ground (arith, same), λ e. ground (arith, same))
    | inr other ↦ (λ f. absurd (ground (arith, other, f)), λ e. absurd (ground (arith, other, e)))
  ]
